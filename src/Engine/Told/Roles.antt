-- ===== src/Engine/Told/Roles.antt =====
-- frontend/p2p/engine.ts: the roles that `resendRole`, JOIN_GAME and `prepareRound` tell.
use fakeartist.Prelude.{
  ℕ, List, [], ◌∷◌, Bool, true, false, Option, none, some, Str, ◌≡◌, refl, sym, arith, ◌==◌, length,
  subst, ap, if◌then◌else◌, includes, ◌&&◌,
}
use fakeartist.Models.{Round, GameState, WordCard}
use fakeartist.Protocol.{JoinGamePayload, ServerEvent}
use fakeartist.Engine.State.{Env, Engine, is_id, emit_direct, set_status, set_round}
use fakeartist.Engine.Roster.{
  is_active, role_of, resend_role, welcome, enroll, reconnect_player, handle_join,
}
use fakeartist.Engine.Round.{tell_roles, deal, prepare_round, open_round, fresh_round}
use fakeartist.Engine.Frame.{tell_roles-state, resend_role-state}
use fakeartist.Engine.Random.{shuffle}
use fakeartist.Prelude.{get_or, ◌+◌}
use fakeartist.Engine.State.{or_empty}
use fakeartist.Engine.Round.{player_ids, next_index, use_card}
use fakeartist.Engine.Told.{
  IsRoleIn, IsTold, New, New-snoc, Told, Quiet, quieted, Quiet-Told, said, broadcast_state-Quiet,
  emit_error-Quiet,
}

role_of-IsRoleIn :
    (r : Round) (pid : Str) (word : Option Str)
    → IsRoleIn (some r) pid (role_of (is_id r.fake_id pid) word)
unfolding role_of
role_of-IsRoleIn r pid word = go (is_id r.fake_id pid)
  where
    go : (b : Bool) → ((role_of b word).is_fake ≡ b) × (b ≡ true → (role_of b word).word ≡ none)
    go true = (refl, λ h. refl)
    go false = (refl, λ h. cc)

resend_role-Told : (n : ℕ) (id : Str) (e : Engine) → Quiet n e → Told n (resend_role id e)
unfolding resend_role emit_direct
resend_role-Told n id e h =
    subst (λ o. New (IsTold o) n (resend_role id e).out)
      (ap (λ (s : GameState). s.current_round) (sym (resend_role-state id e)))
      (go e.state.current_round)
  where
    go :
        (o : Option Round)
        → New
            (IsTold o)
            n
            (elim o as (λ _. Engine) [
              | none ↦ e
              | some r ↦
                  if is_active e.state.status && includes r.turn_order id
                  then emit_direct id
                      (ServerEvent.your_role (role_of (is_id r.fake_id id) e.private_round_word))
                      e
                  else e
            ]).out
    go none = quieted none n e.out h
    go (some r) = choose (is_active e.state.status && includes r.turn_order id)
      where
        choose :
            (b : Bool)
            → New
                (IsTold (some r))
                n
                (if b
                  then emit_direct id
                      (ServerEvent.your_role (role_of (is_id r.fake_id id) e.private_round_word))
                      e
                  else e).out
        choose true =
            New-snoc (IsTold (some r)) n e.out _ (role_of-IsRoleIn r id e.private_round_word)
              (quieted (some r) n e.out h)
        choose false = (quieted (some r) n e.out h)

welcome-Told : (n : ℕ) (id : Str) (e : Engine) → Quiet n e → Told n (welcome id e)
unfolding welcome emit_direct
welcome-Told n id e h = resend_role-Told n id _ (broadcast_state-Quiet n _ (said n e.out _ tt h))

pub join-Told :
    (n : ℕ) (env : Env) (p : JoinGamePayload) (from : Str) (e : Engine)
    → Quiet n e
    → Told n (handle_join env p from e)
unfolding handle_join enroll reconnect_player
join-Told n env p from e h = grind (arith, welcome-Told, emit_error-Quiet, Quiet-Told)

-- The loop of `prepareRound` over the turn order.
tell_roles-New :
    (n : ℕ) (r : Round) (fake word : Str) (ids : List Str) (e : Engine)
    → r.fake_id ≡ some fake
    → New (IsTold (some r)) n e.out
    → New (IsTold (some r)) n (tell_roles fake word ids e).out
unfolding tell_roles emit_direct
tell_roles-New n r fake word [] e f h = h
tell_roles-New n r fake word (pid ∷ ids) e f h =
    tell_roles-New n r fake word ids _ f (New-snoc (IsTold (some r)) n e.out _ role h)
  where
    role :
        IsRoleIn
          (some r)
          pid
          (record { is_fake = pid == fake; word = if pid == fake then none else some word })
    role = rw f (refl, λ (t : (pid == fake) ≡ true). rw t refl)

module _ (env : Env) where
  deal-Told :
      (n : ℕ) (first : WordCard) (rest : List WordCard) (e : Engine)
      → Quiet n e
      → Told n (deal env first rest e)
  unfolding deal open_round fresh_round set_status set_round
  deal-Told n first rest e h =
      let (order, i) = shuffle env (e.calls + 1) (player_ids e.state.players) in
      let card = get_or (first ∷ rest) (env.random e.calls (length (first ∷ rest))) first in
      let fake = get_or order (env.random i (length order)) [] in
      let round = fresh_round (next_index e.state.current_round) card.id fake order in
      let opened : Engine = open_round round (record e {
        state = record e.state { pool = use_card card.id e.state.pool };
        private_round_word = some (or_empty card.word);
        calls = i + 1;
      }) in
      subst (λ o. New (IsTold o) n (deal env first rest e).out)
        (ap (λ (s : GameState). s.current_round)
          (sym (tell_roles-state fake (or_empty card.word) order opened)))
        (tell_roles-New n round fake (or_empty card.word) order opened refl
          (quieted (some round) n e.out h))

  pub prepare_round-Told : (n : ℕ) (e : Engine) → Quiet n e → Told n (prepare_round env e).1
  unfolding prepare_round
  prepare_round-Told n e h = grind (arith, deal-Told, Quiet-Told)

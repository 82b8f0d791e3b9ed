-- ===== src/Engine/Told.antt =====
-- frontend/p2p/engine.ts: who is told which role in one call of the engine.
pub mod Roles
pub mod Calls
pub mod Draw
use fakeartist.Prelude.{
  ℕ, zero, suc, ◌≤◌, List, [], ◌∷◌, ◌++◌, Bool, true, false, Option, none, some, Str, ◌≡◌, refl,
  ◌∙◌, sym, arith, All, All_weaken, All-append, ◌==◌, Bool-cases, Option-cases, inl, inr, length,
  drop, length-append, subst, ap, str_discrete, if◌then◌else◌, includes, ltb, is_empty, codes,
  decimal, ◌&&◌,
}
use fakeartist.Models.{Point, RolePayload, Round, GameState, WordCard}
use fakeartist.Protocol.{
  ℤ, ConfigPatch, JoinGamePayload, ServerEvent, ClientCommand, join_game, configure_game,
  submit_words, start_game, start_round, submit_stroke, cast_vote, submit_fake_guess, next_round,
  end_game,
}
use fakeartist.Engine.State.{
  Env, Engine, Output, broadcast, direct, draw_request, is_id, emit_direct, set_status, set_round,
  emit_error, broadcast_state,
}
use fakeartist.Engine.Roster.{
  is_active, role_of, resend_role, welcome, enroll, reconnect_player, handle_join, apply_config,
  handle_configure, add_card, add_cards, accept_words, handle_submit_words,
}
use fakeartist.Engine.Round.{
  tell_roles, deal, prepare_round, archive_current_round, request_draw, finalize_round, open_round,
  fresh_round, check_game_over, finish_game,
}
use fakeartist.Engine.Play.{handle_submit_stroke, handle_cast_vote, handle_fake_guess}
use fakeartist.Engine.Dispatch.{
  handle_start_game, start_first_round, handle_start_round, advance, handle_next_round, end_now,
  handle_end_game, dispatch,
}
use fakeartist.Engine.Frame.{tell_roles-state, resend_role-state}
use fakeartist.Engine.Random.{shuffle}
use fakeartist.Prelude.{get_or, ◌+◌}
use fakeartist.Engine.State.{or_empty, emit}
use fakeartist.Engine.Dispatch.{all_submitted}
use fakeartist.Engine.Round.{is_game_over, player_ids, next_index, use_card}
use fakeartist.Engine.Secrecy.{add_cards-out, archive-out}

-- The role of a player in a round: the fake is told that it is, and no word; nobody else is.
abbrev pub IsRoleIn : Option Round → Str → RolePayload → Type 0
IsRoleIn none pid p = ⊥
IsRoleIn (some r) pid p =
    (p.is_fake ≡ is_id r.fake_id pid) × (is_id r.fake_id pid ≡ true → p.word ≡ none)

-- A role goes to the one player whose role it is in the round.
abbrev pub IsTold : Option Round → Output → Type 0
IsTold o (broadcast (ServerEvent.your_role p)) = ⊥
IsTold o (direct pid (ServerEvent.your_role p)) = IsRoleIn o pid p
IsTold o _ = Unit

-- It is not about roles.
abbrev pub IsQuiet : Output → Type 0
IsQuiet (broadcast (ServerEvent.your_role p)) = ⊥
IsQuiet (direct pid (ServerEvent.your_role p)) = ⊥
IsQuiet _ = Unit

-- All outputs behind the first `n`.
unfoldable pub New : (Output → Type 0) → ℕ → List Output → Type 0
New P n os = (n ≤ length os) × All P (drop n os)

drop-append : (n : ℕ) (os ps : List Output) → n ≤ length os → drop n (os ++ ps) ≡ drop n os ++ ps
drop-append zero os ps h = refl
drop-append (suc n) [] ps h = absurd (omega arith)
drop-append (suc n) (o ∷ os) ps h = drop-append n os ps (omega arith)

pub New-snoc :
    (P : Output → Type 0) (n : ℕ) (os : List Output) (o : Output)
    → P o
    → New P n os
    → New P n (os ++ o ∷ [])
unfolding New
New-snoc P n os o k h = (
  omega (arith, length-append os (o ∷ []), h.0),
  subst (All P) (sym (drop-append n os (o ∷ []) h.0))
      (All-append P (drop n os) (o ∷ []) h.1 (k, tt)),
)

quiet-IsTold : (r : Option Round) (o : Output) → IsQuiet o → IsTold r o
quiet-IsTold r (broadcast (ServerEvent.your_role p)) h = h
quiet-IsTold r (direct pid (ServerEvent.your_role p)) h = absurd h
quiet-IsTold r (broadcast (ServerEvent.state_update s)) h = tt
quiet-IsTold r (broadcast (ServerEvent.player_welcome s)) h = tt
quiet-IsTold r (broadcast (ServerEvent.stroke_added s i)) h = tt
quiet-IsTold r (broadcast (ServerEvent.error s)) h = tt
quiet-IsTold r (direct pid (ServerEvent.state_update s)) h = tt
quiet-IsTold r (direct pid (ServerEvent.player_welcome s)) h = tt
quiet-IsTold r (direct pid (ServerEvent.stroke_added s i)) h = tt
quiet-IsTold r (direct pid (ServerEvent.error s)) h = tt
quiet-IsTold r (draw_request a b c) h = tt

abbrev pub Quiet : ℕ → Engine → Type 0
Quiet n e = New IsQuiet n e.out

-- The roles that were told behind the first `n` outputs are those of the round.
abbrev pub Told : ℕ → Engine → Type 0
Told n e = New (IsTold e.state.current_round) n e.out

pub quieted : (r : Option Round) (n : ℕ) (os : List Output) → New IsQuiet n os → New (IsTold r) n os
unfolding New
quieted r n os h = (h.0, All_weaken (drop n os) (λ o. quiet-IsTold r o) h.1)

pub Quiet-Told : (n : ℕ) (e : Engine) → Quiet n e → Told n e
Quiet-Told n e h = quieted e.state.current_round n e.out h

pub said :
    (n : ℕ) (os : List Output) (o : Output)
    → IsQuiet o
    → New IsQuiet n os
    → New IsQuiet n (os ++ o ∷ [])
said n os o k h = New-snoc IsQuiet n os o k h

pub broadcast_state-Told : (n : ℕ) (e : Engine) → Told n e → Told n (broadcast_state e)
unfolding broadcast_state
broadcast_state-Told n e h = New-snoc (IsTold e.state.current_round) n e.out _ tt h

pub broadcast_state-Quiet : (n : ℕ) (e : Engine) → Quiet n e → Quiet n (broadcast_state e)
unfolding broadcast_state
broadcast_state-Quiet n e h = said n e.out _ tt h

pub emit_error-Quiet :
    (n : ℕ) (id message : Str) (e : Engine) → Quiet n e → Quiet n (emit_error id message e)
unfolding emit_error
emit_error-Quiet n id message e h = said n e.out _ tt h

pub emit_error-Told :
    (n : ℕ) (id message : Str) (e : Engine) → Told n e → Told n (emit_error id message e)
unfolding emit_error emit_direct emit
emit_error-Told n id message e h = New-snoc (IsTold e.state.current_round) n e.out _ tt h

pub nothing-New : (P : Output → Type 0) (os : List Output) → New P (length os) os
unfolding New
nothing-New P os = (omega arith, none_left os)
  where
    none_left : (os : List Output) → All P (drop (length os) os)
    none_left [] = tt
    none_left (o ∷ os) = none_left os

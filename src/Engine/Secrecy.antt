-- ===== src/Engine/Secrecy.antt =====
-- frontend/p2p/engine.ts: what the engine sends gives no secret away.
use fakeartist.Prelude.{
  List, [], ◌∷◌, ◌++◌, Bool, true, false, Option, none, Str, ◌≡◌, refl, ◌∙◌, arith, All, All-append,
  ◌==◌, Bool-cases, inl, inr,
}
use fakeartist.Models.{GameState, Point, RolePayload}
use fakeartist.Sanitize.{sanitize}
use fakeartist.Sanitize.Secrecy.{IsPublic, sanitize-IsPublic}
use fakeartist.Protocol.{
  ℤ, ConfigPatch, JoinGamePayload, ServerEvent, ClientCommand, join_game, configure_game,
  submit_words, start_game, start_round, submit_stroke, cast_vote, submit_fake_guess, next_round,
  end_game,
}
use fakeartist.Engine.State.{
  Env, Engine, Output, broadcast, direct, PendingDraw, DrawResult, drawn, failed, Assignment,
  emit_direct, emit_error, broadcast_state,
}
use fakeartist.Engine.Roster.{
  role_of, resend_role, welcome, enroll, reconnect_player, handle_join, apply_config,
  handle_configure, add_card, add_cards, accept_words, handle_submit_words,
}
use fakeartist.Engine.Round.{
  tell_roles, deal, prepare_round, archive_current_round, request_draw, tell_host, finish_draw,
  finalize_round, assignment_of, or_none,
}
use fakeartist.Engine.Play.{handle_submit_stroke, handle_cast_vote, handle_fake_guess}
use fakeartist.Engine.Dispatch.{
  handle_start_game, start_first_round, handle_start_round, advance, handle_next_round, end_now,
  handle_end_game, dispatch,
}

-- The word never goes to the fake.
abbrev pub IsFairRole : RolePayload → Type 0
IsFairRole p = p.is_fake ≡ true → p.word ≡ none

-- A state goes to everybody and is public, a stroke goes to everybody, and all else goes to one
-- player, a role being fair.
abbrev pub IsDiscreet : Output → Type 0
IsDiscreet (broadcast (ServerEvent.state_update s)) = IsPublic s
IsDiscreet (broadcast (ServerEvent.stroke_added stroke n)) = Unit
IsDiscreet (broadcast _) = ⊥
IsDiscreet (direct _ (ServerEvent.your_role p)) = IsFairRole p
IsDiscreet (direct _ (ServerEvent.state_update s)) = ⊥
IsDiscreet (direct _ (ServerEvent.stroke_added stroke n)) = ⊥
IsDiscreet _ = Unit

abbrev pub Discreet : Engine → Type 0
Discreet e = All IsDiscreet e.out

sent :
    (os : List Output) (s : GameState)
    → All IsDiscreet os
    → All IsDiscreet (os ++ broadcast (ServerEvent.state_update (sanitize s)) ∷ [])
sent os s h = All-append IsDiscreet os _ h (sanitize-IsPublic s, tt)

told :
    (os : List Output) (o : Output)
    → IsDiscreet o
    → All IsDiscreet os
    → All IsDiscreet (os ++ o ∷ [])
told os o k h = All-append IsDiscreet os _ h (k, tt)

broadcast_state-Discreet : (e : Engine) → Discreet e → Discreet (broadcast_state e)
unfolding broadcast_state
broadcast_state-Discreet e h = sent e.out e.state h

emit_error-Discreet :
    (id message : Str) (e : Engine) → Discreet e → Discreet (emit_error id message e)
unfolding emit_error
emit_error-Discreet id message e h = told e.out _ tt h

role_of-IsFairRole : (fake : Bool) (word : Option Str) → IsFairRole (role_of fake word)
unfolding role_of
role_of-IsFairRole true word h = refl
role_of-IsFairRole false word h = cc

resend_role-Discreet : (id : Str) (e : Engine) → Discreet e → Discreet (resend_role id e)
unfolding resend_role
resend_role-Discreet id e h = grind (arith, told, role_of-IsFairRole)

welcome-Discreet : (id : Str) (e : Engine) → Discreet e → Discreet (welcome id e)
unfolding welcome emit_direct
welcome-Discreet id e h = resend_role-Discreet id _ (broadcast_state-Discreet _ (told e.out _ tt h))

join-Discreet :
    (env : Env) (p : JoinGamePayload) (from : Str) (e : Engine)
    → Discreet e
    → Discreet (handle_join env p from e)
unfolding handle_join enroll reconnect_player
join-Discreet env p from e h = grind (arith, welcome-Discreet, emit_error-Discreet)

configure-Discreet :
    (p : ConfigPatch ℤ) (from : Str) (e : Engine)
    → Discreet e
    → Discreet (handle_configure p from e)
unfolding handle_configure apply_config
configure-Discreet p from e h = grind (arith, sent)

pub add_cards-out :
    (env : Env) (author : Str) (words : List Str) (e : Engine)
    → (add_cards env author words e).out ≡ e.out
unfolding add_cards add_card
add_cards-out env author [] e = refl
add_cards-out env author (raw ∷ words) e = add_cards-out env author words _ ∙ ground arith

words-Discreet :
    (env : Env) (words : List Str) (from : Str) (e : Engine)
    → Discreet e
    → Discreet (handle_submit_words env words from e)
unfolding handle_submit_words accept_words
words-Discreet env words from e h = grind (arith, sent, add_cards-out)

start_game-Discreet : (from : Str) (e : Engine) → Discreet e → Discreet (handle_start_game from e)
unfolding handle_start_game
start_game-Discreet from e h = grind (arith, sent, told)

stroke-Discreet :
    (points : List Point) (from : Str) (e : Engine)
    → Discreet e
    → Discreet (handle_submit_stroke points from e)
unfolding handle_submit_stroke
stroke-Discreet points from e h = grind (arith, sent, told)

vote-Discreet :
    (suspect from : Str) (e : Engine) → Discreet e → Discreet (handle_cast_vote suspect from e)
unfolding handle_cast_vote
vote-Discreet suspect from e h = grind (arith, sent)

guess-Discreet :
    (env : Env) (guess from : Str) (e : Engine)
    → Discreet e
    → Discreet (handle_fake_guess env guess from e)
unfolding handle_fake_guess finalize_round
guess-Discreet env guess from e h = grind (arith, sent)

tell_roles-Discreet :
    (fake word : Str) (ids : List Str) (e : Engine)
    → Discreet e
    → Discreet (tell_roles fake word ids e)
unfolding tell_roles
tell_roles-Discreet fake word [] e h = h
tell_roles-Discreet fake word (pid ∷ ids) e h =
    tell_roles-Discreet fake word ids _ (told e.out _ (ground arith) h)

module _ (env : Env) where
  prepare_round-Discreet : (e : Engine) → Discreet e → Discreet (prepare_round env e).1
  unfolding prepare_round deal
  prepare_round-Discreet e h = grind (arith, tell_roles-Discreet)

  request_draw-Discreet : (from : Str) (e : Engine) → Discreet e → Discreet (request_draw from e)
  unfolding request_draw
  request_draw-Discreet from e h = grind (arith, told)

  start_first_round-Discreet :
      (from : Str) (e : Engine) → Discreet e → Discreet (start_first_round env from e)
  unfolding start_first_round
  start_first_round-Discreet from e h =
      grind (arith, sent, told, request_draw-Discreet from e h, prepare_round-Discreet e h)

  start_round-Discreet :
      (from : Str) (e : Engine) → Discreet e → Discreet (handle_start_round env from e)
  unfolding handle_start_round
  start_round-Discreet from e h = grind (arith, sent, start_first_round-Discreet)

  pub archive-out : (e : Engine) → (archive_current_round e).out ≡ e.out
  unfolding archive_current_round
  archive-out e = ground arith

  advance-Discreet : (from : Str) (e : Engine) → Discreet e → Discreet (advance env from e)
  unfolding advance
  advance-Discreet from e h =
      let a = archive_current_round e in
      let ah : Discreet a = rw archive-out h in
      grind (arith, sent, ah, request_draw-Discreet from a ah, prepare_round-Discreet a ah)

  next_round-Discreet :
      (from : Str) (e : Engine) → Discreet e → Discreet (handle_next_round env from e)
  unfolding handle_next_round
  next_round-Discreet from e h = grind (arith, advance-Discreet)

end_game-Discreet :
    (env : Env) (from : Str) (e : Engine) → Discreet e → Discreet (handle_end_game from e)
unfolding handle_end_game end_now
end_game-Discreet env from e h = grind (arith, sent, archive-out env e)

-- No command makes the engine broadcast a secret, or tell the fake the word.
pub dispatch-Discreet :
    (env : Env) (c : ClientCommand) (from : Str) (e : Engine)
    → All IsDiscreet e.out
    → All IsDiscreet (dispatch env c from e).out
unfolding dispatch
dispatch-Discreet env (join_game p) from e h = join-Discreet env p from e h
dispatch-Discreet env (configure_game p) from e h = configure-Discreet p from e h
dispatch-Discreet env (submit_words words) from e h = words-Discreet env words from e h
dispatch-Discreet env start_game from e h = start_game-Discreet from e h
dispatch-Discreet env start_round from e h = start_round-Discreet env from e h
dispatch-Discreet env (submit_stroke points) from e h = stroke-Discreet points from e h
dispatch-Discreet env (cast_vote suspect) from e h = vote-Discreet suspect from e h
dispatch-Discreet env (submit_fake_guess guess) from e h = guess-Discreet env guess from e h
dispatch-Discreet env next_round from e h = next_round-Discreet env from e h
dispatch-Discreet env end_game from e h = end_game-Discreet env from e h

-- The server's documented answer: a fake is assigned no word.
abbrev pub IsFairAnswer : DrawResult → Type 0
IsFairAnswer (failed message) = Unit
IsFairAnswer (drawn res) =
    All (λ (a : Str × Assignment). a.1.is_fake ≡ true → a.1.word ≡ none) (or_none res.assignments)

tell_host-Discreet :
    (from id : Str) (l : List (Str × Assignment)) (e : Engine)
    → All (λ (a : Str × Assignment). a.1.is_fake ≡ true → a.1.word ≡ none) l
    → Discreet e
    → Discreet (tell_host from (assignment_of id l) e)
unfolding tell_host assignment_of
tell_host-Discreet from id [] e f h = h
tell_host-Discreet from id ((pid, a) ∷ l) e f h = elim (Bool-cases (pid == id)) [
  | inl t ↦
      rw (t, assignment_of)
        (told e.out
          (direct from (ServerEvent.your_role (record { is_fake = a.is_fake; word = a.word }))) f.0
          h)
  | inr t ↦ rw (t, assignment_of) (tell_host-Discreet from id l e f.1 h)
]

pub finish_draw-Discreet :
    (env : Env) (req : PendingDraw) (res : DrawResult) (e : Engine)
    → IsFairAnswer res
    → All IsDiscreet e.out
    → All IsDiscreet (finish_draw env req res e).out
unfolding finish_draw
finish_draw-Discreet env req (failed message) e f h = told e.out _ tt h
finish_draw-Discreet env req (drawn res) e f h =
    sent _ _ (tell_host-Discreet req.from req.from (or_none res.assignments) _ f h)

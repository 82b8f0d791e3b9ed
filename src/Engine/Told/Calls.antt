-- ===== src/Engine/Told/Calls.antt =====
-- frontend/p2p/engine.ts: the roles that the handlers of `dispatch` tell.
use fakeartist.Prelude.{ℕ, List, Bool, true, false, Str, arith, length, if◌then◌else◌, codes}
use fakeartist.Models.{Point}
use fakeartist.Protocol.{
  ℤ, ConfigPatch, ClientCommand, join_game, configure_game, submit_words, start_game, start_round,
  submit_stroke, cast_vote, submit_fake_guess, next_round, end_game,
}
use fakeartist.Engine.State.{Env, Engine, emit_error, broadcast_state}
use fakeartist.Engine.Roster.{apply_config, handle_configure, accept_words, handle_submit_words}
use fakeartist.Engine.Round.{
  prepare_round, archive_current_round, request_draw, finalize_round, check_game_over, finish_game,
}
use fakeartist.Engine.Play.{handle_submit_stroke, handle_cast_vote, handle_fake_guess}
use fakeartist.Engine.Dispatch.{
  handle_start_game, start_first_round, handle_start_round, advance, handle_next_round, end_now,
  handle_end_game, dispatch,
}
use fakeartist.Engine.Dispatch.{all_submitted}
use fakeartist.Engine.Round.{is_game_over}
use fakeartist.Engine.Secrecy.{add_cards-out, archive-out}
use fakeartist.Engine.Told.{
  Told, nothing-New, IsQuiet, Quiet, Quiet-Told, said, broadcast_state-Told, broadcast_state-Quiet,
  emit_error-Quiet, emit_error-Told,
}
use fakeartist.Engine.Told.Roles.{join-Told, prepare_round-Told}

configure-Quiet :
    (n : ℕ) (p : ConfigPatch ℤ) (from : Str) (e : Engine)
    → Quiet n e
    → Quiet n (handle_configure p from e)
unfolding handle_configure apply_config
configure-Quiet n p from e h = grind (arith, said)

words-Quiet :
    (n : ℕ) (env : Env) (words : List Str) (from : Str) (e : Engine)
    → Quiet n e
    → Quiet n (handle_submit_words env words from e)
unfolding handle_submit_words accept_words
words-Quiet n env words from e h = grind (arith, said, add_cards-out)

start_game-Quiet :
    (n : ℕ) (from : Str) (e : Engine) → Quiet n e → Quiet n (handle_start_game from e)
unfolding handle_start_game
start_game-Quiet n from e h = grind (arith, said)

stroke-Quiet :
    (n : ℕ) (points : List Point) (from : Str) (e : Engine)
    → Quiet n e
    → Quiet n (handle_submit_stroke points from e)
unfolding handle_submit_stroke
stroke-Quiet n points from e h = grind (arith, said)

vote-Quiet :
    (n : ℕ) (suspect from : Str) (e : Engine)
    → Quiet n e
    → Quiet n (handle_cast_vote suspect from e)
unfolding handle_cast_vote
vote-Quiet n suspect from e h = grind (arith, said)

guess-Quiet :
    (n : ℕ) (env : Env) (guess from : Str) (e : Engine)
    → Quiet n e
    → Quiet n (handle_fake_guess env guess from e)
unfolding handle_fake_guess finalize_round
guess-Quiet n env guess from e h = grind (arith, said)

end_game-Quiet :
    (n : ℕ) (env : Env) (from : Str) (e : Engine) → Quiet n e → Quiet n (handle_end_game from e)
unfolding handle_end_game end_now
end_game-Quiet n env from e h = grind (arith, said, archive-out env e)

module _ (env : Env) where
  request_draw-Quiet : (n : ℕ) (from : Str) (e : Engine) → Quiet n e → Quiet n (request_draw from e)
  unfolding request_draw
  request_draw-Quiet n from e h = grind (arith, said)

  start_first_round-Told :
      (n : ℕ) (from : Str) (e : Engine) → Quiet n e → Told n (start_first_round env from e)
  unfolding start_first_round
  start_first_round-Told n from e h = go (all_submitted e) e.has_drawer (prepare_round env e).0
    where
      prepared : Engine
      prepared = (prepare_round env e).1

      waiting : Engine
      waiting = emit_error from (codes "Waiting for all players to submit words") e

      failing : Engine
      failing = emit_error from (codes "Cannot start round") prepared

      go :
          (a d f : Bool)
          → Told n (
              if a
              then if d
                then request_draw from e
                else if f
                then broadcast_state prepared
                else failing
              else waiting)
      go false d f =
          Quiet-Told n waiting
            (emit_error-Quiet n from (codes "Waiting for all players to submit words") e h)
      go true true f = Quiet-Told n (request_draw from e) (request_draw-Quiet n from e h)
      go true false true = broadcast_state-Told n prepared (prepare_round-Told env n e h)
      go true false false =
          emit_error-Told n from (codes "Cannot start round") prepared
            (prepare_round-Told env n e h)

  start_round-Told :
      (n : ℕ) (from : Str) (e : Engine) → Quiet n e → Told n (handle_start_round env from e)
  unfolding handle_start_round
  start_round-Told n from e h =
      grind (arith, said, Quiet-Told, broadcast_state-Quiet, start_first_round-Told)

  check_game_over-Quiet : (n : ℕ) (e : Engine) → Quiet n e → Quiet n (check_game_over e).1
  unfolding check_game_over finish_game
  check_game_over-Quiet n e h = go (is_game_over e.state)
    where
      go :
          (b : Bool)
          → Quiet n (if◌then◌else◌ {A = Bool × Engine} b (true, finish_game e) (false, e)).1
      go true = h
      go false = h

  advance-Told : (n : ℕ) (from : Str) (e : Engine) → Quiet n e → Told n (advance env from e)
  unfolding advance
  advance-Told n from e h =
      go (check_game_over a).0 (check_game_over a).1 (check_game_over-Quiet n a (rw archive-out h))
    where
      a : Engine
      a = archive_current_round e

      go :
          (over : Bool) (c : Engine)
          → Quiet n c
          → Told n (
              if over
              then broadcast_state c
              else if c.has_drawer
              then request_draw from c
              else broadcast_state (prepare_round env c).1)
      go true c q = broadcast_state-Told n c (Quiet-Told n c q)
      go false c q = next c.has_drawer
        where
          next :
              (d : Bool)
              → Told n (if d then request_draw from c else broadcast_state (prepare_round env c).1)
          next true = Quiet-Told n (request_draw from c) (request_draw-Quiet n from c q)
          next false = broadcast_state-Told n (prepare_round env c).1 (prepare_round-Told env n c q)

  next_round-Told :
      (n : ℕ) (from : Str) (e : Engine) → Quiet n e → Told n (handle_next_round env from e)
  unfolding handle_next_round
  next_round-Told n from e h = grind (arith, advance-Told, Quiet-Told)

-- The roles that a command makes the engine tell are those of the round that it leaves.
pub dispatch-Told :
    (env : Env) (c : ClientCommand) (from : Str) (e : Engine)
    → Told (length e.out) (dispatch env c from e)
unfolding dispatch
dispatch-Told env (join_game p) from e =
    join-Told (length e.out) env p from e (nothing-New IsQuiet e.out)
dispatch-Told env (configure_game p) from e =
    Quiet-Told (length e.out) (handle_configure p from e)
      (configure-Quiet (length e.out) p from e (nothing-New IsQuiet e.out))
dispatch-Told env (submit_words words) from e =
    Quiet-Told (length e.out) (handle_submit_words env words from e)
      (words-Quiet (length e.out) env words from e (nothing-New IsQuiet e.out))
dispatch-Told env start_game from e =
    Quiet-Told (length e.out) (handle_start_game from e)
      (start_game-Quiet (length e.out) from e (nothing-New IsQuiet e.out))
dispatch-Told env start_round from e =
    start_round-Told env (length e.out) from e (nothing-New IsQuiet e.out)
dispatch-Told env (submit_stroke points) from e =
    Quiet-Told (length e.out) (handle_submit_stroke points from e)
      (stroke-Quiet (length e.out) points from e (nothing-New IsQuiet e.out))
dispatch-Told env (cast_vote suspect) from e =
    Quiet-Told (length e.out) (handle_cast_vote suspect from e)
      (vote-Quiet (length e.out) suspect from e (nothing-New IsQuiet e.out))
dispatch-Told env (submit_fake_guess guess) from e =
    Quiet-Told (length e.out) (handle_fake_guess env guess from e)
      (guess-Quiet (length e.out) env guess from e (nothing-New IsQuiet e.out))
dispatch-Told env next_round from e =
    next_round-Told env (length e.out) from e (nothing-New IsQuiet e.out)
dispatch-Told env end_game from e =
    Quiet-Told (length e.out) (handle_end_game from e)
      (end_game-Quiet (length e.out) env from e (nothing-New IsQuiet e.out))

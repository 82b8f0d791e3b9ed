-- ===== src/Engine/Dispatch.antt =====
-- frontend/p2p/engine.ts: the host's handlers, and `dispatch`.
use fakeartist.Prelude.{◌++◌, Bool, Str, codes, decimal, length, ltb, every_is, if◌then◌else◌}
use fakeartist.Models.{lobby, writing, round_announce, drawing, round_summary, game_over, Player}
use fakeartist.Protocol.{
  ClientCommand, join_game, configure_game, submit_words, start_game, start_round, submit_stroke,
  cast_vote, submit_fake_guess, next_round, end_game,
}
use fakeartist.Engine.State.{Env, Engine, emit_error, broadcast_state, set_status, require_host}
use fakeartist.Engine.Roster.{handle_join, handle_configure, handle_submit_words}
use fakeartist.Engine.Round.{
  prepare_round, request_draw, archive_current_round, check_game_over, assign_winner,
}
use fakeartist.Engine.Play.{handle_submit_stroke, handle_cast_vote, handle_fake_guess}

unfoldable pub all_submitted : Engine → Bool
all_submitted e = every_is (λ (p : Player). p.has_submitted) e.state.players

unfoldable pub handle_start_game : Str → Engine → Engine
unfolding require_host emit_error set_status broadcast_state
handle_start_game from e =
    if require_host from e
    then elim e.state.status [
      | lobby ↦
          if ltb (length e.state.players) e.state.config.min_players
          then emit_error from
              (codes "Need at least " ++ decimal e.state.config.min_players ++ codes " players") e
          else broadcast_state (set_status writing e)
      | _ ↦ e
    ]
    else e

module _ (env : Env) where
  unfoldable pub start_first_round : Str → Engine → Engine
  unfolding emit_error broadcast_state
  start_first_round from e =
      if all_submitted e
      then if e.has_drawer
        then request_draw from e
        else (let (done, prepared) = prepare_round env e in
            if done
            then broadcast_state prepared
            else emit_error from (codes "Cannot start round") prepared)
      else emit_error from (codes "Waiting for all players to submit words") e

  unfoldable pub handle_start_round : Str → Engine → Engine
  unfolding require_host start_first_round set_status broadcast_state
  handle_start_round from e =
      if require_host from e
      then elim e.state.status [
        | writing ↦ start_first_round from e
        | round_announce ↦ broadcast_state (set_status drawing e)
        | _ ↦ e
      ]
      else e

  -- `handleNextRound` behind its guards. Prepared or not, the state is sent.
  unfoldable pub advance : Str → Engine → Engine
  unfolding check_game_over broadcast_state
  advance from e =
      let (over, checked) = check_game_over (archive_current_round e) in
      if over
      then broadcast_state checked
      else if checked.has_drawer
      then request_draw from checked
      else broadcast_state (prepare_round env checked).1

  unfoldable pub handle_next_round : Str → Engine → Engine
  unfolding require_host advance
  handle_next_round from e =
      if require_host from e
      then elim e.state.status [ round_summary ↦ advance from e | _ ↦ e ]
      else e

unfoldable pub end_now : Engine → Engine
unfolding set_status assign_winner broadcast_state
end_now e =
    let archived : Engine = elim e.state.status [
      | round_summary ↦ archive_current_round e
      | _ ↦ e
    ] in
    broadcast_state (assign_winner (set_status game_over archived))

unfoldable pub handle_end_game : Str → Engine → Engine
unfolding require_host
handle_end_game from e = if require_host from e then end_now e else e

unfoldable pub dispatch : Env → ClientCommand → Str → Engine → Engine
dispatch env (join_game p) from e = handle_join env p from e
dispatch env (configure_game p) from e = handle_configure p from e
dispatch env (submit_words words) from e = handle_submit_words env words from e
dispatch env start_game from e = handle_start_game from e
dispatch env start_round from e = handle_start_round env from e
dispatch env (submit_stroke points) from e = handle_submit_stroke points from e
dispatch env (cast_vote suspect) from e = handle_cast_vote suspect from e
dispatch env (submit_fake_guess guess) from e = handle_fake_guess env guess from e
dispatch env next_round from e = handle_next_round env from e
dispatch env end_game from e = handle_end_game from e

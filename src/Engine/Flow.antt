-- ===== src/Engine/Flow.antt =====
-- frontend/p2p/engine.ts, `dispatch`: how the status moves, and at whose command.
use fakeartist.Prelude.{List, Str, ◌≡◌, refl, ◌≢◌, ap, ◌⊎◌, arith}
use fakeartist.Models.{
  GameStatus, lobby, writing, round_announce, drawing, voting, fake_guessing, round_summary,
  game_over, WordCard, Point,
}
use fakeartist.Protocol.{
  ℤ, ConfigPatch, JoinGamePayload, ClientCommand, join_game, configure_game, submit_words,
  start_game, start_round, submit_stroke, cast_vote, submit_fake_guess, next_round, end_game,
}
use fakeartist.Engine.State.{Env, Engine, emit_error}
use fakeartist.Engine.Roster.{
  handle_join, handle_configure, handle_submit_words, enroll, reconnect_player, accept_words,
  apply_config,
}
use fakeartist.Engine.Round.{deal, prepare_round, archive_current_round, finalize_round}
use fakeartist.Engine.Play.{handle_submit_stroke, handle_cast_vote, handle_fake_guess}
use fakeartist.Engine.Frame.{welcome-state, tell_roles-state, request_draw-state, add_cards-kept}
use fakeartist.Engine.Dispatch.{
  handle_start_game, start_first_round, handle_start_round, advance, handle_next_round, end_now,
  handle_end_game, dispatch,
}

-- The edges that the play itself takes, whoever sends the command.
pub data PlayEdge (s t : GameStatus) : Type 0 where
  all_drawn : s ≡ drawing → t ≡ voting → PlayEdge s t
  fake_caught : s ≡ voting → t ≡ fake_guessing → PlayEdge s t
  fake_missed : s ≡ voting → t ≡ round_summary → PlayEdge s t
  guess_made : s ≡ fake_guessing → t ≡ round_summary → PlayEdge s t

-- The edges that only the host can take.
pub data HostEdge (s t : GameStatus) : Type 0 where
  words_asked : s ≡ lobby → t ≡ writing → HostEdge s t
  first_round : s ≡ writing → t ≡ round_announce → HostEdge s t
  round_begun : s ≡ round_announce → t ≡ drawing → HostEdge s t
  another_round : s ≡ round_summary → t ≡ round_announce → HostEdge s t
  ended : t ≡ game_over → HostEdge s t

-- What a command of `from` may do to the status.
pub data Move (from : Str) (e f : Engine) : Type 0 where
  stay : f.state.status ≡ e.state.status → Move from e f
  play : PlayEdge e.state.status f.state.status → Move from e f
  lead : from ≡ e.state.host_id → HostEdge e.state.status f.state.status → Move from e f

pub ruleset moves = (
  stay, play, lead, all_drawn, fake_caught, fake_missed, guess_made, words_asked, first_round,
  round_begun, another_round, ended,
)

stroke-Move :
    (points : List Point) (from : Str) (e : Engine)
    → Move from e (handle_submit_stroke points from e)
unfolding handle_submit_stroke
stroke-Move points from e = grind (arith, moves)

vote-Move : (suspect from : Str) (e : Engine) → Move from e (handle_cast_vote suspect from e)
unfolding handle_cast_vote
vote-Move suspect from e = grind (arith, moves)

guess-Move :
    (env : Env) (guess from : Str) (e : Engine) → Move from e (handle_fake_guess env guess from e)
unfolding handle_fake_guess finalize_round
guess-Move env guess from e = grind (arith, moves)

enroll-status :
    (env : Env) (wanted name : Str) (e : Engine)
    → (enroll env wanted name e).state.status ≡ e.state.status
unfolding enroll
enroll-status env wanted name e = refl

join-Move :
    (env : Env) (p : JoinGamePayload) (from : Str) (e : Engine)
    → Move from e (handle_join env p from e)
unfolding handle_join emit_error reconnect_player
join-Move env p from e = grind (arith, moves, welcome-state, enroll-status)

configure-Move :
    (p : ConfigPatch ℤ) (from : Str) (e : Engine) → Move from e (handle_configure p from e)
unfolding handle_configure apply_config
configure-Move p from e = grind (arith, moves)

words-Move :
    (env : Env) (words : List Str) (from : Str) (e : Engine)
    → Move from e (handle_submit_words env words from e)
unfolding handle_submit_words accept_words
words-Move env words from e = grind (arith, moves, add_cards-kept)

start_game-Move : (from : Str) (e : Engine) → Move from e (handle_start_game from e)
unfolding handle_start_game
start_game-Move from e = grind (arith, moves)

-- What `prepareRound` makes of the status.
pub deal-status :
    (env : Env) (first : WordCard) (rest : List WordCard) (e : Engine)
    → (deal env first rest e).state.status ≡ round_announce
unfolding deal
deal-status env first rest e = ap (λ s. s.status) (tell_roles-state _ _ _ _)

prepare_round-status :
    (env : Env) (e : Engine)
    → ((prepare_round env e).1.state.status ≡ e.state.status)
      ⊎ ((prepare_round env e).1.state.status ≡ round_announce)
      ⊎ ((prepare_round env e).1.state.status ≡ game_over)
unfolding prepare_round
prepare_round-status env e = grind (arith, deal-status)

start_first_round-status :
    (env : Env) (from : Str) (e : Engine)
    → ((start_first_round env from e).state.status ≡ e.state.status)
      ⊎ ((start_first_round env from e).state.status ≡ round_announce)
      ⊎ ((start_first_round env from e).state.status ≡ game_over)
unfolding start_first_round
start_first_round-status env from e =
    ground (arith, request_draw-state from e, prepare_round-status env e)

start_round-Move :
    (env : Env) (from : Str) (e : Engine) → Move from e (handle_start_round env from e)
unfolding handle_start_round
start_round-Move env from e = grind (arith, moves, start_first_round-status env from e)

pub archive-status : (e : Engine) → (archive_current_round e).state.status ≡ e.state.status
unfolding archive_current_round
archive-status e = ground arith

advance-status :
    (env : Env) (from : Str) (e : Engine)
    → ((advance env from e).state.status ≡ e.state.status)
      ⊎ ((advance env from e).state.status ≡ round_announce)
      ⊎ ((advance env from e).state.status ≡ game_over)
unfolding advance
advance-status env from e = ground (
  arith,
  archive-status e,
  request_draw-state from (archive_current_round e),
  prepare_round-status env (archive_current_round e),
)

next_round-Move : (env : Env) (from : Str) (e : Engine) → Move from e (handle_next_round env from e)
unfolding handle_next_round
next_round-Move env from e = grind (arith, moves, advance-status env from e)

end_game-Move : (from : Str) (e : Engine) → Move from e (handle_end_game from e)
unfolding handle_end_game end_now
end_game-Move from e = grind (arith, moves)

-- Every command leaves the status alone, or takes it along an edge of the play, or is the host's
-- and takes it along an edge of the host.
pub dispatch-Move :
    (env : Env) (c : ClientCommand) (from : Str) (e : Engine) → Move from e (dispatch env c from e)
unfolding dispatch
dispatch-Move env (join_game p) from e = join-Move env p from e
dispatch-Move env (configure_game p) from e = configure-Move p from e
dispatch-Move env (submit_words words) from e = words-Move env words from e
dispatch-Move env start_game from e = start_game-Move from e
dispatch-Move env start_round from e = start_round-Move env from e
dispatch-Move env (submit_stroke points) from e = stroke-Move points from e
dispatch-Move env (cast_vote suspect) from e = vote-Move suspect from e
dispatch-Move env (submit_fake_guess guess) from e = guess-Move env guess from e
dispatch-Move env next_round from e = next_round-Move env from e
dispatch-Move env end_game from e = end_game-Move from e

-- The commands that only the host may give.
pub data IsHostCommand : ClientCommand → Type 0 where
  configuring : {p : ConfigPatch ℤ} → IsHostCommand (configure_game p)
  starting : IsHostCommand start_game
  beginning : IsHostCommand start_round
  advancing : IsHostCommand next_round
  ending : IsHostCommand end_game

-- From anyone but the host the commands to configure, start the game, start a round, go on and
-- end the game change nothing and send nothing.
pub dispatch_not_host :
    (env : Env) {c : ClientCommand} (from : Str) (e : Engine)
    → IsHostCommand c
    → from ≢ e.state.host_id
    → dispatch env c from e ≡ e
unfolding dispatch handle_configure handle_start_game handle_start_round handle_next_round
    handle_end_game
dispatch_not_host env from e (configuring) h = ground arith
dispatch_not_host env from e starting h = ground arith
dispatch_not_host env from e beginning h = ground arith
dispatch_not_host env from e advancing h = ground arith
dispatch_not_host env from e ending h = ground arith

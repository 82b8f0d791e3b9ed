-- ===== src/Tests/Game.antt =====
-- frontend/p2p/engine.ts: a game of two players.
use fakeartist.Engine.Rounds.{Ends, play_all-Ends}
use fakeartist.Prelude.{
  ◌≡◌, ◌≢◌, refl, ◌↔◌, [], ◌∷◌, true, false, none, some, codes, All, arith, ap, sym, get_or,
}
use fakeartist.Models.{lobby, round_summary}
use fakeartist.Protocol.{submit_words, start_game, start_round, submit_stroke, end_game, next_round}
use fakeartist.Engine.State.{drawn, new_engine}
use fakeartist.Engine.Tally.{tally_votes}
use fakeartist.Engine.Tally.Plurality.{tally_votes-HasPlurality, HasPlurality}
use fakeartist.Engine.Tally.Scores.{round_scores-award, points, award}
use fakeartist.Engine.Round.{round_scores, finish_draw, prepare_round}
use fakeartist.Engine.Flow.{Move, dispatch-Move}
use fakeartist.Engine.Secrecy.{IsDiscreet}
use fakeartist.Engine.Told.Draw.{KeepsSecrets, Reach-KeepsSecrets}
use fakeartist.Prelude.{length}
use fakeartist.Engine.Invariant.{IsValid, Unique}
use fakeartist.Engine.Invariant.Run.{
  Reach, here, next, command, answer, Reach-IsValid, new_engine-IsValid,
}
use fakeartist.Engine.Draws.{IsDealt, prepare_round-IsDealt}
use fakeartist.Engine.Undone.{draw_for, IsUndone, finish_draw-IsUndone}
use fakeartist.Engine.Round.{is_game_over}
use fakeartist.Engine.Verdict.{Decides, handle_cast_vote-Decides}
use fakeartist.Engine.State.{Engine, find_player}
use fakeartist.Engine.Play.{handle_cast_vote}
use fakeartist.Engine.Invariant.{RoundOk}
use fakeartist.Prelude.{str_discrete, ℕ_discrete}
use fakeartist.Protocol.{JoinGamePayload}
use fakeartist.Models.{Round, voting}
use fakeartist.Tests.Data.{stroke_of}
use fakeartist.Tests.Data.{
  plain_env, plain_env-IsRandom, ann, bob, two_players, empty_engine, join, after, in_writing,
  with_words, announced, in_drawing, line, pending_draw, draw_response, round_with, player_with,
  table,
}

empty_engine-IsValid : IsValid empty_engine.state
unfolding new_engine
empty_engine-IsValid = new_engine-IsValid (codes "r") two_players false (omega arith) (omega arith)

pub empty_engine-out : All IsDiscreet empty_engine.out
unfolding new_engine
empty_engine-out = tt

bob_is_not_ann : bob ≢ ann
bob_is_not_ann h = let e : 98 ≡ 97 = ap (λ s. get_or s 0 0) h in omega (arith, e)

-- The game until the drawing, with a draw that is answered in between.
pub with_words-Reach : Reach plain_env empty_engine with_words
with_words-Reach =
    next
      (next
        (next (next (next here (command (join ann) ann refl)) (command (join bob) bob refl))
          (command start_game ann refl))
        (command (submit_words (codes "cat" ∷ [])) ann refl))
      (command (submit_words (codes "sun" ∷ [])) bob refl)

pub in_drawing-Reach : Reach plain_env empty_engine (after (submit_stroke line) ann in_drawing)
in_drawing-Reach =
    next
      (next (next with_words-Reach (command start_round ann refl)) (command start_round ann refl))
      (command (submit_stroke line) ann refl)

answered-Reach :
    Reach plain_env in_writing
      (after start_round ann (finish_draw plain_env pending_draw (drawn draw_response) in_writing))
answered-Reach =
    next
      (next here (
        answer pending_draw (drawn draw_response) ((bob_is_not_ann, tt), (tt, tt)) (omega arith)
          (λ h. refl, ((λ h. cc), tt))))
      (command start_round ann refl)

Reach-IsValid_example : IsValid (after (submit_stroke line) ann in_drawing).state
Reach-IsValid_example =
    Reach-IsValid plain_env plain_env-IsRandom empty_engine-IsValid in_drawing-Reach

-- The first round is prepared, and both players are told their roles.
Reach-KeepsSecrets_example : KeepsSecrets (length with_words.out) announced
Reach-KeepsSecrets_example =
    Reach-KeepsSecrets empty_engine-out with_words-Reach (command start_round ann refl) tt

-- Both vote, and both for the fake.
tally_votes-HasPlurality_example :
    ((tally_votes (round_with [] ((ann, ann) ∷ (bob, ann) ∷ []))).caught ≡ true)
    ↔ HasPlurality ann (ann ∷ ann ∷ [])
tally_votes-HasPlurality_example =
    tally_votes-HasPlurality (round_with [] ((ann, ann) ∷ (bob, ann) ∷ [])) ann refl (λ h. cc)

dispatch-Move_example : Move ann (table lobby none) (after start_game ann (table lobby none))
dispatch-Move_example = dispatch-Move plain_env start_game ann (table lobby none)

two_ids : Unique (ann ∷ bob ∷ [])
two_ids = ((bob_is_not_ann, tt), (tt, tt))

round_scores-award_example :
    round_scores true false (round_with [] []) (player_with ann 1 ∷ player_with bob 3 ∷ [])
    ≡ award (points true false (round_with [] [])) (player_with ann 1 ∷ player_with bob 3 ∷ [])
round_scores-award_example =
    round_scores-award true false (round_with [] []) (player_with ann 1 ∷ player_with bob 3 ∷ [])
      two_ids

prepare_round-IsDealt_example :
    ((prepare_round plain_env (table round_summary (some (round_with [] [])))).0 ≡ true)
    × IsDealt
        (table round_summary (some (round_with [] [])))
        (prepare_round plain_env (table round_summary (some (round_with [] [])))).1
unfolding new_engine
prepare_round-IsDealt_example =
    prepare_round-IsDealt plain_env plain_env-IsRandom
      (table round_summary (some (round_with [] []))) (omega arith) (omega arith) (λ h. cc)

-- A game that asks the server for its draws.
abbrev drawer_table : Engine
drawer_table = record (table round_summary (some (round_with [] []))) { has_drawer = true }

finish_draw-IsUndone_example :
    let asked = after next_round ann drawer_table in
    let ended = after end_game ann asked in
    IsUndone draw_response drawer_table asked ended
      (finish_draw plain_env (draw_for drawer_table) (drawn draw_response) ended)
unfolding new_engine is_game_over
finish_draw-IsUndone_example =
    finish_draw-IsUndone plain_env draw_response drawer_table refl refl refl refl

-- Both strokes are drawn and ann has voted.
abbrev in_voting : Round
in_voting = round_with (stroke_of ann ∷ stroke_of bob ∷ []) ((ann, ann) ∷ [])

in_voting-RoundOk : RoundOk in_voting
unfolding str_discrete ℕ_discrete
in_voting-RoundOk = record {
  strokes_counted = refl;
  votes_counted = refl;
  one_vote_each = (tt, tt);
  ballots = ((refl, refl), tt);
  one_turn_each = two_ids;
  some_artist = omega arith;
}

voting-IsValid : IsValid (table voting (some in_voting)).state
unfolding new_engine
voting-IsValid = record {
  ids = two_ids;
  some_stroke = omega arith;
  some_player = omega arith;
  phase = (in_voting-RoundOk, refl, omega arith);
}

handle_cast_vote-Decides_example :
    Decides ann
      (ann ∷ ann ∷ [])
      (handle_cast_vote ann bob (table voting (some in_voting))).state.status
unfolding str_discrete ℕ_discrete
handle_cast_vote-Decides_example =
    handle_cast_vote-Decides ann bob ann (table voting (some in_voting)) in_voting voting-IsValid
      refl refl refl refl refl ((λ h. bob_is_not_ann (sym h)), tt) refl

abbrev bob_again : JoinGamePayload
bob_again = record { id = bob; player_name = codes "Bob"; room_code = none }

bob_found : find_player bob (table voting (some in_voting)) ≡ some (player_with bob 3)
unfolding find_player str_discrete ℕ_discrete
bob_found = refl

play_all-Ends_example :
    Ends plain_env plain_env-IsRandom
      ((ann, next_round) ∷ (ann, start_round) ∷ [])
      (table round_summary (some (round_with [] [])))
unfolding new_engine
play_all-Ends_example =
    play_all-Ends plain_env plain_env-IsRandom ((ann, next_round) ∷ (ann, start_round) ∷ [])
      (table round_summary (some (round_with [] []))) ((λ e. cc), (λ e. cc)) refl (tt, tt)

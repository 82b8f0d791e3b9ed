-- ===== src/Tests/Views.antt =====
-- frontend/components: the pages at a game of two players.
use fakeartist.Prelude.{
  ◌≡◌, ◌≢◌, refl, [], ◌∷◌, true, false, none, some, codes, All, str_discrete, ℕ_discrete, trim,
}
use fakeartist.Prelude.Sort.{sort_by}
use fakeartist.Models.{Player, lobby, voting, game_over}
use fakeartist.Protocol.{submit_words, cast_vote, submit_fake_guess}
use fakeartist.Sanitize.{sanitize}
use fakeartist.Engine.State.{new_engine}
use fakeartist.Engine.Play.{handle_cast_vote}
use fakeartist.Engine.Round.{assign_winner}
use fakeartist.Views.{
  page_of, home, ballot, can_start, joining_name, words_command, can_start_round, choices,
  vote_command, guess_command, scoreboard, vote_rows, leader, visible_strokes,
}
use fakeartist.Views.Scores.{assign_winner-scoreboard}
use fakeartist.Views.Buttons.{Holds, choices-Holds}
use fakeartist.Tests.Data.{ann, bob, player_with, stroke_of, table, round_with}

page_of_lem : page_of false (some (table voting none).state) ≡ ballot
unfolding page_of
page_of_lem = refl

home_lem : page_of true (some (table voting none).state) ≡ home
unfolding page_of
home_lem = refl

-- Two players are needed, and two are there.
can_start_lem : can_start (table lobby none).state (some ann) ≡ true
unfolding can_start str_discrete ℕ_discrete new_engine
can_start_lem = refl

can_start_other : can_start (table lobby none).state (some bob) ≡ false
unfolding can_start str_discrete ℕ_discrete new_engine
can_start_other = refl

can_start_round_lem : can_start_round (table lobby none).state (some ann) ≡ true
unfolding can_start_round str_discrete ℕ_discrete
can_start_round_lem = refl

joining_name_lem : joining_name (codes " ") ≡ none
unfolding joining_name trim
joining_name_lem = refl

words_command_lem :
    words_command (codes " cat" ∷ codes "  " ∷ []) ≡ some (submit_words (codes "cat" ∷ []))
unfolding words_command trim
words_command_lem = refl

no_words : words_command (codes " " ∷ []) ≡ none
unfolding words_command trim
no_words = refl

vote_command_lem : vote_command (some ann) ≡ some (cast_vote ann)
unfolding vote_command
vote_command_lem = refl

guess_command_lem : guess_command (codes " sun ") ≡ some (submit_fake_guess (codes "sun"))
unfolding guess_command trim
guess_command_lem = refl

choices_lem : choices (table voting (some (round_with [] []))).state (some ann) ≡ bob ∷ []
unfolding choices str_discrete ℕ_discrete
choices_lem = refl

abbrev cat : Player
cat = player_with (codes "cat") 3

-- Equal scores keep the order of the players.
scoreboard_lem :
    scoreboard (player_with ann 1 ∷ player_with bob 3 ∷ cat ∷ [])
    ≡ player_with bob 3 ∷ cat ∷ player_with ann 1 ∷ []
unfolding scoreboard sort_by
scoreboard_lem = refl

vote_rows_lem :
    vote_rows (player_with ann 1 ∷ player_with bob 3 ∷ []) (some ((ann, bob) ∷ [])) (ann ∷ bob ∷ [])
    ≡ (player_with ann 1, some (player_with bob 3)) ∷ (player_with bob 3, none) ∷ []
unfolding vote_rows str_discrete ℕ_discrete
vote_rows_lem = refl

visible_strokes_lem :
    visible_strokes (stroke_of ann ∷ record (stroke_of bob) { points = [] } ∷ [])
    ≡ stroke_of ann ∷ []
unfolding visible_strokes
visible_strokes_lem = refl

assign_winner-scoreboard_example :
    ((assign_winner (table game_over none)).state.winner ≡ some (player_with bob 3))
    × (leader (sanitize (assign_winner (table game_over none)).state) ≡ some (player_with bob 3))
unfolding scoreboard sort_by
assign_winner-scoreboard_example = assign_winner-scoreboard (table game_over none)

choices-Holds_example :
    let e = table voting (some (round_with [] [])) in
    All
      (λ c. (c ≢ ann) × Holds ann c (handle_cast_vote c ann e))
      (choices (sanitize e.state) (some ann))
    × Holds ann ann (handle_cast_vote ann ann e)
unfolding str_discrete ℕ_discrete
choices-Holds_example =
    choices-Holds (table voting (some (round_with [] []))) ann (round_with [] []) refl refl refl

-- ===== src/Views.antt =====
-- frontend/components: what the pages show of the replica's snapshot, and which commands their
-- buttons and forms send. `me` is `myPlayerId`, `none` before the join. A disabled button sends nothing.
pub mod Scores
pub mod Buttons
use fakeartist.Prelude.{
  List, [], ◌∷◌, map, Bool, true, not, ◌&&◌, Option, none, some, Str, is_empty, trim, leb, ltb,
  length, get_elem?, find_if, some_is, every_is, keep_if, if◌then◌else◌, ◌==◌, false,
}
use fakeartist.Prelude.Sort.{sort_by}
use fakeartist.Models.{
  GameStatus, lobby, writing, round_announce, drawing, voting, fake_guessing, round_summary,
  game_over, Player, Round, Stroke, Votes, GameState, fake_won, RoundOutcome,
}
use fakeartist.Engine.State.{is_id}
use fakeartist.Protocol.{ClientCommand, submit_words, cast_vote, submit_fake_guess}

pub data Page : Type 0 where
  home lobby_page word_input announcement canvas ballot fake_guess summary game_end : Page

-- The provider's choice. `idle` is its mode.
unfoldable pub page_of : Bool → Option GameState → Page
page_of idle none = home
page_of true (some s) = home
page_of false (some s) = elim s.status [
  | lobby ↦ lobby_page
  | writing ↦ word_input
  | round_announce ↦ announcement
  | drawing ↦ canvas
  | voting ↦ ballot
  | fake_guessing ↦ fake_guess
  | round_summary ↦ summary
  | game_over ↦ game_end
]

unfoldable pub player_by_id : List Player → Str → Option Player
player_by_id players id = find_if (λ p. p.id == id) players

-- Lobby.jsx: an empty host is nobody.
unfoldable pub lobby_is_admin : GameState → Option Str → Bool
lobby_is_admin s me = not (is_empty s.host_id) && is_id me s.host_id

unfoldable pub can_start : GameState → Option Str → Bool
unfolding lobby_is_admin
can_start s me = lobby_is_admin s me && not (ltb (length s.players) s.config.min_players)

-- The name goes out as it was typed.
unfoldable pub joining_name : Str → Option Str
joining_name name = if is_empty (trim name) then none else some name

-- WordInput.jsx
unfoldable pub cleaned_words : List Str → List Str
cleaned_words words = keep_if (λ w. not (is_empty w)) (map trim words)

unfoldable pub words_command : List Str → Option ClientCommand
unfolding cleaned_words
words_command words = elim (cleaned_words words) [
  | [] ↦ none
  | w ∷ ws ↦ some (submit_words (w ∷ ws))
]

unfoldable pub can_start_round : GameState → Option Str → Bool
can_start_round s me = is_id me s.host_id && every_is (λ (p : Player). p.has_submitted) s.players

-- Voting.jsx: the names one can pick.
unfoldable pub choices : GameState → Option Str → List Str
unfolding player_by_id
choices s me = elim s.current_round [
  | none ↦ []
  | some r ↦
      keep_if (λ pid. not (is_id me pid) && some_is (λ (p : Player). p.id == pid) s.players)
        r.turn_order
]

unfoldable pub vote_command : Option Str → Option ClientCommand
vote_command none = none
vote_command (some picked) = if is_empty picked then none else some (cast_vote picked)

-- FakeGuess.jsx
unfoldable pub guess_command : Str → Option ClientCommand
guess_command guess = if is_empty (trim guess) then none else some (submit_fake_guess (trim guess))

-- RoundSummary.jsx and GameOver.jsx: `sort((a, b) => b.score - a.score)`.
unfoldable pub scoreboard : List Player → List Player
scoreboard players = sort_by (λ (a b : Player). leb b.score a.score) players

unfoldable pub vote_of : Option Votes → Str → Option Str
vote_of none pid = none
vote_of (some []) pid = none
vote_of (some ((voter, suspect) ∷ vs)) pid =
    let rest = vote_of (some vs) pid in if voter == pid then some suspect else rest

-- A row of the votes: the voter, and the suspect when there is one.
unfoldable pub vote_row : List Player → Option Votes → Player → Option Player
unfolding player_by_id vote_of
vote_row players votes p = elim (vote_of votes p.id) [
  | none ↦ none
  | some suspect ↦ player_by_id players suspect
]

unfoldable pub vote_rows : List Player → Option Votes → List Str → List (Player × Option Player)
unfolding player_by_id vote_row
vote_rows players votes [] = []
vote_rows players votes (pid ∷ order) =
    let rest = vote_rows players votes order in
    elim (player_by_id players pid) [ none ↦ rest | some p ↦ (p, vote_row players votes p) ∷ rest ]

-- GameOver.jsx: `gameState?.winner || sorted[0]`.
unfoldable pub leader : GameState → Option Player
unfolding scoreboard
leader s = elim s.winner [ none ↦ get_elem? (scoreboard s.players) 0 | some w ↦ some w ]

-- exportPng.ts and StrokeViewer.jsx: a stroke of fewer than two points is not drawn.
unfoldable pub visible_strokes : List Stroke → List Stroke
visible_strokes strokes = keep_if (λ (s : Stroke). not (ltb (length s.points) 2)) strokes

-- ===== src/Engine/Invariant.antt =====
-- frontend/p2p/engine.ts: what holds of the game's state between two commands.
pub mod Ids
pub mod Strokes
pub mod Voting
pub mod Roster
pub mod Draws
pub mod Run
use fakeartist.Prelude.{
  ℕ, zero, suc, ◌+◌, ◌*◌, ◌≤◌, ◌<◌, List, [], ◌∷◌, ◌++◌, map, Bool, true, false, not, Option, none,
  some, Str, ◌≡◌, ◌≢◌, refl, ap, sym, ◌∙◌, subst, subst₂, arith, length, length-append, includes,
  All, ◌==◌, leb, ltb, Bool-cases, Option-cases, inl, inr, ◌⊎◌, update_first, if◌then◌else◌,
  str_discrete, codes,
}
use fakeartist.Models.{
  GameStatus, lobby, writing, round_announce, drawing, voting, fake_guessing, round_summary,
  game_over, GameConfig, Player, Votes, Round, GameState, Point, Stroke, WordCard, fake_won,
  artists_won,
}
use fakeartist.Engine.State.{Env, Engine, broadcast_state, emit, set_status, emit_error, is_id}
use fakeartist.Engine.Round.{player_ids}
use fakeartist.Engine.Tally.{tally_votes}
use fakeartist.Engine.Play.{or_no_votes}

-- `x` is not among the strings.
abbrev pub Fresh : Str → List Str → Type 0
Fresh x [] = Unit
Fresh x (y ∷ ys) = (y ≢ x) × Fresh x ys

abbrev pub Unique : List Str → Type 0
Unique [] = Unit
Unique (x ∷ xs) = Fresh x xs × Unique xs

-- Voter and suspect of a vote take part in the round.
abbrev pub IsBallot : List Str → Str × Str → Type 0
IsBallot order (voter, suspect) = (includes order voter ≡ true) × (includes order suspect ≡ true)

abbrev pub voters : Votes → List Str
voters = map (λ v. v.0)

pub record RoundOk (r : Round) : Type 0 where
  pub strokes_counted : r.stroke_index ≡ length r.strokes
  pub votes_counted : r.votes_cast ≡ length (or_no_votes r.votes)
  pub one_vote_each : Unique (voters (or_no_votes r.votes))
  pub ballots : All (IsBallot r.turn_order) (or_no_votes r.votes)
  pub one_turn_each : Unique r.turn_order
  pub some_artist : 0 < length r.turn_order

-- What each status says of the round.
abbrev pub Phase : GameConfig → GameStatus → Option Round → Type 0
Phase c lobby o = o ≡ none
Phase c writing o = o ≡ none
Phase c round_announce none = ⊥
Phase c round_announce (some r) = RoundOk r × (r.stroke_index ≡ 0) × (r.votes_cast ≡ 0)
Phase c drawing none = ⊥
Phase c drawing (some r) =
    RoundOk r × (r.stroke_index < c.strokes_per_artist * length r.turn_order) × (r.votes_cast ≡ 0)
Phase c voting none = ⊥
Phase c voting (some r) =
    RoundOk r
    × (r.stroke_index ≡ c.strokes_per_artist * length r.turn_order)
    × (r.votes_cast < length r.turn_order)
Phase c fake_guessing none = ⊥
Phase c fake_guessing (some r) =
    RoundOk r
    × (r.stroke_index ≡ c.strokes_per_artist * length r.turn_order)
    × (r.votes_cast ≡ length r.turn_order)
    × ((tally_votes r).caught ≡ true)
Phase c round_summary none = ⊥
Phase c round_summary (some r) =
    RoundOk r
    × (r.stroke_index ≡ c.strokes_per_artist * length r.turn_order)
    × (r.votes_cast ≡ length r.turn_order)
Phase c game_over o = Unit

pub record IsValid (s : GameState) : Type 0 where
  pub ids : Unique (player_ids s.players)
  pub some_stroke : 0 < s.config.strokes_per_artist
  pub some_player : 0 < s.config.min_players
  pub phase : Phase s.config s.status s.current_round

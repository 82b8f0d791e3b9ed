-- ===== src/Engine/Play.antt =====
-- frontend/p2p/engine.ts: the handlers of strokes, votes and the guess.
use fakeartist.Prelude.{
  ℕ, ◌+◌, ◌*◌, ◌%◌, List, [], ◌∷◌, ◌++◌, Bool, true, false, not, ◌&&◌, Option, none, some, Str,
  codes, ◌==◌, length, leb, get_or, includes, is_empty, trim, if◌then◌else◌,
}
use fakeartist.Models.{
  drawing, voting, fake_guessing, GameConfig, Player, Point, Stroke, Votes, Round,
}
use fakeartist.Protocol.{ServerEvent}
use fakeartist.Engine.State.{
  Env, Engine, emit_broadcast, emit_error, broadcast_state, set_status, set_round, find_player,
  is_id, or_empty,
}
use fakeartist.Engine.Tally.{tally_votes}
use fakeartist.Engine.Round.{finalize_round}

unfoldable pub total_strokes_needed : GameConfig → Round → ℕ
total_strokes_needed c r = c.strokes_per_artist * length r.turn_order

unfoldable pub current_turn_player_id : Round → Str
current_turn_player_id r = get_or r.turn_order (r.stroke_index % length r.turn_order) []

abbrev pub two_points : List Point → Bool
two_points [] = false
two_points (p ∷ []) = false
two_points (p ∷ q ∷ ps) = true

unfoldable pub add_stroke : Player → List Point → Round → Engine → Engine
unfolding set_round set_status emit_broadcast broadcast_state
add_stroke player points r e =
    let stroke : Stroke = record { player_id = player.id; color = player.color; points = points } in
    let grown = record r {
      strokes = r.strokes ++ stroke ∷ [];
      stroke_index = r.stroke_index + 1;
    } in
    let sent =
      emit_broadcast (ServerEvent.stroke_added stroke grown.stroke_index) (set_round grown e) in
    broadcast_state (
      if leb (total_strokes_needed e.state.config grown) grown.stroke_index
      then set_status voting sent
      else sent)

unfoldable pub handle_submit_stroke : List Point → Str → Engine → Engine
unfolding emit_error add_stroke
handle_submit_stroke points from e = elim e.state.status [
  | drawing ↦ elim e.state.current_round [
    | none ↦ e
    | some r ↦
        if from == current_turn_player_id r
        then if two_points points
          then elim (find_player from e) [ none ↦ e | some p ↦ add_stroke p points r e ]
          else e
        else emit_error from (codes "Not your turn") e
  ]
  | _ ↦ e
]

-- `r.votes[from] = suspect`
unfoldable pub set_vote : Str → Str → Votes → Votes
set_vote from suspect [] = (from, suspect) ∷ []
set_vote from suspect ((v, s) ∷ vs) =
    if v == from then (v, suspect) ∷ vs else (v, s) ∷ set_vote from suspect vs

abbrev pub or_no_votes : Option Votes → Votes
or_no_votes none = []
or_no_votes (some vs) = vs

unfoldable pub with_vote : Str → Str → Round → Round
unfolding set_vote
with_vote from suspect r =
    let votes = set_vote from suspect (or_no_votes r.votes) in
    record r { votes = some votes; votes_cast = length votes }

-- The last vote ends the voting.
unfoldable pub close_voting : Round → Engine → Engine
unfolding set_status finalize_round
close_voting r e =
    if (tally_votes r).caught then set_status fake_guessing e else finalize_round r false false e

-- A vote that the guards let through.
unfoldable pub record_vote : Str → Str → Round → Engine → Engine
unfolding with_vote set_round close_voting broadcast_state
record_vote suspect from r e =
    let voted = with_vote from suspect r in
    let next = set_round voted e in
    broadcast_state
      (if leb (length voted.turn_order) voted.votes_cast then close_voting voted next else next)

unfoldable pub handle_cast_vote : Str → Str → Engine → Engine
unfolding record_vote
handle_cast_vote suspect from e = elim e.state.status [
  | voting ↦ elim e.state.current_round [
    | none ↦ e
    | some r ↦
        if includes r.turn_order from && includes r.turn_order suspect
        then record_vote suspect from r e
        else e
  ]
  | _ ↦ e
]

module _ (env : Env) where
  unfoldable pub is_right : Str → Option Str → Bool
  is_right guess word =
      let guess' = env.to_lower_case (trim guess) in
      not (is_empty guess') && guess' == env.to_lower_case (trim (or_empty word))

  unfoldable pub handle_fake_guess : Str → Str → Engine → Engine
  unfolding broadcast_state
  handle_fake_guess guess from e = elim e.state.status [
    | fake_guessing ↦ elim e.state.current_round [
      | none ↦ e
      | some r ↦
          if is_id r.fake_id from
          then broadcast_state (
              finalize_round (record r { fake_guess = some guess }) true
                (is_right guess e.private_round_word) e)
          else e
    ]
    | _ ↦ e
  ]

-- ===== src/Engine/Invariant/Voting.antt =====
-- frontend/p2p/engine.ts, `handleCastVote` and `handleFakeGuess`: they keep the state valid.
use fakeartist.Prelude.{
  ◌+◌, ◌*◌, ◌≤◌, ◌<◌, List, [], ◌∷◌, Bool, true, false, Option, some, Str, ◌≡◌, ◌≢◌, refl, ap, sym,
  ◌∙◌, subst, subst₂, arith, length, includes, All, leb, Bool-cases, inl, inr,
}
use fakeartist.Models.{voting, fake_guessing, Votes, Round, GameState, RoundOutcome}
use fakeartist.Engine.State.{Env, Engine, set_round}
use fakeartist.Engine.Tally.{tally_votes}
use fakeartist.Engine.Round.{player_ids, finalize_round}
use fakeartist.Engine.Play.{
  set_vote, or_no_votes, with_vote, record_vote, handle_cast_vote, handle_fake_guess,
}
use fakeartist.Engine.Invariant.{Fresh, Unique, IsBallot, voters, RoundOk, Phase, IsValid}
use fakeartist.Engine.Invariant.Ids.{player_ids-round_scores}

-- A vote is new, or replaces the voter's earlier one.
length-set_vote :
    (from suspect : Str) (vs : Votes)
    → (length vs ≤ length (set_vote from suspect vs))
      × (length (set_vote from suspect vs) ≤ length vs + 1)
unfolding set_vote
length-set_vote from suspect [] = (omega arith, omega arith)
length-set_vote from suspect (v ∷ vs) = ground (arith, length-set_vote from suspect vs)

Fresh-set_vote :
    (x from suspect : Str) (vs : Votes)
    → from ≢ x
    → Fresh x (voters vs)
    → Fresh x (voters (set_vote from suspect vs))
unfolding set_vote
Fresh-set_vote x from suspect [] h f = (h, tt)
Fresh-set_vote x from suspect (v ∷ vs) h f = ground (arith, Fresh-set_vote x from suspect vs)

Unique-set_vote :
    (from suspect : Str) (vs : Votes)
    → Unique (voters vs)
    → Unique (voters (set_vote from suspect vs))
unfolding set_vote
Unique-set_vote from suspect [] u = (tt, tt)
Unique-set_vote from suspect (v ∷ vs) u =
    ground (arith, Fresh-set_vote v.0 from suspect vs, Unique-set_vote from suspect vs)

ballots-set_vote :
    (order : List Str) (from suspect : Str) (vs : Votes)
    → IsBallot order (from, suspect)
    → All (IsBallot order) vs
    → All (IsBallot order) (set_vote from suspect vs)
unfolding set_vote
ballots-set_vote order from suspect [] h a = (h, tt)
ballots-set_vote order from suspect (v ∷ vs) h a =
    ground (arith, ballots-set_vote order from suspect vs)

with_vote-RoundOk :
    (from suspect : Str) (r : Round)
    → IsBallot r.turn_order (from, suspect)
    → RoundOk r
    → RoundOk (with_vote from suspect r)
unfolding with_vote
with_vote-RoundOk from suspect r h k = record {
  strokes_counted = k.strokes_counted;
  votes_counted = refl;
  one_vote_each = Unique-set_vote from suspect _ k.one_vote_each;
  ballots = ballots-set_vote r.turn_order from suspect _ h k.ballots;
  one_turn_each = k.one_turn_each;
  some_artist = k.some_artist;
}

-- A round with other results, which no part of `RoundOk` speaks of.
results-RoundOk :
    (r : Round) (g w : Option Str) (o : Option RoundOutcome)
    → RoundOk r
    → RoundOk (record r { fake_guess = g; revealed_word = w; outcome = o })
results-RoundOk r g w o k = record {
  strokes_counted = k.strokes_counted;
  votes_counted = k.votes_counted;
  one_vote_each = k.one_vote_each;
  ballots = k.ballots;
  one_turn_each = k.one_turn_each;
  some_artist = k.some_artist;
}

-- The score sheet and the summary, whatever the status was.
finalize-IsValid :
    (s : GameState) (r : Round) (caught guessed : Bool) (e : Engine)
    → IsValid s
    → s.players ≡ e.state.players
    → s.config ≡ e.state.config
    → RoundOk r
    → r.stroke_index ≡ e.state.config.strokes_per_artist * length r.turn_order
    → r.votes_cast ≡ length r.turn_order
    → IsValid (finalize_round r caught guessed e).state
unfolding finalize_round
finalize-IsValid s r caught guessed e v p c k h n = record {
  ids =
      subst Unique
        (ap player_ids p ∙ sym (player_ids-round_scores caught guessed r e.state.players)) v.ids;
  some_stroke = subst (λ z. 0 < z.strokes_per_artist) c v.some_stroke;
  some_player = subst (λ z. 0 < z.min_players) c v.some_player;
  phase = (results-RoundOk r r.fake_guess _ _ k, h, n);
}

pub at_voting :
    (s : GameState) (r : Round)
    → IsValid s
    → s.status ≡ voting
    → s.current_round ≡ some r
    → Phase s.config voting (some r)
at_voting s r v p q = subst₂ (Phase s.config) p q v.phase

record_vote-IsValid :
    (suspect from : Str) (r : Round) (e : Engine)
    → IsValid e.state
    → e.state.status ≡ voting
    → e.state.current_round ≡ some r
    → (includes r.turn_order from ≡ true)
    → (includes r.turn_order suspect ≡ true)
    → IsValid (record_vote suspect from r e).state
unfolding record_vote
record_vote-IsValid suspect from r e v h k i j =
    let now : Phase e.state.config voting (some r) = at_voting e.state r v h k in
    let voted = with_vote from suspect r in
    let ok : RoundOk voted = with_vote-RoundOk from suspect r (i, j) now.0 in
    let more = length-set_vote from suspect (or_no_votes r.votes) in
    elim (Bool-cases (leb (length voted.turn_order) voted.votes_cast)) [
      | inl t ↦
          let all : voted.votes_cast ≡ length voted.turn_order = ground arith in
          elim (Bool-cases (tally_votes voted).caught) [
            | inl c ↦
                rw (t, c)
                  (record {
                    ids = v.ids;
                    some_stroke = v.some_stroke;
                    some_player = v.some_player;
                    phase = (ok, now.1, all, c);
                  })
            | inr c ↦
                rw (t, c)
                  (finalize-IsValid e.state voted false false (set_round voted e) v refl refl ok
                    now.1 all)
          ]
      | inr t ↦ rw t (record {
        ids = v.ids;
        some_stroke = v.some_stroke;
        some_player = v.some_player;
        phase = subst (λ z. Phase e.state.config z (some voted)) (sym h) (ok, now.1, ground arith);
      })
    ]

pub vote-IsValid :
    (suspect from : Str) (e : Engine)
    → IsValid e.state
    → IsValid (handle_cast_vote suspect from e).state
unfolding handle_cast_vote
vote-IsValid suspect from e v = grind (arith, record_vote-IsValid)

record_guess-IsValid :
    (guess : Str) (right : Bool) (r : Round) (e : Engine)
    → IsValid e.state
    → e.state.status ≡ fake_guessing
    → e.state.current_round ≡ some r
    → IsValid (finalize_round (record r { fake_guess = some guess }) true right e).state
record_guess-IsValid guess right r e v h k =
    let now : Phase e.state.config fake_guessing (some r) =
      subst₂ (Phase e.state.config) h k v.phase in
    finalize-IsValid e.state _ true right e v refl refl
      (results-RoundOk r _ r.revealed_word r.outcome now.0) now.1 now.2

pub guess-IsValid :
    (env : Env) (guess from : Str) (e : Engine)
    → IsValid e.state
    → IsValid (handle_fake_guess env guess from e).state
unfolding handle_fake_guess
guess-IsValid env guess from e v = grind (arith, record_guess-IsValid)

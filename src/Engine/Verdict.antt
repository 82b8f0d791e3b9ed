-- ===== src/Engine/Verdict.antt =====
-- frontend/p2p/engine.ts, `handleCastVote`: what the last vote of a round decides.
use fakeartist.Prelude.{
  ◌+◌, List, [], ◌∷◌, ◌++◌, map, true, false, Option, none, some, Str, ◌≡◌, ◌≢◌, refl, ap, sym, ◌∙◌,
  subst₂, ◌⊎◌, inl, inr, arith, length, length-append, includes, leb, Bool-cases,
}
use mathlib.Core.List.{map-append}
use fakeartist.Models.{GameStatus, voting, fake_guessing, round_summary, Votes, Round}
use fakeartist.Engine.State.{Engine, set_round}
use fakeartist.Engine.Tally.{tally_votes, suspects}
use fakeartist.Engine.Tally.Plurality.{HasPlurality, tally_votes-HasPlurality}
use fakeartist.Engine.Play.{
  set_vote, or_no_votes, with_vote, close_voting, record_vote, handle_cast_vote,
}
use fakeartist.Engine.Invariant.{Fresh, voters, IsValid}
use fakeartist.Engine.Invariant.Voting.{at_voting}

set_vote_new :
    (from suspect : Str) (vs : Votes)
    → Fresh from (voters vs)
    → set_vote from suspect vs ≡ vs ++ (from, suspect) ∷ []
unfolding set_vote
set_vote_new from suspect [] f = refl
set_vote_new from suspect (v ∷ vs) f = grind (arith, f, set_vote_new from suspect vs f.1)

suspects-or_no_votes : (o : Option Votes) → suspects o ≡ map (λ v. v.1) (or_no_votes o)
suspects-or_no_votes none = refl
suspects-or_no_votes (some vs) = refl

-- The suspects with one more vote.
suspects-with_vote :
    (from suspect : Str) (r : Round)
    → Fresh from (voters (or_no_votes r.votes))
    → suspects (with_vote from suspect r).votes ≡ suspects r.votes ++ suspect ∷ []
unfolding with_vote
suspects-with_vote from suspect r f =
    ap (map (λ v. v.1)) (set_vote_new from suspect (or_no_votes r.votes) f)
    ∙ map-append (λ (v : Str × Str). v.1) (or_no_votes r.votes) ((from, suspect) ∷ [])
    ∙ ap (λ ss. ss ++ suspect ∷ []) (sym (suspects-or_no_votes r.votes))

snoc-nonempty : (ss : List Str) (s : Str) → ss ++ s ∷ [] ≢ []
snoc-nonempty [] s h = cc
snoc-nonempty (x ∷ ss) s h = cc

-- What the votes decide, by the number of votes that name the fake.
abbrev pub Decides : Str → List Str → GameStatus → Type 0
Decides fake ss s =
    ((s ≡ fake_guessing) × HasPlurality fake ss)
    ⊎ ((s ≡ round_summary) × (HasPlurality fake ss → ⊥))

close_voting-Decides :
    (r : Round) (fake : Str) (e : Engine)
    → r.fake_id ≡ some fake
    → suspects r.votes ≢ []
    → Decides fake (suspects r.votes) (close_voting r e).state.status
unfolding close_voting
close_voting-Decides r fake e h n =
    let t = tally_votes-HasPlurality r fake h n in
    elim (Bool-cases (tally_votes r).caught) [
      | inl c ↦ rw c (inl (refl, t.0 c))
      | inr c ↦ rw c (inr (refl, λ p. let q : false ≡ true = sym c ∙ t.1 p in cc))
    ]

-- The vote that was missing ends the voting.
last_vote :
    (suspect from : Str) (r : Round) (e : Engine)
    → e.state.status ≡ voting
    → e.state.current_round ≡ some r
    → includes r.turn_order from ≡ true
    → includes r.turn_order suspect ≡ true
    → leb (length r.turn_order) (with_vote from suspect r).votes_cast ≡ true
    → (handle_cast_vote suspect from e).state.status
      ≡ (close_voting
          (with_vote from suspect r)
          (set_round (with_vote from suspect r) e)).state.status
unfolding handle_cast_vote record_vote
last_vote suspect from r e h k i j all = ground arith

votes_cast-with_vote :
    (from suspect : Str) (r : Round)
    → Fresh from (voters (or_no_votes r.votes))
    → (with_vote from suspect r).votes_cast ≡ length (or_no_votes r.votes) + 1
unfolding with_vote
votes_cast-with_vote from suspect r f =
    ap length (set_vote_new from suspect (or_no_votes r.votes) f)
    ∙ length-append (or_no_votes r.votes) ((from, suspect) ∷ [])

fake_id-with_vote :
    (from suspect : Str) (r : Round) → (with_vote from suspect r).fake_id ≡ r.fake_id
unfolding with_vote
fake_id-with_vote from suspect r = refl

-- In a valid state in voting with a fake, the vote of a participant for a participant that is the
-- last one missing ends the voting: the fake is asked to guess if strictly more votes, this one
-- included, name the fake than any other player, and otherwise the round is over.
pub handle_cast_vote-Decides :
    (suspect from fake : Str) (e : Engine) (r : Round)
    → IsValid e.state
    → e.state.status ≡ voting
    → e.state.current_round ≡ some r
    → r.fake_id ≡ some fake
    → includes r.turn_order from ≡ true
    → includes r.turn_order suspect ≡ true
    → Fresh from (voters (or_no_votes r.votes))
    → r.votes_cast + 1 ≡ length r.turn_order
    → Decides fake (suspects r.votes ++ suspect ∷ []) (handle_cast_vote suspect from e).state.status
handle_cast_vote-Decides suspect from fake e r v h k f i j new last =
    let voted = with_vote from suspect r in
    let counted = (at_voting e.state r v h k).0.votes_counted in
    let all : leb (length r.turn_order) voted.votes_cast ≡ true =
      ground (arith, votes_cast-with_vote from suspect r new, counted, last) in
    let ss = suspects-with_vote from suspect r new in
    let d =
      close_voting-Decides voted fake (set_round voted e) (fake_id-with_vote from suspect r ∙ f)
        (λ n. snoc-nonempty (suspects r.votes) suspect (sym ss ∙ n)) in
    subst₂ (Decides fake) ss (sym (last_vote suspect from r e h k i j all)) d

-- ===== src/Engine/Tally.antt =====
-- frontend/p2p/engine.ts: `tallyVotes`, `addScore` and `assignWinner`.
pub mod Plurality
pub mod Leads
pub mod Winner
pub mod Scores
use fakeartist.Prelude.{
  ℕ, ◌+◌, List, [], ◌∷◌, Bool, true, false, Option, none, some, Str, ◌==◌, ltb, nat_eq,
  update_first, map, if◌then◌else◌,
}
use fakeartist.Models.{Player, Votes, Round}
use fakeartist.Engine.State.{is_id}

-- `Map<string, number>`, in the order of insertion.
abbrev pub Counts : Type 0
Counts = List (Str × ℕ)

-- `counts.set(suspect, (counts.get(suspect) || 0) + 1)`
unfoldable pub count_vote : Str → Counts → Counts
count_vote s [] = (s, 1) ∷ []
count_vote s ((t, n) ∷ m) = if t == s then (t, n + 1) ∷ m else (t, n) ∷ count_vote s m

unfoldable pub count_votes : List Str → Counts → Counts
unfolding count_vote
count_votes [] m = m
count_votes (s ∷ ss) m = count_votes ss (count_vote s m)

pub record Lead : Type 0 where
  pub max : ℕ
  pub winner_id : Str
  pub tied : Bool

unfoldable pub lead_step : Str → ℕ → Lead → Lead
lead_step id n l =
    if ltb l.max n
    then (record { max = n; winner_id = id; tied = false })
    else if nat_eq n l.max
    then (record l { tied = true })
    else l

unfoldable pub lead_of : Counts → Lead → Lead
unfolding lead_step
lead_of [] l = l
lead_of ((id, n) ∷ m) l = lead_of m (lead_step id n l)

abbrev pub suspects : Option Votes → List Str
suspects none = []
suspects (some vs) = map (λ v. v.1) vs

pub record Verdict : Type 0 where
  pub winner_id : Str
  pub caught : Bool

unfoldable pub tally_votes : Round → Verdict
unfolding count_votes lead_of
tally_votes r =
    let lead =
      lead_of (count_votes (suspects r.votes) [])
        (record { max = 0; winner_id = []; tied = false }) in
    if lead.tied
    then (record { winner_id = []; caught = false })
    else (record { winner_id = lead.winner_id; caught = is_id r.fake_id lead.winner_id })

unfoldable pub add_score : Str → ℕ → List Player → List Player
add_score id n ps = update_first (λ p. p.id == id) (λ p. record p { score = p.score + n }) ps

unfoldable pub better : Option Player → Player → Option Player
better none p = some p
better (some best) p = if ltb best.score p.score then some p else some best

unfoldable pub best_of : Option Player → List Player → Option Player
unfolding better
best_of best [] = best
best_of best (p ∷ ps) = best_of (better best p) ps

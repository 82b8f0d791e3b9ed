-- ===== src/Views/Scores.antt =====
-- frontend/components/GameOver.jsx against frontend/p2p/engine.ts: the scoreboard and the winner.
use fakeartist.Prelude.{
  Bool, List, [], ◌∷◌, Option, none, some, ◌≡◌, refl, arith, ltb, leb, if◌then◌else◌, get_elem?,
  ◌∙◌, sym, Bool-cases, Option-cases, inl, inr,
}
use fakeartist.Prelude.Sort.{insert_by, sort_by}
use fakeartist.Models.{Player}
use fakeartist.Sanitize.{sanitize}
use fakeartist.Engine.State.{Engine}
use fakeartist.Engine.Tally.{better, best_of}
use fakeartist.Engine.Round.{assign_winner}
use fakeartist.Views.{scoreboard, leader}

abbrev above : Player → Player → Bool
above a b = leb b.score a.score

abbrev first : List Player → Option Player
first ps = get_elem? ps 0

-- Two insertions: the first place goes to the second one only with a higher score.
first-insert_by :
    (b p : Player) (ps : List Player)
    → first (insert_by above b (insert_by above p ps))
      ≡ (if ltb b.score p.score then first (insert_by above p ps) else first (insert_by above b ps))
unfolding insert_by
first-insert_by b p [] = ground arith
first-insert_by b p (q ∷ qs) = ground arith

best_of-first :
    (b : Player) (ps : List Player)
    → best_of (some b) ps ≡ first (insert_by above b (sort_by above ps))
unfolding best_of better sort_by insert_by
best_of-first b [] = refl
best_of-first b (p ∷ ps) =
    let step = first-insert_by b p (sort_by above ps) in
    elim (Bool-cases (ltb b.score p.score)) [
      | inl t ↦ rw t (best_of-first p ps ∙ sym (rw t at step))
      | inr t ↦ rw t (best_of-first b ps ∙ sym (rw t at step))
    ]

best_of-scoreboard : (ps : List Player) → best_of none ps ≡ first (scoreboard ps)
unfolding best_of better scoreboard sort_by
best_of-scoreboard [] = refl
best_of-scoreboard (p ∷ ps) = best_of-first p ps

-- The winner that the engine names is the first row of the scoreboard that the pages sort, ties
-- and a game without players included, and the last page names the same player from the state
-- that is sent.
pub assign_winner-scoreboard :
    (e : Engine)
    → ((assign_winner e).state.winner ≡ get_elem? (scoreboard e.state.players) 0)
      × (leader (sanitize (assign_winner e).state) ≡ get_elem? (scoreboard e.state.players) 0)
unfolding assign_winner leader sanitize
assign_winner-scoreboard e =
    let best = best_of-scoreboard e.state.players in
    (
      best,
      elim (Option-cases (best_of none e.state.players)) [
        | inl n ↦ rw n refl
        | inr (w, q) ↦ rw q (sym q ∙ best)
      ],
    )

-- ===== src/Engine/Tally/Winner.antt =====
-- frontend/p2p/engine.ts, `assignWinner`: the first of the best players wins.
use fakeartist.Prelude.{
  ℕ, ◌≤◌, ◌<◌, List, [], ◌∷◌, ◌++◌, none, some, ◌≡◌, ◌≢◌, refl, ap, sym, subst, arith, All, ltb,
  Bool-cases, inl, inr, ◌⊎◌,
}
use fakeartist.Models.{Player}
use fakeartist.Prelude.{ltb→lt, ltb→le}
use fakeartist.Engine.State.{Engine}
use fakeartist.Engine.Tally.{better, best_of}
use fakeartist.Engine.Round.{assign_winner}

-- `w` stands in the list, nobody has a higher score, and everybody before has a lower one.
pub record IsFirstBest (ps : List Player) (w : Player) : Type 0 where
  pub before : List Player
  pub after : List Player
  pub split : ps ≡ before ++ w ∷ after
  pub lower : All (λ p. p.score < w.score) before
  pub highest : All (λ p. p.score ≤ w.score) ps

le-all :
    (n m : ℕ) (ps : List Player) → n ≤ m → All (λ p. p.score ≤ n) ps → All (λ p. p.score ≤ m) ps
le-all n m [] h a = tt
le-all n m (p ∷ ps) h a = (omega arith, le-all n m ps h a.1)

lt-all :
    (n m : ℕ) (ps : List Player) → n < m → All (λ p. p.score ≤ n) ps → All (λ p. p.score < m) ps
lt-all n m [] h a = tt
lt-all n m (p ∷ ps) h a = (omega arith, lt-all n m ps h a.1)

-- The loop from a best player `b` on: `b` stays, or a later player is better.
FromBest : Player → List Player → Player → Type 0
FromBest b ps w =
    ((w ≡ b) × All (λ p. p.score ≤ b.score) ps) ⊎ ((b.score < w.score) × IsFirstBest ps w)

cons-IsFirstBest :
    (p w : Player) (ps : List Player)
    → p.score < w.score
    → IsFirstBest ps w
    → IsFirstBest (p ∷ ps) w
cons-IsFirstBest p w ps h k = record {
  before = p ∷ k.before;
  after = k.after;
  split = ap (p ∷◌) k.split;
  lower = (h, k.lower);
  highest = (omega arith, k.highest);
}

head-IsFirstBest :
    (b : Player) (ps : List Player) → All (λ p. p.score ≤ b.score) ps → IsFirstBest (b ∷ ps) b
head-IsFirstBest b ps a = record {
  before = [];
  after = ps;
  split = refl;
  lower = tt;
  highest = (omega arith, a);
}

of_FromBest : (b w : Player) (ps : List Player) → FromBest b ps w → IsFirstBest (b ∷ ps) w
unfolding FromBest
of_FromBest b w ps (inl (e, a)) = subst (IsFirstBest (b ∷ ps)) (sym e) (head-IsFirstBest b ps a)
of_FromBest b w ps (inr (h, k)) = cons-IsFirstBest b w ps h k

best_of-FromBest :
    (b : Player) (ps : List Player)
    → (w : Player) × (best_of (some b) ps ≡ some w) × FromBest b ps w
unfolding best_of FromBest better
best_of-FromBest b [] = (b, refl, inl (refl, tt))
best_of-FromBest b (p ∷ ps) = elim (Bool-cases (ltb b.score p.score)) [
  | inl t ↦
      let (w, e, k) = best_of-FromBest p ps in
      let f = of_FromBest p w ps k in
      (w, rw t e, inr (omega (arith, f.highest.0, ltb→lt b.score p.score t), f))
  | inr t ↦
      let (w, e, k) = best_of-FromBest b ps in
      let low : p.score ≤ b.score = ltb→le b.score p.score t in
      (
        w,
        rw t e,
        elim k [
          | inl (q, a) ↦ inl (q, (low, a))
          | inr (h, j) ↦ inr (h, cons-IsFirstBest p w ps (omega arith) j)
        ],
      )
]

-- In a game with players the winner is one of them, nobody has a higher score, and everybody
-- before has a lower one.
pub assign_winner-IsFirstBest :
    (e : Engine)
    → e.state.players ≢ []
    → (w : Player) × ((assign_winner e).state.winner ≡ some w) × IsFirstBest e.state.players w
unfolding assign_winner
assign_winner-IsFirstBest e h = go e.state.players h
  where
    go : (ps : List Player) → ps ≢ [] → (w : Player) × (best_of none ps ≡ some w) × IsFirstBest ps w
    go [] h = absurd (h refl)
    go (p ∷ ps) h =
        let (w, q, k) = best_of-FromBest p ps in
        (w, unfold best_of better in q, of_FromBest p w ps k)

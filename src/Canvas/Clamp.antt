-- ===== src/Canvas/Clamp.antt =====
-- frontend/components/DrawCanvas.jsx: `clampScale` and `clamp01` keep numbers between their bounds.
use fakeartist.Prelude.{List, [], ◌∷◌, map, true, ◌≡◌, All, inl, inr, Bool-cases}
use fakeartist.Canvas.{
  Numbers, IsOrdered, Spot, clamp_scale, clamp01, clamp_spot, max_of, min_of, first_view,
}
use fakeartist.Canvas.Events.{InScale, InUnit}

module _ {A : Type 0} (N : Numbers A) (o : IsOrdered N) where
  self : (a : A) → N.at_most a a ≡ true
  self a = elim (Bool-cases (N.at_most a a)) [ inl t ↦ t | inr t ↦ o.total a a t ]

  -- A number between two bounds.
  abbrev Between : A → A → A → Type 0
  Between lo hi v = (N.at_most lo v ≡ true) × (N.at_most v hi ≡ true)

  max_of-Between :
      (lo hi v : A) → N.at_most lo hi ≡ true → N.at_most v hi ≡ true → Between lo hi (max_of N lo v)
  max_of-Between lo hi v h k = elim (Bool-cases (N.at_most lo v)) [
    | inl t ↦ rw t (t, k)
    | inr t ↦ rw t (self lo, h)
  ]

  min_of_below : (hi v : A) → N.at_most (min_of N hi v) hi ≡ true
  min_of_below hi v = elim (Bool-cases (N.at_most hi v)) [
    | inl t ↦ rw t (self hi)
    | inr t ↦ rw t (o.total hi v t)
  ]

  pub clamp_scale-InScale : (s : A) → InScale N (clamp_scale N s)
  unfolding clamp_scale
  clamp_scale-InScale s = max_of-Between _ _ _ o.scales (min_of_below N.max_scale s)

  clamp_spot-InUnit : (p : Spot A) → InUnit N (clamp_spot N p)
  unfolding clamp_spot clamp01
  clamp_spot-InUnit p =
      let bx = max_of-Between N.n0 N.n1 _ o.unit (min_of_below N.n1 p.x) in
      let by = max_of-Between N.n0 N.n1 _ o.unit (min_of_below N.n1 p.y) in (bx.0, bx.1, by.0, by.1)

  pub clamped-InUnit : (ps : List (Spot A)) → All (InUnit N) (map (clamp_spot N) ps)
  clamped-InUnit [] = tt
  clamped-InUnit (p ∷ ps) = (clamp_spot-InUnit p, clamped-InUnit ps)

  pub first-InScale : InScale N (first_view N).scale
  unfolding first_view
  first-InScale = (o.above_min, o.below_max)

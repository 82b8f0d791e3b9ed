-- ===== src/Prelude/Order.antt =====
-- The order of strings by their code units: a total order, in which a common prefix does not count.
use mathlib.Core.Path.{◌≡◌, refl}
use mathlib.Core.Bool.{true, false}
use mathlib.Core.List.{[], ◌∷◌, ◌++◌}
use native.Mathlib.Omega.{arith}
use fakeartist.Prelude.Text.{Str, lts}

pub lts_trans : (s t u : Str) → lts s t ≡ false → lts t u ≡ false → lts s u ≡ false
unfolding lts
lts_trans s t [] h k = refl
lts_trans [] [] (e ∷ u) h k = k
lts_trans [] (d ∷ t) (e ∷ u) h k = cc
lts_trans (c ∷ s) [] (e ∷ u) h k = cc
lts_trans (c ∷ s) (d ∷ t) (e ∷ u) h k = ground (arith, lts_trans s t u)

pub lts_asym : (s t : Str) → lts s t ≡ true → lts t s ≡ false
unfolding lts
lts_asym s [] h = cc
lts_asym [] (d ∷ t) h = refl
lts_asym (c ∷ s) (d ∷ t) h = ground (arith, lts_asym s t)

pub lts_antisym : (s t : Str) → lts s t ≡ false → lts t s ≡ false → s ≡ t
unfolding lts
lts_antisym [] [] h k = refl
lts_antisym [] (d ∷ t) h k = cc
lts_antisym (c ∷ s) [] h k = cc
lts_antisym (c ∷ s) (d ∷ t) h k = grind (arith, lts_antisym s t)

pub lts-append : (p s t : Str) → lts (p ++ s) (p ++ t) ≡ lts s t
unfolding lts
lts-append [] s t = refl
lts-append (c ∷ p) s t = ground (arith, lts-append p s t)

-- ===== src/Prelude/Members.antt =====
-- Lemmas on the tests `===`, `includes` and `filter`.
use mathlib.Core.Path.{◌≡◌, refl, sym}
use mathlib.Core.Bool.{Bool, true, false, not, ◌&&◌}
use mathlib.Core.List.{List, [], ◌∷◌}
use mathlib.Core.Logic.{◌≢◌, inl, inr}
use native.Mathlib.Omega.{arith}
use fakeartist.Prelude.Tests.{Bool-cases}
use fakeartist.Prelude.Lists.{All, keep_if}
use fakeartist.Prelude.Text.{Str, str_discrete, ◌==◌, includes}

tests_agree :
    {s t : Str} (d : Dec (s ≡ t)) (c : Dec (t ≡ s))
    → elim d [ yes _ ↦ true | no _ ↦ false ] ≡ elim c [ yes _ ↦ true | no _ ↦ false ]
tests_agree (yes p) (yes q) = refl
tests_agree (yes p) (no f) = absurd (f (sym p))
tests_agree (no f) (yes q) = absurd (f (sym q))
tests_agree (no f) (no g) = refl

pub eq_comm : (s t : Str) → (s == t) ≡ (t == s)
eq_comm s t = tests_agree (str_discrete s t) (str_discrete t s)

pub passed : {s t : Str} (d : Dec (s ≡ t)) → elim d [ yes _ ↦ true | no _ ↦ false ] ≡ true → s ≡ t
passed (yes p) h = p
passed (no f) h = cc

pub refused :
    {s t : Str} (d : Dec (s ≡ t)) (b : Bool)
    → (not (elim d [ yes _ ↦ true | no _ ↦ false ]) && b) ≡ true
    → s ≢ t
refused (yes p) b h = λ q. cc
refused (no f) b h = f

includes-weaken :
    (x : Str) (xs : List Str) (ps : List Str)
    → All (λ p. includes xs p ≡ true) ps
    → All (λ p. includes (x ∷ xs) p ≡ true) ps
includes-weaken x xs [] a = tt
includes-weaken x xs (p ∷ ps) a = (ground (arith, a.0), includes-weaken x xs ps a.1)

includes-head : (x : Str) (xs : List Str) → includes (x ∷ xs) x ≡ true
includes-head x xs = ground arith

pub includes-all : (xs : List Str) → All (λ p. includes xs p ≡ true) xs
includes-all [] = tt
includes-all (x ∷ xs) = (includes-head x xs, includes-weaken x xs xs (includes-all xs))

pub All-keep_if {ℓ κ} :
    {A : Type ℓ} (P : A → Type κ) (t : A → Bool) (xs : List A)
    → All (λ x. t x ≡ true → P x) xs
    → All P (keep_if t xs)
All-keep_if P t [] a = tt
All-keep_if P t (x ∷ xs) a = elim (Bool-cases (t x)) [
  | inl p ↦ rw p (a.0 p, All-keep_if P t xs a.1)
  | inr p ↦ rw p (All-keep_if P t xs a.1)
]

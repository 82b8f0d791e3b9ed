-- ===== src/Prelude/Sort.antt =====
-- `Array.prototype.sort`: the stable sort, which a consistent comparator determines. `le a b` stands
-- for `compare(a, b) <= 0`.
use mathlib.Core.Path.{◌≡◌, ap, subst}
use mathlib.Core.Bool.{Bool, true, false}
use mathlib.Core.List.{List, [], ◌∷◌}
use mathlib.Core.Logic.{inl, inr}
use fakeartist.Prelude.Tests.{if◌then◌else◌, Bool-cases}
use fakeartist.Prelude.Lists.{All}

module _ {ℓ} {A : Type ℓ} (le : A → A → Bool) where
  unfoldable pub insert_by : A → List A → List A
  insert_by x [] = x ∷ []
  insert_by x (y ∷ ys) = if le x y then x ∷ y ∷ ys else y ∷ insert_by x ys

  unfoldable pub sort_by : List A → List A
  unfolding insert_by
  sort_by [] = []
  sort_by (x ∷ xs) = insert_by x (sort_by xs)

  pub All-insert_by {κ} :
      (P : A → Type κ) (x : A) (ys : List A) → P x → All P ys → All P (insert_by x ys)
  unfolding insert_by
  All-insert_by P x [] p a = (p, tt)
  All-insert_by P x (y ∷ ys) p a = elim (Bool-cases (le x y)) [
    | inl t ↦ rw t (p, a)
    | inr t ↦ rw t (a.0, All-insert_by P x ys p a.1)
  ]

  -- Sorting loses nothing and makes nothing up.
  pub All-sort_by {κ} : (P : A → Type κ) (xs : List A) → All P xs → All P (sort_by xs)
  unfolding sort_by
  All-sort_by P [] a = tt
  All-sort_by P (x ∷ xs) a = All-insert_by P x (sort_by xs) a.0 (All-sort_by P xs a.1)

  insert_by-All {κ} :
      (P : A → Type κ) (x : A) (ys : List A) → All P (insert_by x ys) → P x × All P ys
  unfolding insert_by
  insert_by-All P x [] a = a
  insert_by-All P x (y ∷ ys) a = elim (Bool-cases (le x y)) [
    | inl t ↦ subst (All P) (ap (λ b. if b then x ∷ y ∷ ys else y ∷ insert_by x ys) t) a
    | inr t ↦
        let b : All P (y ∷ insert_by x ys) =
          subst (All P) (ap (λ b. if b then x ∷ y ∷ ys else y ∷ insert_by x ys) t) a in
        let rest = insert_by-All P x ys b.1 in (rest.0, (b.0, rest.1))
  ]

  pub sort_by-All {κ} : (P : A → Type κ) (xs : List A) → All P (sort_by xs) → All P xs
  unfolding sort_by
  sort_by-All P [] a = tt
  sort_by-All P (x ∷ xs) a =
      let rest = insert_by-All P x (sort_by xs) a in (rest.0, sort_by-All P xs rest.1)

  -- The head goes before all others.
  abbrev pub HeadIsLeast : List A → Type 0
  HeadIsLeast [] = Unit
  HeadIsLeast (y ∷ ys) = All (λ z. le y z ≡ true) (y ∷ ys)

  module _ (total : (a b : A) → le a b ≡ false → le b a ≡ true)
      (trans : (a b c : A) → le a b ≡ true → le b c ≡ true → le a c ≡ true) where
    self : (a : A) → le a a ≡ true
    self a = elim (Bool-cases (le a a)) [ inl t ↦ t | inr t ↦ total a a t ]

    below :
        (x y : A) (zs : List A)
        → le x y ≡ true
        → All (λ z. le y z ≡ true) zs
        → All (λ z. le x z ≡ true) zs
    below x y [] h a = tt
    below x y (z ∷ zs) h a = (trans x y z h a.0, below x y zs h a.1)

    insert_by-least : (x : A) (ys : List A) → HeadIsLeast ys → HeadIsLeast (insert_by x ys)
    unfolding insert_by
    insert_by-least x [] h = (self x, tt)
    insert_by-least x (y ∷ ys) h = elim (Bool-cases (le x y)) [
      | inl t ↦ rw t (self x, below x y (y ∷ ys) t h)
      | inr t ↦ rw t (h.0, All-insert_by (λ z. le y z ≡ true) x ys (total x y t) h.1)
    ]

    pub sort_by-least : (xs : List A) → HeadIsLeast (sort_by xs)
    unfolding sort_by
    sort_by-least [] = tt
    sort_by-least (x ∷ xs) = insert_by-least x (sort_by xs) (sort_by-least xs)

-- ===== src/Prelude/Adds.antt =====
-- Lists that grow at their end.
use mathlib.Core.Path.{◌≡◌, refl, sym, ap, subst, ◌∙◌}
use mathlib.Core.List.{List, [], ◌∷◌, ◌++◌, append-nil}
use fakeartist.Prelude.Lists.{length, drop, All, All-append}

-- The list `ps` is `os` and, behind it, items of this kind.
pub record Adds {ℓ} {A : Type ℓ} (P : A → Type 0) (os ps : List A) : Type ℓ where
  pub added : List A
  pub is : ps ≡ os ++ added
  pub all : All P added

module _ {ℓ} {A : Type ℓ} where
  append_assoc : (xs ys zs : List A) → (xs ++ ys) ++ zs ≡ xs ++ (ys ++ zs)
  append_assoc [] ys zs = refl
  append_assoc (x ∷ xs) ys zs = ap (λ l. x ∷ l) (append_assoc xs ys zs)

  pub Adds-none : (P : A → Type 0) (os : List A) → Adds P os os
  Adds-none P os = record { added = []; is = sym (append-nil os); all = tt }

  pub Adds-all : (P : A → Type 0) (os qs : List A) → All P qs → Adds P os (os ++ qs)
  Adds-all P os qs a = record { added = qs; is = refl; all = a }

  pub Adds-then : {P : A → Type 0} (os ps qs : List A) → Adds P os ps → Adds P ps qs → Adds P os qs
  Adds-then {P = P} os ps qs a b = record {
    added = a.added ++ b.added;
    is = b.is ∙ ap (λ l. l ++ b.added) a.is ∙ append_assoc os a.added b.added;
    all = All-append P a.added b.added a.all b.all;
  }

  drop_behind : (os qs : List A) → drop (length os) (os ++ qs) ≡ qs
  drop_behind [] qs = refl
  drop_behind (x ∷ xs) qs = drop_behind xs qs

  -- What was added, as the code takes it.
  pub Adds-drop : {P : A → Type 0} (os ps : List A) → Adds P os ps → All P (drop (length os) ps)
  Adds-drop {P = P} os ps a =
      subst (All P) (sym (ap (drop (length os)) a.is ∙ drop_behind os a.added)) a.all

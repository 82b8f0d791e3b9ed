-- ===== src/Engine/Random/Shuffle.antt =====
-- frontend/p2p/engine.ts: the loop that draws the order of turns permutes the players.
use fakeartist.Prelude.{
  ℕ, zero, suc, ◌+◌, ◌-◌, ◌<◌, List, [], ◌∷◌, Str, ◌≡◌, refl, ap, ◌∙◌, arith, length, length-set,
  get_or, set,
}
use fakeartist.Prelude.{hit, count}
use fakeartist.Engine.State.{Env, IsRandom}
use fakeartist.Engine.Random.{swap, shuffle_from, shuffle}

count-set :
    (x : Str) (xs : List Str) (i : ℕ) (v : Str)
    → i < length xs
    → count x (set xs i v) + hit x (get_or xs i []) ≡ count x xs + hit x v
unfolding count
count-set x [] i v h = absurd (omega arith)
count-set x (y ∷ ys) zero v h = omega arith
count-set x (y ∷ ys) (suc i) v h = omega (arith, count-set x ys i v (omega arith))

-- A copy within a list leaves the cell that was read.
get_or-set_copy :
    (xs : List Str) (i j : ℕ) → get_or (set xs i (get_or xs j [])) j [] ≡ get_or xs j []
get_or-set_copy [] i j = refl
get_or-set_copy (x ∷ xs) zero zero = refl
get_or-set_copy (x ∷ xs) zero (suc j) = refl
get_or-set_copy (x ∷ xs) (suc i) zero = refl
get_or-set_copy (x ∷ xs) (suc i) (suc j) = get_or-set_copy xs i j

count-swap :
    (x : Str) (i j : ℕ) (xs : List Str)
    → i < length xs
    → j < length xs
    → count x (swap i j xs) ≡ count x xs
unfolding swap
count-swap x i j xs h k =
    let b = get_or xs j [] in
    omega (
      arith,
      count-set x xs i b h,
      count-set x (set xs i b) j (get_or xs i []) (rw length-set k),
      ap (hit x) (get_or-set_copy xs i j),
    )

length-swap : (i j : ℕ) (xs : List Str) → length (swap i j xs) ≡ length xs
unfolding swap
length-swap i j xs = rw (length-set, length-set)

module _ (env : Env) where
  length-shuffle_from : (i k : ℕ) (xs : List Str) → length (shuffle_from env i k xs).0 ≡ length xs
  unfolding shuffle_from
  length-shuffle_from i zero xs = refl
  length-shuffle_from i (suc k) xs = length-shuffle_from (i + 1) k _ ∙ length-swap _ _ xs

  pub length-shuffle : (i : ℕ) (xs : List Str) → length (shuffle env i xs).0 ≡ length xs
  unfolding shuffle
  length-shuffle i xs = length-shuffle_from i (length xs - 1) xs

module _ (env : Env) (fair : IsRandom env) where
  count-shuffle_from :
      (x : Str) (i k : ℕ) (xs : List Str)
      → k < length xs
      → count x (shuffle_from env i k xs).0 ≡ count x xs
  unfolding shuffle_from
  count-shuffle_from x i zero xs h = refl
  count-shuffle_from x i (suc k) xs h =
      let drawn : env.random i (suc k + 1) < suc k + 1 = fair i (suc k + 1) (omega arith) in
      count-shuffle_from x (i + 1) k _ (rw length-swap (omega arith))
      ∙ count-swap x (suc k) (env.random i (suc k + 1)) xs h (omega arith)

  -- With random numbers in range, the shuffled turn order holds every id as often as the list
  -- before.
  pub count-shuffle : (x : Str) (i : ℕ) (xs : List Str) → count x (shuffle env i xs).0 ≡ count x xs
  unfolding shuffle shuffle_from
  count-shuffle x i [] = refl
  count-shuffle x i (y ∷ ys) = count-shuffle_from x i (length (y ∷ ys) - 1) (y ∷ ys) (omega arith)

-- ===== src/Engine/Random.antt =====
-- frontend/p2p/engine.ts: what the engine draws at random: digits, a colour, the order of turns.
-- `i` is the number of calls of `rng` so far; each function returns the new one beside its result.
pub mod Shuffle
use fakeartist.Prelude.{
  ℕ, zero, suc, ◌+◌, ◌-◌, List, [], ◌∷◌, ◌++◌, Bool, not, ◌&&◌, Str, codes, length, get_or, set,
  keep_if, map, includes, is_empty, hexadecimal, pad_zeros,
}
use fakeartist.Models.{Player, color_palette}
use fakeartist.Engine.State.{Env}

-- The colours of the players, without the empty ones, are taken.
unfoldable pub free_colors : List Player → List Str
free_colors ps =
    let used = keep_if (λ c. not (is_empty c)) (map (λ (p : Player). p.color) ps) in
    keep_if (λ c. not (includes used c)) color_palette

unfoldable pub swap : ℕ → ℕ → List Str → List Str
swap i j xs = set (set xs i (get_or xs j [])) j (get_or xs i [])

module _ (env : Env) where
  unfoldable pub rand_hex : ℕ → ℕ → Str × ℕ
  rand_hex i zero = ([], i)
  rand_hex i (suc n) =
      let (rest, j) = rand_hex (i + 1) n in (hexadecimal (env.random i 16) ++ rest, j)

  -- `${prefix}-${Date.now().toString(36)}-${this.randHex(4)}`
  unfoldable pub fresh_id : Str → ℕ → Str × ℕ
  unfolding rand_hex
  fresh_id prefix i =
      let (hex, j) = rand_hex i 4 in (prefix ++ codes "-" ++ env.now36 i ++ codes "-" ++ hex, j)

  unfoldable pub pick_color : List Player → ℕ → Str × ℕ
  unfolding free_colors
  pick_color ps i = elim (free_colors ps) [
    | [] ↦ (codes "#" ++ pad_zeros 6 (hexadecimal (env.random i 0xffffff)), i + 1)
    | c ∷ cs ↦ (get_or (c ∷ cs) (env.random i (length (c ∷ cs))) c, i + 1)
  ]

  -- The loop from the last position down to 1.
  unfoldable pub shuffle_from : ℕ → ℕ → List Str → List Str × ℕ
  unfolding swap
  shuffle_from i zero xs = (xs, i)
  shuffle_from i (suc k) xs = shuffle_from (i + 1) k (swap (suc k) (env.random i (suc k + 1)) xs)

  unfoldable pub shuffle : ℕ → List Str → List Str × ℕ
  unfolding shuffle_from
  shuffle i xs = shuffle_from i (length xs - 1) xs

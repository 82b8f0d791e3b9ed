-- ===== src/Crypto/Bits.antt =====
-- frontend/p2p/crypto.ts, `constantTimeEqual`: or and exclusive or find every difference.
use Prim.Native.Nat.{max, digits, bit_or, bit_xor, bit_or-bitwise, bit_xor-bitwise, differ}
use fakeartist.Prelude.{
  ℕ, zero, suc, ◌/◌, ◌%◌, ◌≤◌, [], ◌∷◌, true, ◌≡◌, ◌↔◌, refl, sym, ap, ap₂, subst, ◌∙◌, arith, Str,
  length,
}
use fakeartist.Crypto.{differences, constant_time_equal}

max-zero : (a b : ℕ) → max a b ≡ 0 → (a ≡ 0) × (b ≡ 0)
max-zero a b h = (omega (arith, h), omega (arith, h))

differ-zero : (a b : ℕ) → differ a b ≡ 0 → a ≡ b
differ-zero zero b h = sym h
differ-zero (suc a) zero h = h
differ-zero (suc a) (suc b) h = ap suc (differ-zero a b h)

differ_self : (a : ℕ) → differ a a ≡ 0
differ_self zero = refl
differ_self (suc a) = differ_self a

or_digits : (n a b : ℕ) → a ≤ n → digits (λ y. y) max n a b ≡ 0 → (a ≡ 0) × (b ≡ 0)
or_digits zero a b l h = (omega arith, h)
or_digits (suc n) zero b l h = (refl, h)
or_digits (suc n) (suc a) b l h =
    let low = max-zero (suc a % 2) (b % 2) (omega (arith, h)) in
    let high = or_digits n (suc a / 2) (b / 2) (omega arith) (omega (arith, h)) in
    (omega (arith, low.0, high.0), omega (arith, low.1, high.1))

xor_digits : (n a b : ℕ) → a ≤ n → digits (λ y. y) differ n a b ≡ 0 → a ≡ b
xor_digits zero a b l h = omega (arith, h)
xor_digits (suc n) zero b l h = sym h
xor_digits (suc n) (suc a) b l h =
    let low = differ-zero (suc a % 2) (b % 2) (omega (arith, h)) in
    let high = xor_digits n (suc a / 2) (b / 2) (omega arith) (omega (arith, h)) in
    omega (arith, low, high)

xor_same : (n a : ℕ) → a ≤ n → digits (λ y. y) differ n a a ≡ 0
xor_same zero a l = omega arith
xor_same (suc n) zero l = refl
xor_same (suc n) (suc a) l =
    omega (arith, differ_self (suc a % 2), xor_same n (suc a / 2) (omega arith))

bit_or-zero : (a b : ℕ) → bit_or a b ≡ 0 → (a ≡ 0) × (b ≡ 0)
bit_or-zero a b h = or_digits a a b (omega arith) (sym (bit_or-bitwise a b) ∙ h)

bit_or_zeros : bit_or 0 0 ≡ 0
bit_or_zeros = bit_or-bitwise 0 0

bit_xor-zero : (a b : ℕ) → bit_xor a b ≡ 0 → a ≡ b
bit_xor-zero a b h = xor_digits a a b (omega arith) (sym (bit_xor-bitwise a b) ∙ h)

bit_xor_self : (a : ℕ) → bit_xor a a ≡ 0
bit_xor_self a = bit_xor-bitwise a a ∙ xor_same a a (omega arith)

-- The loop gives 0 only where it began with 0 and met no difference.
differences-zero :
    (s t : Str) (diff : ℕ) → length s ≡ length t → differences s t diff ≡ 0 → (diff ≡ 0) × (s ≡ t)
unfolding differences
differences-zero [] [] diff l h = (h, refl)
differences-zero [] (d ∷ t) diff l h = absurd (omega (arith, l))
differences-zero (c ∷ s) [] diff l h = absurd (omega (arith, l))
differences-zero (c ∷ s) (d ∷ t) diff l h =
    let rest = differences-zero s t (bit_or diff (bit_xor c d)) (omega (arith, l)) h in
    let here = bit_or-zero diff (bit_xor c d) rest.0 in
    (here.0, ap₂ (λ x y. x ∷ y) (bit_xor-zero c d here.1) rest.1)

differences_self : (s : Str) → differences s s 0 ≡ 0
unfolding differences
differences_self [] = refl
differences_self (c ∷ s) =
    ap (differences s s) (ap (bit_or 0) (bit_xor_self c) ∙ bit_or_zeros) ∙ differences_self s

-- Texts pass exactly when they are the same.
pub constant_time_equal_iff : (a b : Str) → (constant_time_equal a b ≡ true) ↔ (a ≡ b)
unfolding constant_time_equal
constant_time_equal_iff a b = (passes, same)
  where
    passes : constant_time_equal a b ≡ true → a ≡ b
    passes h = (differences-zero a b 0 (ground (arith, h)) (ground (arith, h))).1

    same : a ≡ b → constant_time_equal a b ≡ true
    same e = subst (λ t. constant_time_equal a t ≡ true) e (ground (arith, differences_self a))

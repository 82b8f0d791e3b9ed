-- ===== src/Prelude/Text.antt =====
-- JavaScript strings, as lists of UTF-16 code units.
use Prim.Native.Nat.{ℕ, zero, suc, ◌+◌, ◌/◌, ◌%◌}
use Prim.Native.Char.{code}
use Prim.Native.String.{String}
use mathlib.Core.Path.{◌≡◌, refl}
use mathlib.Core.Bool.{Bool, true, false, ◌&&◌, ◌||◌}
use mathlib.Core.List.{List, [], ◌∷◌, reverse}
use native.Mathlib.Decide.{ℕ_discrete}
use fakeartist.Prelude.Tests.{leb, ltb, nat_eq, if◌then◌else◌}
use fakeartist.Prelude.Lists.{some_is, length}

abbrev pub Str : Type 0
Str = List ℕ

-- A literal of the source. All of them are ASCII.
abbrev pub codes : String → Str
codes String.[] = []
codes (String.◌∷◌ c s) = code c ∷ codes s

unfoldable pub str_discrete : Discrete Str
str_discrete = hlevel ℕ_discrete

-- `a === b`
infix 50 ◌==◌
abbrev pub ◌==◌ : Str → Str → Bool
a == b = elim (str_discrete a b) [ yes _ ↦ true | no _ ↦ false ]

-- `xs.includes(a)`
abbrev pub includes : List Str → Str → Bool
includes xs a = some_is (λ x. x == a) xs

-- `a < b` of strings: by UTF-16 code units.
unfoldable pub lts : Str → Str → Bool
lts s [] = false
lts [] (d ∷ t) = true
lts (c ∷ s) (d ∷ t) = if ltb c d then true else if ltb d c then false else lts s t

-- 1 if the strings are equal.
abbrev pub hit : Str → Str → ℕ
hit x y = if y == x then 1 else 0

-- How often a string occurs.
unfoldable pub count : Str → List Str → ℕ
count x [] = 0
count x (y ∷ ys) = hit x y + count x ys

-- A string is truthy unless it is empty.
abbrev pub is_empty : Str → Bool
is_empty [] = true
is_empty (c ∷ s) = false

-- `WhiteSpace` and `LineTerminator` of the language.
unfoldable pub is_space : ℕ → Bool
is_space c =
    (leb 9 c && leb c 13)
    || (leb 0x2000 c && leb c 0x200a)
    || some_is (nat_eq c)
        (0x20 ∷ 0xa0 ∷ 0x1680 ∷ 0x2028 ∷ 0x2029 ∷ 0x202f ∷ 0x205f ∷ 0x3000 ∷ 0xfeff ∷ [])

unfoldable pub trim_start : Str → Str
trim_start [] = []
trim_start (c ∷ s) = if is_space c then trim_start s else c ∷ s

unfoldable pub trim : Str → Str
unfolding trim_start is_space
trim s = reverse (trim_start (reverse (trim_start s)))

-- `n.toString(base)`, for a base up to 36. The fuel is the number itself and one more.
unfoldable pub digit : ℕ → ℕ
digit d = if ltb d 10 then 48 + d else 87 + d

unfoldable pub digits_from : ℕ → ℕ → ℕ → Str → Str
unfolding digit
digits_from zero base n acc = acc
digits_from (suc f) base n acc =
    let rest = digits_from f base (n / base) (digit (n % base) ∷ acc) in
    if ltb n base then digit n ∷ acc else rest

unfoldable pub decimal : ℕ → Str
unfolding digits_from
decimal n = digits_from (suc n) 10 n []

unfoldable pub hexadecimal : ℕ → Str
unfolding digits_from
hexadecimal n = digits_from (suc n) 16 n []

-- `s.padStart(width, "0")`
unfoldable pub pad_zeros : ℕ → Str → Str
pad_zeros zero s = s
pad_zeros (suc width) s = if ltb (length s) (suc width) then 48 ∷ pad_zeros width s else s

trim_lem : trim (codes "  a b ") ≡ codes "a b"
unfolding trim
trim_lem = refl

pad_zeros_lem : pad_zeros 6 (hexadecimal 0x1af) ≡ codes "0001af"
unfolding pad_zeros hexadecimal
pad_zeros_lem = refl

decimal_lem : decimal 1205 ≡ codes "1205"
unfolding decimal
decimal_lem = refl

str_eq_lem : (codes "ab" == codes "ab") ≡ true
unfolding str_discrete ℕ_discrete
str_eq_lem = refl

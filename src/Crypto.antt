-- ===== src/Crypto.antt =====
-- frontend/p2p/crypto.ts: the commitment to the fake. UTF-8 and SHA-256 are the browser's, and
-- parameters here; a byte array is a list of numbers.
pub mod Bits
pub mod Hex
use Prim.Native.Nat.{bit_or, bit_xor}
use fakeartist.Prelude.{
  ℕ, zero, suc, ◌+◌, ◌-◌, ◌*◌, ◌/◌, ◌%◌, List, [], ◌∷◌, ◌++◌, Bool, true, false, ◌&&◌, ◌||◌, Option,
  none, some, Str, leb, nat_eq, length, hexadecimal, pad_zeros, trim_start, if◌then◌else◌,
}

-- The value of a hexadecimal digit.
unfoldable pub hex_value : ℕ → Option ℕ
hex_value c =
    if leb 48 c && leb c 57
    then some (c - 48)
    else if leb 97 c && leb c 102
    then some (c - 87)
    else if leb 65 c && leb c 70
    then some (c - 55)
    else none

-- `parseInt(s, 16)` reads the digits at the front; a text without one is no number, and an array of
-- bytes takes that for 0.
unfoldable pub leading_value : ℕ → Str → ℕ
unfolding hex_value
leading_value acc [] = acc
leading_value acc (c ∷ s) =
    let rest = λ (d : ℕ). leading_value (acc * 16 + d) s in
    elim (hex_value c) [ none ↦ acc | some d ↦ rest d ]

-- `0x` is allowed in front.
unfoldable pub after_prefix : Str → Str
after_prefix [] = []
after_prefix (c ∷ []) = c ∷ []
after_prefix (c ∷ d ∷ s) = if nat_eq c 48 && (nat_eq d 120 || nat_eq d 88) then s else c ∷ d ∷ s

-- A number as it is stored in an array of bytes.
unfoldable pub signed_byte : Str → ℕ
unfolding leading_value after_prefix
signed_byte [] = 0
signed_byte (c ∷ s) =
    if nat_eq c 45
    then (256 - leading_value 0 (after_prefix s) % 256) % 256
    else if nat_eq c 43
    then leading_value 0 (after_prefix s) % 256
    else leading_value 0 (after_prefix (c ∷ s)) % 256

unfoldable pub parse_byte : Str → ℕ
unfolding signed_byte
parse_byte s = signed_byte (trim_start s)

-- A digit without a partner at the end is left out.
unfoldable pub hex_to_bytes : Str → List ℕ
unfolding parse_byte
hex_to_bytes [] = []
hex_to_bytes (c ∷ []) = []
hex_to_bytes (c ∷ d ∷ s) = parse_byte (c ∷ d ∷ []) ∷ hex_to_bytes s

unfoldable pub byte_to_hex : ℕ → Str
byte_to_hex b = pad_zeros 2 (hexadecimal b)

unfoldable pub bytes_to_hex : List ℕ → Str
unfolding byte_to_hex
bytes_to_hex [] = []
bytes_to_hex (b ∷ bs) = byte_to_hex b ++ bytes_to_hex bs

-- The loop over two texts of one length. Code units have 16 bits, so that no sign comes in.
unfoldable pub differences : Str → Str → ℕ → ℕ
differences (c ∷ s) (d ∷ t) diff = differences s t (bit_or diff (bit_xor c d))
differences _ _ diff = diff

unfoldable pub constant_time_equal : Str → Str → Bool
unfolding differences
constant_time_equal a b =
    if nat_eq (length a) (length b) then nat_eq (differences a b 0) 0 else false

module _ (utf8 : Str → List ℕ) (sha256 : List ℕ → List ℕ) where
  unfoldable pub compute_commitment : Str → Str → Str
  unfolding bytes_to_hex hex_to_bytes
  compute_commitment fake_id nonce_hex =
      bytes_to_hex (sha256 (utf8 fake_id ++ hex_to_bytes nonce_hex))

  unfoldable pub verify_commitment : Str → Str → Str → Bool
  unfolding compute_commitment constant_time_equal
  verify_commitment fake_id nonce_hex expected =
      constant_time_equal (compute_commitment fake_id nonce_hex) expected

-- ===== src/Crypto/Hex.antt =====
-- frontend/p2p/crypto.ts: bytes as hexadecimal digits and back.
use fakeartist.Prelude.{
  ℕ, zero, suc, ◌+◌, ◌*◌, ◌/◌, ◌%◌, ◌<◌, List, [], ◌∷◌, ◌++◌, Bool, true, false, some, ◌≡◌, ◌↔◌,
  refl, sym, ap, ap₂, ◌∙◌, arith, Str, ltb, hexadecimal, pad_zeros, digits_from, digit, trim_start,
  is_space, All, inl, inr, Bool-cases, ltb→lt, if◌then◌else◌,
}
use fakeartist.Crypto.{
  hex_value, leading_value, after_prefix, signed_byte, parse_byte, hex_to_bytes, byte_to_hex,
  bytes_to_hex, compute_commitment, verify_commitment,
}
use fakeartist.Crypto.Bits.{constant_time_equal_iff}

-- A number that a byte holds.
abbrev pub IsByte : ℕ → Type 0
IsByte b = b < 256

hex_value-digit : (d : ℕ) → d < 16 → hex_value (digit d) ≡ some d
unfolding hex_value digit
hex_value-digit d h = ground arith

quotient : (b : ℕ) → IsByte b → ltb (b / 16) 16 ≡ true
quotient b h = ground (arith, h)

-- The second step of the recursion is the last.
last_step : (f n : ℕ) (acc : Str) → ltb n 16 ≡ true → digits_from (suc f) 16 n acc ≡ digit n ∷ acc
unfolding digits_from
last_step f n acc h = rw h refl

small : (b : ℕ) → ltb b 16 ≡ true → byte_to_hex b ≡ 48 ∷ digit b ∷ []
unfolding byte_to_hex hexadecimal pad_zeros
small b h = ap (pad_zeros 2) (last_step b b [] h)

large : (b : ℕ) → IsByte b → ltb b 16 ≡ false → byte_to_hex b ≡ digit (b / 16) ∷ digit (b % 16) ∷ []
unfolding byte_to_hex hexadecimal pad_zeros digits_from
large zero k h = cc
large (suc b) k h =
    ap
      (λ (small : Bool). pad_zeros 2 (
        if small
        then digit (suc b) ∷ []
        else digits_from (suc b) 16 (suc b / 16) (digit (suc b % 16) ∷ [])))
      h
    ∙ ap (pad_zeros 2) (last_step b (suc b / 16) (digit (suc b % 16) ∷ []) (quotient (suc b) k))

quotient_zero : (b : ℕ) → b < 16 → b / 16 ≡ 0
quotient_zero b h = omega (arith, h)

rest_same : (b : ℕ) → b < 16 → b % 16 ≡ b
rest_same b h = omega (arith, h)

two_digits : (b : ℕ) → IsByte b → byte_to_hex b ≡ digit (b / 16) ∷ digit (b % 16) ∷ []
unfolding digit
two_digits b k = elim (Bool-cases (ltb b 16)) [
  | inl h ↦
      small b h
      ∙ ap₂ (λ x y. digit x ∷ digit y ∷ []) (sym (quotient_zero b (ltb→lt b 16 h)))
          (sym (rest_same b (ltb→lt b 16 h)))
  | inr h ↦ large b k h
]

is_space-digit : (d : ℕ) → d < 16 → is_space (digit d) ≡ false
unfolding is_space digit
is_space-digit d h = ground arith

parse_byte-digits : (h l : ℕ) → h < 16 → l < 16 → parse_byte (digit h ∷ digit l ∷ []) ≡ h * 16 + l
unfolding parse_byte trim_start signed_byte after_prefix leading_value digit
parse_byte-digits h l p q =
    ground (arith, hex_value-digit h p, hex_value-digit l q, is_space-digit h p)

byte-back : (b : ℕ) → IsByte b → parse_byte (digit (b / 16) ∷ digit (b % 16) ∷ []) ≡ b
byte-back b k =
    parse_byte-digits (b / 16) (b % 16) (omega (arith, k)) (omega arith) ∙ omega (arith, k)

-- Bytes that are written in hexadecimal digits are read back.
pub hex_to_bytes-bytes_to_hex : (bs : List ℕ) → All IsByte bs → hex_to_bytes (bytes_to_hex bs) ≡ bs
unfolding hex_to_bytes bytes_to_hex
hex_to_bytes-bytes_to_hex [] k = refl
hex_to_bytes-bytes_to_hex (b ∷ bs) k =
    ap (λ s. hex_to_bytes (s ++ bytes_to_hex bs)) (two_digits b k.0)
    ∙ ap₂ (λ c cs. c ∷ cs) (byte-back b k.0) (hex_to_bytes-bytes_to_hex bs k.1)

bytes_to_hex-injective :
    (bs cs : List ℕ) → All IsByte bs → All IsByte cs → bytes_to_hex bs ≡ bytes_to_hex cs → bs ≡ cs
bytes_to_hex-injective bs cs k l e =
    sym (hex_to_bytes-bytes_to_hex bs k) ∙ ap hex_to_bytes e ∙ hex_to_bytes-bytes_to_hex cs l

-- SHA-256 and UTF-8, of which the code needs that a digest is made of bytes.
module _ (utf8 : Str → List ℕ) (sha256 : List ℕ → List ℕ)
    (digest-IsByte : (bs : List ℕ) → All IsByte (sha256 bs)) where
  -- For a digest function that returns bytes, and bytes as the nonce and as the commitment that
  -- is expected, both written in hexadecimal digits, the check accepts exactly when the
  -- commitment is the digest of the fake's id followed by the nonce.
  pub verify_commitment_iff :
      (id : Str) (nonce expected : List ℕ)
      → All IsByte nonce
      → All IsByte expected
      → (verify_commitment utf8 sha256 id (bytes_to_hex nonce) (bytes_to_hex expected) ≡ true)
        ↔ (expected ≡ sha256 (utf8 id ++ nonce))
  unfolding verify_commitment compute_commitment
  verify_commitment_iff id nonce expected k l = (accepted, accepts)
    where
      read : sha256 (utf8 id ++ hex_to_bytes (bytes_to_hex nonce)) ≡ sha256 (utf8 id ++ nonce)
      read = ap (λ n. sha256 (utf8 id ++ n)) (hex_to_bytes-bytes_to_hex nonce k)

      accepted :
          verify_commitment utf8 sha256 id (bytes_to_hex nonce) (bytes_to_hex expected) ≡ true
          → expected ≡ sha256 (utf8 id ++ nonce)
      accepted h =
          bytes_to_hex-injective expected (sha256 (utf8 id ++ nonce)) l
            (digest-IsByte (utf8 id ++ nonce))
            (sym ((constant_time_equal_iff _ (bytes_to_hex expected)).0 h) ∙ ap bytes_to_hex read)

      accepts :
          expected ≡ sha256 (utf8 id ++ nonce)
          → verify_commitment utf8 sha256 id (bytes_to_hex nonce) (bytes_to_hex expected) ≡ true
      accepts e =
          (constant_time_equal_iff _ (bytes_to_hex expected)).1 (ap bytes_to_hex (read ∙ sym e))

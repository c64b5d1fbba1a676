-- ===== src/Encoding/Hex.antt =====
-- src/encoding/hex.h: bytes as pairs of hexadecimal digits. A character is the number of its byte.
use Prim.Native.Nat.{bit_and, bit_or}
use ceema.Prelude.{
  ℕ, zero, suc, ◌*◌, ◌/◌, ◌%◌, ◌<◌, ◌≡◌, refl, Bool, true, false, not, ◌||◌, List, [], ◌∷◌, ◌++◌,
  ltb, ◌==◌, length, replicate, All, arith, Result, ok, err, runtime_error, out_of_bounds, every,
  every_holds, throw_if, ◌>>=◌, ◌>>◌,
}
use ceema.Types.Bytes.{IsByte}

-- The element at an index of a table; the index is checked before.
unfoldable pub at_index : List ℕ → ℕ → ℕ
at_index [] i = 0
at_index (x ∷ xs) zero = x
at_index (x ∷ xs) (suc i) = at_index xs i

abbrev pub hex_chars : List ℕ
hex_chars =
    0x30 ∷ 0x31 ∷ 0x32 ∷ 0x33 ∷ 0x34 ∷ 0x35 ∷ 0x36 ∷ 0x37 ∷ 0x38 ∷ 0x39 ∷ 0x61 ∷ 0x62 ∷ 0x63 ∷ 0x64
    ∷ 0x65 ∷ 0x66 ∷ []

abbrev letters : List ℕ
letters = 10 ∷ 11 ∷ 12 ∷ 13 ∷ 14 ∷ 15 ∷ []

abbrev pub hex_table : List ℕ
hex_table =
    replicate 43 64
    ++ (62 ∷ replicate 4 64
        ++ (0 ∷ 1 ∷ 2 ∷ 3 ∷ 4 ∷ 5 ∷ 6 ∷ 7 ∷ 8 ∷ 9 ∷ replicate 7 64
            ++ (letters ++ (replicate 26 64 ++ (letters ++ replicate 25 64)))))

-- The two digits of a byte.
unfoldable pub encode_byte : ℕ → List ℕ
unfolding at_index
encode_byte b = at_index hex_chars (b / 16) ∷ at_index hex_chars (bit_and b 0x0f) ∷ []

unfoldable pub hex_encode : List ℕ → List ℕ
unfolding encode_byte
hex_encode [] = []
hex_encode (b ∷ bytes) = encode_byte b ++ hex_encode bytes

abbrev refused : ℕ → Bool
refused char = ltb 127 char || (at_index hex_table char == 64)

unfoldable pub decode_pair : ℕ → ℕ → Result ℕ
unfolding at_index
decode_pair hi_char lo_char = do
  throw_if (refused hi_char || refused lo_char) runtime_error
  ok (bit_or (at_index hex_table hi_char * 16) (at_index hex_table lo_char) % 256)

-- The loop over pairs; a single character behind them is not read.
unfoldable pub decode_pairs : List ℕ → Result (List ℕ)
unfolding decode_pair
decode_pairs [] = ok []
decode_pairs (x ∷ []) = ok []
decode_pairs (hi_char ∷ lo_char ∷ more) = do
  b ← decode_pair hi_char lo_char
  bytes ← decode_pairs more
  ok (b ∷ bytes)

-- The bound `from.size() - 1` wraps around for an empty input, which is then read past its end.
unfoldable pub hex_decode : List ℕ → Result (List ℕ)
unfolding decode_pairs
hex_decode from = do
  throw_if (not (length from % 2 == 0)) runtime_error
  throw_if (length from == 0) out_of_bounds
  decode_pairs from

is_ok : Result ℕ → ℕ → Bool
is_ok (ok v) b = v == b
is_ok (err e) b = false

is_ok→ok : (r : Result ℕ) (b : ℕ) → is_ok r b ≡ true → r ≡ ok b
unfolding is_ok
is_ok→ok (ok v) b h = ground arith
is_ok→ok (err e) b h = ground arith

round_trip : ℕ → Bool
unfolding is_ok decode_pair
round_trip b =
    is_ok (decode_pair (at_index hex_chars (b / 16)) (at_index hex_chars (bit_and b 0x0f))) b

all_bytes : every round_trip 256 ≡ true
unfolding round_trip at_index every
all_bytes = refl

decode_pair-byte :
    (b : ℕ)
    → b < 256
    → decode_pair (at_index hex_chars (b / 16)) (at_index hex_chars (bit_and b 0x0f)) ≡ ok b
unfolding round_trip
decode_pair-byte b h = is_ok→ok _ b (every_holds round_trip 256 b all_bytes h)

decode_pairs-hex_encode :
    (bytes : List ℕ) → All IsByte bytes → decode_pairs (hex_encode bytes) ≡ ok bytes
unfolding decode_pairs hex_encode encode_byte
decode_pairs-hex_encode [] h = refl
decode_pairs-hex_encode (b ∷ bytes) h =
    rw (decode_pair-byte b h.0, decode_pairs-hex_encode bytes h.1) refl

pub length-hex_encode : (bytes : List ℕ) → length (hex_encode bytes) ≡ length bytes * 2
unfolding hex_encode encode_byte
length-hex_encode [] = refl
length-hex_encode (b ∷ bytes) = omega (arith, length-hex_encode bytes)

even_tests : (n : ℕ) → 0 < n → ((n * 2 % 2 == 0) ≡ true) × ((n * 2 == 0) ≡ false)
even_tests n h = ground arith

-- Bytes, one at least, are read back from their hexadecimal digits.
pub hex_decode-hex_encode :
    (bytes : List ℕ)
    → All IsByte bytes
    → 0 < length bytes
    → hex_decode (hex_encode bytes) ≡ ok bytes
unfolding hex_decode
hex_decode-hex_encode bytes h k =
    let (p, q) = even_tests (length bytes) k in
    rw (length-hex_encode bytes, p, q) (decode_pairs-hex_encode bytes h)

-- ===== src/Encoding/Base32.antt =====
-- src/encoding/base32.h. A character is the number of its byte.
pub mod Feed
pub mod RoundTrip
pub mod Bounds
use Prim.Native.Nat.{bit_and, bit_or}
use ceema.Prelude.{
  ℕ, zero, suc, ◌+◌, ◌*◌, ◌/◌, ◌%◌, ◌^◌, ◌-◌, Bool, true, false, ◌||◌, Option, none, some, List, [],
  ◌∷◌, ◌++◌, map, get_or, ltb, leb, ◌==◌, if◌then◌else◌, length, replicate, Result, ok, err,
  out_of_bounds, throw_if, ◌>>=◌, ◌>>◌,
}
use ceema.Encoding.Base64.{from_on}

abbrev pub b32_chars : List ℕ
b32_chars =
    0x41 ∷ 0x42 ∷ 0x43 ∷ 0x44 ∷ 0x45 ∷ 0x46 ∷ 0x47 ∷ 0x48 ∷ 0x49 ∷ 0x4a ∷ 0x4b ∷ 0x4c ∷ 0x4d ∷ 0x4e
    ∷ 0x4f ∷ 0x50 ∷ 0x51 ∷ 0x52 ∷ 0x53 ∷ 0x54 ∷ 0x55 ∷ 0x56 ∷ 0x57 ∷ 0x58 ∷ 0x59 ∷ 0x5a ∷ 0x32
    ∷ 0x33 ∷ 0x34 ∷ 0x35 ∷ 0x36 ∷ 0x37 ∷ 0x3d ∷ []

abbrev pub b32_table : List ℕ
b32_table =
    replicate 50 64
    ++ (from_on 26 6
        ++ (replicate 9 64
            ++ (from_on 0 26 ++ (replicate 6 64 ++ (from_on 0 26 ++ replicate 5 64)))))

abbrev pub char_of : ℕ → ℕ
char_of v = get_or b32_chars v 0

-- The digits of five bytes; the sixth bit of `digit1`, and its like, is cut by the mask.
unfoldable pub digit0 : ℕ → ℕ
digit0 a = a / 8

unfoldable pub digit1 : ℕ → ℕ → ℕ
digit1 a b = bit_and (bit_or (a * 4) (b / 64)) 0x1f

unfoldable pub digit2 : ℕ → ℕ
digit2 b = bit_and (b / 2) 0x1f

unfoldable pub digit3 : ℕ → ℕ → ℕ
digit3 b c = bit_and (bit_or (b * 16) (c / 16)) 0x1f

unfoldable pub digit4 : ℕ → ℕ → ℕ
digit4 c d = bit_and (bit_or (c * 2) (d / 128)) 0x1f

unfoldable pub digit5 : ℕ → ℕ
digit5 d = bit_and (d / 4) 0x1f

unfoldable pub digit6 : ℕ → ℕ → ℕ
digit6 d e = bit_and (bit_or (d * 8) (e / 32)) 0x1f

unfoldable pub digit7 : ℕ → ℕ
digit7 e = bit_and e 0x1f

-- The vector `to`: digits, and 32 for the padding behind one to four bytes.
unfoldable pub digits_of : List ℕ → List ℕ
unfolding digit0 digit1 digit2 digit3 digit4 digit5 digit6 digit7
digits_of [] = []
digits_of (a ∷ []) = digit0 a ∷ bit_and (a * 4) 0x1f ∷ replicate 6 32
digits_of (a ∷ b ∷ []) = digit0 a ∷ digit1 a b ∷ digit2 b ∷ bit_and (b * 16) 0x1f ∷ replicate 4 32
digits_of (a ∷ b ∷ c ∷ []) =
    digit0 a ∷ digit1 a b ∷ digit2 b ∷ digit3 b c ∷ bit_and (c * 2) 0x1f ∷ replicate 3 32
digits_of (a ∷ b ∷ c ∷ d ∷ []) =
    digit0 a
    ∷ digit1 a b
    ∷ digit2 b
    ∷ digit3 b c
    ∷ digit4 c d
    ∷ digit5 d
    ∷ bit_and (d * 8) 0x1f
    ∷ 32
    ∷ []
digits_of (a ∷ b ∷ c ∷ d ∷ e ∷ more) =
    digit0 a
    ∷ digit1 a b
    ∷ digit2 b
    ∷ digit3 b c
    ∷ digit4 c d
    ∷ digit5 d
    ∷ digit6 d e
    ∷ digit7 e
    ∷ digits_of more

-- `from.size() - 4` wraps around below four bytes, and the loop then runs out of its input.
unfoldable pub base32_encode : List ℕ → Result (List ℕ)
unfolding digits_of
base32_encode from = do
  throw_if (ltb (length from) 4) out_of_bounds
  ok (map char_of (digits_of from))

-- The locals of `base32_decode`: what is written to the buffer, and `bits` and `value`.
pub record Decoder : Type 0 where
  pub written : List ℕ
  pub bits : ℕ
  pub value : ℕ

abbrev pub is_skipped : ℕ → Bool
is_skipped ch = ltb 127 ch || (get_or b32_table ch 0 == 64)

-- `value = (value << 5) | b32_table[ch]; bits += 5;`
unfoldable pub shift_in : ℕ → Decoder → Decoder
shift_in t d = record d { value = bit_or (d.value * 32 % 2 ^ 32) t; bits = d.bits + 5 }

-- `to[j++] = byte; if (j > len) return j;`: the test comes behind the write, so it never holds where
-- the write stays in the buffer.
unfoldable pub flush : ℕ → Decoder → Result Decoder
flush len d =
    if ltb d.bits 8
    then ok d
    else (if leb len (length d.written)
        then err out_of_bounds
        else ok (record {
          written = d.written ++ (bit_and (d.value / 2 ^ (d.bits - 8)) 0xff ∷ []);
          bits = d.bits - 8;
          value = d.value;
        }))

unfoldable pub feed : ℕ → List ℕ → Decoder → Result Decoder
unfolding shift_in flush
feed len [] d = ok d
feed len (ch ∷ from) d = elim (is_skipped ch) [
  | true ↦ feed len from d
  | false ↦ flush len (shift_in (get_or b32_table ch 0) d) >>= feed len from
]

-- The answer: what was written, whose length is the number that the code returns, or `none` for -1.
abbrev pub finish : Decoder → Option (List ℕ)
finish d = if d.bits == 0 then some d.written else none

unfoldable pub base32_decode : List ℕ → ℕ → Result (Option (List ℕ))
unfolding feed
base32_decode from len = do
  d ← feed len from (record { written = []; bits = 0; value = 0 })
  ok (finish d)

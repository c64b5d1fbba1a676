-- ===== src/Encoding/Base64.antt =====
-- src/encoding/base64.h. A character is the number of its byte.
pub mod Digits
pub mod Feed
pub mod RoundTrip
use Prim.Native.Nat.{bit_and, bit_or}
use ceema.Prelude.{
  ℕ, zero, suc, ◌+◌, ◌*◌, ◌/◌, ◌%◌, ◌^◌, ◌-◌, Bool, true, false, ◌||◌, ◌&&◌, not, List, [], ◌∷◌,
  ◌++◌, get_or, ltb, leb, ◌==◌, if◌then◌else◌, length, replicate, Result, ok, err, runtime_error,
  out_of_bounds, throw_if, ◌>>=◌, ◌>>◌,
}

abbrev pub b64_chars : List ℕ
b64_chars =
    0x41 ∷ 0x42 ∷ 0x43 ∷ 0x44 ∷ 0x45 ∷ 0x46 ∷ 0x47 ∷ 0x48 ∷ 0x49 ∷ 0x4a ∷ 0x4b ∷ 0x4c ∷ 0x4d ∷ 0x4e
    ∷ 0x4f ∷ 0x50 ∷ 0x51 ∷ 0x52 ∷ 0x53 ∷ 0x54 ∷ 0x55 ∷ 0x56 ∷ 0x57 ∷ 0x58 ∷ 0x59 ∷ 0x5a ∷ 0x61
    ∷ 0x62 ∷ 0x63 ∷ 0x64 ∷ 0x65 ∷ 0x66 ∷ 0x67 ∷ 0x68 ∷ 0x69 ∷ 0x6a ∷ 0x6b ∷ 0x6c ∷ 0x6d ∷ 0x6e
    ∷ 0x6f ∷ 0x70 ∷ 0x71 ∷ 0x72 ∷ 0x73 ∷ 0x74 ∷ 0x75 ∷ 0x76 ∷ 0x77 ∷ 0x78 ∷ 0x79 ∷ 0x7a ∷ 0x30
    ∷ 0x31 ∷ 0x32 ∷ 0x33 ∷ 0x34 ∷ 0x35 ∷ 0x36 ∷ 0x37 ∷ 0x38 ∷ 0x39 ∷ 0x2b ∷ 0x2f ∷ []

-- A run of `n` table entries that count up.
abbrev pub from_on : ℕ → ℕ → List ℕ
from_on start zero = []
from_on start (suc n) = start ∷ from_on (suc start) n

abbrev pub b64_table : List ℕ
b64_table =
    replicate 43 64
    ++ (62
        ∷ 64
        ∷ 64
        ∷ 64
        ∷ 63
        ∷ (from_on 52 10
            ++ (replicate 7 64
                ++ (from_on 0 26 ++ (replicate 6 64 ++ (from_on 26 26 ++ replicate 5 64))))))

-- '='
abbrev pub pad_char : ℕ
pad_char = 0x3d

abbrev pub char_of : ℕ → ℕ
char_of v = get_or b64_chars v 0

-- `from[i]`, for an array that ends before i or not.
unfoldable pub read_at : List ℕ → ℕ → Result ℕ
read_at [] i = err out_of_bounds
read_at (x ∷ xs) zero = ok x
read_at (x ∷ xs) (suc i) = read_at xs i

-- The four digits of three bytes.
unfoldable pub first_digit : ℕ → ℕ
first_digit a = bit_and (a / 4) 0x3f

unfoldable pub second_digit : ℕ → ℕ → ℕ
second_digit a b = bit_and (bit_or (a * 16) (b / 16)) 0x3f

unfoldable pub third_digit : ℕ → ℕ → ℕ
third_digit b c = bit_and (bit_or (b * 4) (c / 64)) 0x3f

unfoldable pub fourth_digit : ℕ → ℕ
fourth_digit c = bit_and c 0x3f

-- The last one or two bytes: the code reads one byte further for the digit that they fill in part.
unfoldable pub encode_rest : List ℕ → Result (List ℕ)
unfolding read_at first_digit second_digit third_digit
encode_rest from = do
  a ← read_at from 0
  b ← read_at from 1
  elim (length from == 2) [
    | true ↦ do
      c ← read_at from 2
      ok (
          char_of (first_digit a)
          ∷ char_of (second_digit a b)
          ∷ char_of (third_digit b c)
          ∷ pad_char
          ∷ [])
    | false ↦ ok (char_of (first_digit a) ∷ char_of (second_digit a b) ∷ pad_char ∷ pad_char ∷ [])
  ]

unfoldable pub encode_groups : List ℕ → Result (List ℕ)
unfolding encode_rest fourth_digit
encode_groups [] = ok []
encode_groups (a ∷ b ∷ c ∷ more) = do
  text ← encode_groups more
  ok (
      char_of (first_digit a)
      ∷ char_of (second_digit a b)
      ∷ char_of (third_digit b c)
      ∷ char_of (fourth_digit c)
      ∷ text)
encode_groups (a ∷ more) = encode_rest (a ∷ more)

-- `from_len - 2` wraps around below two bytes, and the loop then runs out of its input.
unfoldable pub base64_encode : List ℕ → Result (List ℕ)
unfolding encode_groups
base64_encode from = do throw_if (ltb (length from) 2) out_of_bounds; encode_groups from

-- `b64_table[c]` for a char, which is negative from 128 on.
unfoldable pub entry : ℕ → Result ℕ
entry c = if ltb 127 c then err out_of_bounds else ok (get_or b64_table c 0)

unfoldable pub word_of : ℕ → ℕ → ℕ → ℕ → ℕ
word_of t0 t1 t2 t3 = bit_or (bit_or (bit_or (t0 * 2 ^ 18) (t1 * 2 ^ 12)) (t2 * 2 ^ 6)) t3

-- The bytes of a group, one to three by its padding.
unfoldable pub bytes_of : ℕ → ℕ → ℕ → List ℕ
bytes_of c2 c3 val =
    val / 2 ^ 16 % 256
    ∷ (if c2 == pad_char
        then []
        else bit_and (val / 2 ^ 8) 0xff ∷ (if c3 == pad_char then [] else bit_and val 0xff ∷ []))

unfoldable pub decode_group : ℕ → ℕ → ℕ → ℕ → Result (List ℕ)
unfolding entry word_of bytes_of
decode_group c0 c1 c2 c3 = do
  t0 ← entry c0
  t1 ← entry c1
  t2 ← entry c2
  t3 ← entry c3
  ok (bytes_of c2 c3 (word_of t0 t1 t2 t3))

-- `base64_decode(from)`: a std::string may be read at its size, where it has a zero, and no further.
unfoldable pub base64_decode : List ℕ → Result (List ℕ)
unfolding decode_group
base64_decode [] = ok []
base64_decode (c0 ∷ c1 ∷ c2 ∷ c3 ∷ more) = do
  group ← decode_group c0 c1 c2 c3
  bytes ← base64_decode more
  ok (group ++ bytes)
base64_decode (c0 ∷ c1 ∷ c2 ∷ []) = decode_group c0 c1 c2 0
base64_decode _ = err out_of_bounds

-- The locals of `base64_decode(from, to, len)`: what is written to the buffer, and `bits` and `value`.
pub record Decoder : Type 0 where
  pub written : List ℕ
  pub bits : ℕ
  pub value : ℕ

abbrev pub is_skipped : ℕ → Bool
is_skipped c = ltb 127 c || ltb 63 (get_or b64_table c 0)

-- `to[j++] = byte; if (j > len) throw`: the test comes behind the write.
unfoldable pub write_byte : ℕ → ℕ → Decoder → Result Decoder
write_byte len byte d =
    if leb len (length d.written)
    then err out_of_bounds
    else ok (record d { written = d.written ++ (byte ∷ []) })

-- `value = (value << 6) | b64_table[c]; bits += 6;`
unfoldable pub shift_in : ℕ → Decoder → Decoder
shift_in t d = record d { value = bit_or (d.value * 64 % 2 ^ 32) t; bits = d.bits + 6 }

unfoldable pub flush : ℕ → Decoder → Result Decoder
unfolding write_byte
flush len d =
    if ltb d.bits 8
    then ok d
    else write_byte len (bit_and (d.value / 2 ^ (d.bits - 8)) 0xff) (record d { bits = d.bits - 8 })

unfoldable pub feed : ℕ → List ℕ → Decoder → Result Decoder
unfolding shift_in flush
feed len [] d = ok d
feed len (c ∷ from) d = elim (is_skipped c) [
  | true ↦ feed len from d
  | false ↦ flush len (shift_in (get_or b64_table c 0) d) >>= feed len from
]

-- The bits that are left, and the test of the size.
unfoldable pub finish : ℕ → Decoder → Result (List ℕ)
finish len d =
    let partial = not (d.bits == 0) && ltb (length d.written) len in
    let written =
      if partial
      then d.written ++ (bit_and d.value (0xff / 2 ^ (8 - d.bits)) ∷ [])
      else d.written in
    if length written == len then ok written else err runtime_error

-- `base64_decode(from, to, len)`: the bytes of `to`.
unfoldable pub base64_decode_buffer : List ℕ → ℕ → Result (List ℕ)
unfolding feed finish
base64_decode_buffer from len =
    feed len from (record { written = []; bits = 0; value = 0 }) >>= finish len

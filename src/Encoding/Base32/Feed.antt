-- ===== src/Encoding/Base32/Feed.antt =====
-- The loop of `base32_decode` (src/encoding/base32.h) on the digits that `base32_encode` writes.
use Prim.Native.Nat.{bit_and, bit_or}
use ceema.Prelude.{
  ℕ, ◌+◌, ◌-◌, ◌*◌, ◌/◌, ◌%◌, ◌^◌, ◌<◌, ◌≤◌, ◌≡◌, ◌∙◌, refl, Bool, true, false, ◌&&◌, not, List, [],
  ◌∷◌, ◌++◌, get_or, ltb, leb, ◌==◌, length, arith, every, every_holds, ok, ◌>>=◌,
}
use ceema.Types.Bits.{shl, bit_or-shl, bit_and-ones}
use ceema.Encoding.Base32.{
  b32_table, char_of, digit1, digit3, digit4, digit6, Decoder, shift_in, flush, feed,
}

pub low_five : (x : ℕ) → bit_and x 0x1f ≡ x % 32
low_five x = omega (arith, bit_and-ones 5 x)

low_byte : (x : ℕ) → bit_and x 0xff ≡ x % 256
low_byte x = omega (arith, bit_and-ones 8 x)

pub digit1_lem : (a b : ℕ) → b < 256 → digit1 a b ≡ a % 8 * 4 + b / 64
unfolding digit1
digit1_lem a b h =
    let s : a * 4 ≡ shl 2 a = omega arith in
    let e : bit_or (a * 4) (b / 64) ≡ a * 4 + b / 64 =
      rw s (bit_or-shl 2 a (b / 64) (omega arith)) in
    rw e (omega (arith, low_five (a * 4 + b / 64)))

pub digit3_lem : (b c : ℕ) → c < 256 → digit3 b c ≡ b % 2 * 16 + c / 16
unfolding digit3
digit3_lem b c h =
    let s : b * 16 ≡ shl 4 b = omega arith in
    let e : bit_or (b * 16) (c / 16) ≡ b * 16 + c / 16 =
      rw s (bit_or-shl 4 b (c / 16) (omega arith)) in
    rw e (omega (arith, low_five (b * 16 + c / 16)))

pub digit4_lem : (c d : ℕ) → d < 256 → digit4 c d ≡ c % 16 * 2 + d / 128
unfolding digit4
digit4_lem c d h =
    let s : c * 2 ≡ shl 1 c = omega arith in
    let e : bit_or (c * 2) (d / 128) ≡ c * 2 + d / 128 =
      rw s (bit_or-shl 1 c (d / 128) (omega arith)) in
    rw e (omega (arith, low_five (c * 2 + d / 128)))

pub digit6_lem : (d e : ℕ) → e < 256 → digit6 d e ≡ d % 4 * 8 + e / 32
unfolding digit6
digit6_lem d e h =
    let s : d * 8 ≡ shl 3 d = omega arith in
    let q : bit_or (d * 8) (e / 32) ≡ d * 8 + e / 32 =
      rw s (bit_or-shl 3 d (e / 32) (omega arith)) in
    rw q (omega (arith, low_five (d * 8 + e / 32)))

-- The table reads back the digits.
is_digit : ℕ → Bool
is_digit v = (get_or b32_table (char_of v) 0 == v) && not (ltb 127 (char_of v))

all_digits : every is_digit 32 ≡ true
unfolding every is_digit
all_digits = refl

record IsDigit (v : ℕ) : Type 0 where
  back : get_or b32_table (char_of v) 0 ≡ v
  plain : ltb 127 (char_of v) ≡ false

digit : (v : ℕ) → v < 32 → IsDigit v
unfolding is_digit
digit v h =
    go (get_or b32_table (char_of v) 0) (ltb 127 (char_of v))
      (every_holds is_digit 32 v all_digits h) refl refl
  where
    go :
        (t : ℕ) (p : Bool)
        → ((t == v) && not p) ≡ true
        → get_or b32_table (char_of v) 0 ≡ t
        → ltb 127 (char_of v) ≡ p
        → IsDigit v
    go t true h a b = ground arith
    go t false h a b = record { back = ground arith; plain = b }

feed-digit :
    (len v : ℕ) (more : List ℕ) (d : Decoder)
    → v < 32
    → feed len (char_of v ∷ more) d ≡ (
        flush len (record d { value = d.value * 32 % 2 ^ 32 + v; bits = d.bits + 5 })
        >>= feed len more)
unfolding feed shift_in
feed-digit len v more d h =
    let g = digit v h in
    let e : d.value * 32 % 2 ^ 32 ≡ (d.value % 2 ^ 27) * 32 = omega arith in
    let s : (d.value % 2 ^ 27) * 32 ≡ shl 5 (d.value % 2 ^ 27) = omega arith in
    let o : bit_or ((d.value % 2 ^ 27) * 32) v ≡ (d.value % 2 ^ 27) * 32 + v =
      rw s (bit_or-shl 5 (d.value % 2 ^ 27) v h) in
    let w : (v == 64) ≡ false = ground arith in rw (g.plain, g.back, w, feed, g.back, e, o)

flush_none : (len : ℕ) (d : Decoder) → d.bits < 8 → flush len d ≡ ok d
unfolding flush
flush_none len d h = ground arith

flush_put :
    (len byte : ℕ) (d : Decoder)
    → 8 ≤ d.bits
    → length d.written < len
    → bit_and (d.value / 2 ^ (d.bits - 8)) 0xff ≡ byte
    → flush len d
      ≡ ok (record { written = d.written ++ (byte ∷ []); bits = d.bits - 8; value = d.value })
unfolding flush
flush_put len byte d h fits e =
    let t : ltb d.bits 8 ≡ false = ground arith in
    let u : leb len (length d.written) ≡ false = ground arith in rw (t, u, e)

-- A digit that fills no byte, and one that does.
pub small_step :
    (len v : ℕ) (more : List ℕ) (d : Decoder)
    → v < 32
    → d.bits + 5 < 8
    → feed len (char_of v ∷ more) d
      ≡ feed len more (record d { value = d.value * 32 % 2 ^ 32 + v; bits = d.bits + 5 })
small_step len v more d h k = rw (
  feed-digit len v more d h,
  flush_none len (record d { value = d.value * 32 % 2 ^ 32 + v; bits = d.bits + 5 }) k,
)

pub big_step :
    (len v byte : ℕ) (more : List ℕ) (d : Decoder)
    → v < 32
    → 8 ≤ d.bits + 5
    → length d.written < len
    → (d.value * 32 % 2 ^ 32 + v) / 2 ^ (d.bits + 5 - 8) % 256 ≡ byte
    → feed len (char_of v ∷ more) d
      ≡ feed len more (record {
        written = d.written ++ (byte ∷ []);
        bits = d.bits + 5 - 8;
        value = d.value * 32 % 2 ^ 32 + v;
      })
big_step len v byte more d h k fits e = rw (
  feed-digit len v more d h,
  flush_put len byte (record d { value = d.value * 32 % 2 ^ 32 + v; bits = d.bits + 5 }) k fits
      (low_byte ((d.value * 32 % 2 ^ 32 + v) / 2 ^ (d.bits + 5 - 8)) ∙ e),
)

abbrev pub next : ℕ → ℕ → ℕ
next value v = value * 32 % 2 ^ 32 + v

-- ===== src/Encoding/Base64/Digits.antt =====
-- The digits of src/encoding/base64.h as numbers, and the groups of four of them.
use Prim.Native.Nat.{bit_and, bit_or}
use ceema.Prelude.{
  ℕ, ◌+◌, ◌*◌, ◌/◌, ◌%◌, ◌^◌, ◌<◌, ◌≡◌, refl, Bool, true, false, ◌&&◌, not, [], ◌∷◌, get_or, ltb,
  ◌==◌, arith, every, every_holds, ok,
}
use ceema.Types.Bits.{shl, bit_or-shl, bit_and-ones}
use ceema.Encoding.Base64.{
  b64_table, pad_char, char_of, first_digit, second_digit, third_digit, fourth_digit, entry,
  word_of, bytes_of, decode_group,
}

-- The digits as numbers.
low_six : (x : ℕ) → bit_and x 0x3f ≡ x % 64
low_six x = omega (arith, bit_and-ones 6 x)

pub low_byte : (x : ℕ) → bit_and x 0xff ≡ x % 256
low_byte x = omega (arith, bit_and-ones 8 x)

or_of_four : (x y : ℕ) → y < 16 → bit_or (x * 16) y ≡ x * 16 + y
or_of_four x y h = let e : x * 16 ≡ shl 4 x = omega arith in rw e (bit_or-shl 4 x y h)

or_of_two : (x y : ℕ) → y < 4 → bit_or (x * 4) y ≡ x * 4 + y
or_of_two x y h = let e : x * 4 ≡ shl 2 x = omega arith in rw e (bit_or-shl 2 x y h)

pub or_of_six : (x y : ℕ) → y < 64 → bit_or (x * 64) y ≡ x * 64 + y
or_of_six x y h = let e : x * 64 ≡ shl 6 x = omega arith in rw e (bit_or-shl 6 x y h)

first_digit_lem : (a : ℕ) → a < 256 → first_digit a ≡ a / 4
unfolding first_digit
first_digit_lem a h = omega (arith, low_six (a / 4))

second_digit_lem : (a b : ℕ) → b < 256 → second_digit a b ≡ a % 4 * 16 + b / 16
unfolding second_digit
second_digit_lem a b h =
    rw (or_of_four a (b / 16) (omega arith)) (omega (arith, low_six (a * 16 + b / 16)))

third_digit_lem : (b c : ℕ) → c < 256 → third_digit b c ≡ b % 16 * 4 + c / 64
unfolding third_digit
third_digit_lem b c h =
    rw (or_of_two b (c / 64) (omega arith)) (omega (arith, low_six (b * 4 + c / 64)))

fourth_digit_lem : (c : ℕ) → fourth_digit c ≡ c % 64
unfolding fourth_digit
fourth_digit_lem c = low_six c

-- The tables are inverse to each other, and no digit is the padding.
is_digit : ℕ → Bool
is_digit v =
    (get_or b64_table (char_of v) 0 == v)
    && (not (ltb 127 (char_of v)) && not (char_of v == pad_char))

all_digits : every is_digit 64 ≡ true
unfolding every is_digit
all_digits = refl

pub record IsDigit (v : ℕ) : Type 0 where
  pub back : get_or b64_table (char_of v) 0 ≡ v
  pub plain : ltb 127 (char_of v) ≡ false
  pub no_pad : (char_of v == pad_char) ≡ false

IsDigit-of : (v : ℕ) → is_digit v ≡ true → IsDigit v
unfolding is_digit
IsDigit-of v h =
    go (get_or b64_table (char_of v) 0) (ltb 127 (char_of v)) (char_of v == pad_char) h refl refl
      refl
  where
    go :
        (t : ℕ) (p q : Bool)
        → ((t == v) && (not p && not q)) ≡ true
        → get_or b64_table (char_of v) 0 ≡ t
        → ltb 127 (char_of v) ≡ p
        → (char_of v == pad_char) ≡ q
        → IsDigit v
    go t true q h a b c = ground arith
    go t false true h a b c = ground arith
    go t false false h a b c = record { back = ground arith; plain = b; no_pad = c }

pub digit : (v : ℕ) → v < 64 → IsDigit v
digit v h = IsDigit-of v (every_holds is_digit 64 v all_digits h)

entry-digit : (v : ℕ) → v < 64 → entry (char_of v) ≡ ok v
unfolding entry
entry-digit v h = let d = digit v h in rw (d.plain, d.back) refl

word_of_lem :
    (t0 t1 t2 t3 : ℕ)
    → t1 < 64
    → t2 < 64
    → t3 < 64
    → word_of t0 t1 t2 t3 ≡ ((t0 * 64 + t1) * 64 + t2) * 64 + t3
unfolding word_of
word_of_lem t0 t1 t2 t3 h1 h2 h3 =
    let s0 : t0 * 2 ^ 18 ≡ shl 18 t0 = omega arith in
    let s1 : (t0 * 64 + t1) * 2 ^ 12 ≡ shl 12 (t0 * 64 + t1) = omega arith in
    let s2 : ((t0 * 64 + t1) * 64 + t2) * 2 ^ 6 ≡ shl 6 ((t0 * 64 + t1) * 64 + t2) = omega arith in
    let e0 : bit_or (t0 * 2 ^ 18) (t1 * 2 ^ 12) ≡ (t0 * 64 + t1) * 2 ^ 12 =
      rw s0 (omega (arith, bit_or-shl 18 t0 (t1 * 2 ^ 12) (omega arith))) in
    let e1 : bit_or ((t0 * 64 + t1) * 2 ^ 12) (t2 * 2 ^ 6) ≡ ((t0 * 64 + t1) * 64 + t2) * 2 ^ 6 =
      rw s1 (omega (arith, bit_or-shl 12 (t0 * 64 + t1) (t2 * 2 ^ 6) (omega arith))) in
    let e2 : bit_or (((t0 * 64 + t1) * 64 + t2) * 2 ^ 6) t3 ≡ ((t0 * 64 + t1) * 64 + t2) * 64 + t3 =
      rw s2 (omega (arith, bit_or-shl 6 ((t0 * 64 + t1) * 64 + t2) t3 (omega arith))) in
    rw (e0, e1, e2)

-- Three bytes from their four digits.
pub record Digits (a b c : ℕ) (d0 d1 d2 d3 : ℕ) : Type 0 where
  pub d0_lt : d0 < 64
  pub d1_lt : d1 < 64
  pub d2_lt : d2 < 64
  pub d3_lt : d3 < 64
  pub sum : ((d0 * 64 + d1) * 64 + d2) * 64 + d3 ≡ (a * 256 + b) * 256 + c

pub digits_of :
    (a b c : ℕ)
    → a < 256
    → b < 256
    → c < 256
    → Digits a b c (first_digit a) (second_digit a b) (third_digit b c) (fourth_digit c)
digits_of a b c ha hb hc =
    let e0 = first_digit_lem a ha in
    let e1 = second_digit_lem a b hb in
    let e2 = third_digit_lem b c hc in
    let e3 = fourth_digit_lem c in
    record {
      d0_lt = omega (arith, e0);
      d1_lt = omega (arith, e1);
      d2_lt = omega (arith, e2);
      d3_lt = omega (arith, e3);
      sum = omega (arith, e0, e1, e2, e3);
    }

bytes_of_lem :
    (c2 c3 a b c : ℕ)
    → a < 256
    → b < 256
    → c < 256
    → (c2 == pad_char) ≡ false
    → (c3 == pad_char) ≡ false
    → bytes_of c2 c3 ((a * 256 + b) * 256 + c) ≡ a ∷ b ∷ c ∷ []
unfolding bytes_of
bytes_of_lem c2 c3 a b c ha hb hc p q =
    let w : ℕ = (a * 256 + b) * 256 + c in
    let x : w / 2 ^ 16 % 256 ≡ a = omega arith in
    let y : bit_and (w / 2 ^ 8) 0xff ≡ b = omega (arith, low_byte (w / 2 ^ 8)) in
    let z : bit_and w 0xff ≡ c = omega (arith, low_byte w) in rw (p, q, x, y, z)

pub decode_group_lem :
    (a b c d0 d1 d2 d3 : ℕ)
    → a < 256
    → b < 256
    → c < 256
    → Digits a b c d0 d1 d2 d3
    → decode_group (char_of d0) (char_of d1) (char_of d2) (char_of d3) ≡ ok (a ∷ b ∷ c ∷ [])
unfolding decode_group
decode_group_lem a b c d0 d1 d2 d3 ha hb hc ds = rw (
  entry-digit d0 ds.d0_lt,
  entry-digit d1 ds.d1_lt,
  entry-digit d2 ds.d2_lt,
  entry-digit d3 ds.d3_lt,
  word_of_lem d0 d1 d2 d3 ds.d1_lt ds.d2_lt ds.d3_lt,
  ds.sum,
  bytes_of_lem (char_of d2) (char_of d3) a b c ha hb hc (digit d2 ds.d2_lt).no_pad
      (digit d3 ds.d3_lt).no_pad,
)

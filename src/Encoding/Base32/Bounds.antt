-- ===== src/Encoding/Base32/Bounds.antt =====
-- When `base32_decode` (src/encoding/base32.h) writes past its buffer.
use ceema.Prelude.{
  ℕ, suc, ◌+◌, ◌*◌, ◌/◌, ◌<◌, ◌≤◌, ◌≡◌, ◌⊎◌, inl, inr, refl, true, false, Option, List, [], ◌∷◌,
  get_or, ltb, leb, if◌then◌else◌, length, length-append, arith, Bool-cases, Result, ok, err,
  out_of_bounds, ◌>>=◌,
}
use ceema.Encoding.Base32.{
  b32_table, Decoder, is_skipped, shift_in, flush, feed, finish, base32_decode,
}

-- The characters of a text that are digits.
unfoldable pub count_digits : List ℕ → ℕ
count_digits [] = 0
count_digits (ch ∷ from) = let rest = count_digits from in if is_skipped ch then rest else suc rest

-- How many bits a decoder has taken in.
abbrev total : Decoder → ℕ
total d = 8 * length d.written + d.bits

-- The decoder ends with all the bits, or leaves its buffer because they are too many for it.
abbrev Ends : ℕ → ℕ → Result Decoder → Type 0
Ends len bits r =
    ((r ≡ err out_of_bounds) × (8 * len + 7 < bits))
    ⊎ ((d : Decoder) × (r ≡ ok d) × (total d ≡ bits) × (d.bits < 8) × (length d.written ≤ len))

flush-Ends :
    (len : ℕ) (d : Decoder)
    → d.bits < 16
    → length d.written ≤ len
    → Ends len (total d) (flush len d)
unfolding flush
flush-Ends len d h k = elim (Bool-cases (ltb d.bits 8)) [
  | inl e ↦ let q : d.bits < 8 = ground arith in rw e (inr (d, refl, refl, q, k))
  | inr e ↦
      let p : 8 ≤ d.bits = ground arith in
      elim (Bool-cases (leb len (length d.written))) [
        | inl e' ↦
            let q : len ≤ length d.written = ground arith in rw (e, e') (inl (refl, omega arith))
        | inr e' ↦
            let q : length d.written < len = ground arith in
            rw (e, e')
              (inr (
                _,
                refl,
                omega (arith, length-append {A = ℕ} d.written),
                omega arith,
                omega (arith, length-append {A = ℕ} d.written),
              ))
      ]
]

too_many : (len a b : ℕ) → 8 * len + 7 < a → 8 * len + 7 < a + b
too_many len a b h = omega arith

after-Ends :
    (len bits more : ℕ) (from : List ℕ) (r : Result Decoder)
    → ((d : Decoder)
        → d.bits < 8
        → length d.written ≤ len
        → Ends len (total d + more) (feed len from d))
    → Ends len bits r
    → Ends len (bits + more) (r >>= feed len from)
after-Ends len bits more from r ih (inl (e, h)) = rw e (inl (refl, too_many len bits more h))
after-Ends len bits more from r ih (inr (d, e, t, b, w)) = rw (e, ← t) (ih d b w)

skipped :
    (len ch : ℕ) (from : List ℕ) (d : Decoder)
    → is_skipped ch ≡ true
    → feed len (ch ∷ from) d ≡ feed len from d
unfolding feed
skipped len ch from d e = rw (e, feed)

taken :
    (len ch : ℕ) (from : List ℕ) (d : Decoder)
    → is_skipped ch ≡ false
    → feed len (ch ∷ from) d ≡ (flush len (shift_in (get_or b32_table ch 0) d) >>= feed len from)
unfolding feed
taken len ch from d e = rw (e, feed)

shifted-Ends :
    (len t : ℕ) (d : Decoder)
    → d.bits < 8
    → length d.written ≤ len
    → Ends len (total d + 5) (flush len (shift_in t d))
unfolding shift_in
shifted-Ends len t d b w =
    let e : total (shift_in t d) ≡ total d + 5 = omega arith in
    rw e at (flush-Ends len (shift_in t d) (omega arith) w)

regroup :
    (len a n : ℕ) (r : Result Decoder) → Ends len (a + 5 + n * 5) r → Ends len (a + suc n * 5) r
regroup len a n r h = let e : a + suc n * 5 ≡ a + 5 + n * 5 = omega arith in rw e h

feed-Ends :
    (len : ℕ) (from : List ℕ) (d : Decoder)
    → d.bits < 8
    → length d.written ≤ len
    → Ends len (total d + count_digits from * 5) (feed len from d)
unfolding count_digits
feed-Ends len [] d b w = inr (d, unfold feed in refl, omega arith, b, w)
feed-Ends len (ch ∷ from) d b w = elim (Bool-cases (is_skipped ch)) [
  | inl e ↦ rw (e, skipped len ch from d e) (feed-Ends len from d b w)
  | inr e ↦
      let s : Decoder = shift_in (get_or b32_table ch 0) d in
      rw (e, taken len ch from d e)
        (regroup len (total d) (count_digits from) (flush len s >>= feed len from) (
          after-Ends len (total d + 5) (count_digits from * 5) from (flush len s)
            (λ d' x y. feed-Ends len from d' x y) (shifted-Ends len (get_or b32_table ch 0) d b w)))
]

-- The decoder leaves its buffer exactly if the characters of the text that are digits, at five bits
-- each, hold more whole bytes than the buffer has.
pub base32_decode_bounds :
    (from : List ℕ) (len : ℕ)
    → ((len < count_digits from * 5 / 8) × (base32_decode from len ≡ err out_of_bounds))
      ⊎ ((count_digits from * 5 / 8 ≤ len)
          × ((answer : Option (List ℕ)) × (base32_decode from len ≡ ok answer)))
unfolding base32_decode
base32_decode_bounds from len =
    go (feed len from (record { written = []; bits = 0; value = 0 })) (
      feed-Ends len from (record { written = []; bits = 0; value = 0 }) (omega arith) (omega arith))
  where
    go :
        (r : Result Decoder)
        → Ends len (0 + count_digits from * 5) r
        → ((len < count_digits from * 5 / 8) × ((r >>= λ d. ok (finish d)) ≡ err out_of_bounds))
          ⊎ ((count_digits from * 5 / 8 ≤ len)
              × ((answer : Option (List ℕ)) × ((r >>= λ d. ok (finish d)) ≡ ok answer)))
    go r (inl (e, h)) = inl (omega arith, rw e)
    go r (inr (d, e, t, b, w)) = inr (omega arith, (finish d, rw e))

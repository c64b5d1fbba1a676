-- ===== src/Encoding/Base32/RoundTrip.antt =====
-- `base32_decode` (src/encoding/base32.h) on what `base32_encode` writes, also with other characters
-- in between.
use ceema.Prelude.{
  ℕ, zero, suc, ◌+◌, ◌*◌, ◌/◌, ◌≤◌, ◌≡◌, refl, true, false, some, List, [], ◌∷◌, ◌++◌, map, get_or,
  ltb, length, All, arith, Result, ok, err, ◌>>=◌, length-append, append_assoc, append-nil,
  Bool-cases, inl, inr,
}
use ceema.Types.Bytes.{IsByte}
use ceema.Encoding.Base32.{
  char_of, b32_table, digit0, digit1, digit2, digit3, digit4, digit5, digit6, digit7, digits_of,
  base32_encode, Decoder, is_skipped, shift_in, flush, feed, base32_decode,
}
use ceema.Encoding.Base32.Feed.{
  low_five, digit1_lem, digit3_lem, digit4_lem, digit6_lem, small_step, big_step, next,
}

-- The state after a group, whose last four digits are not known to it any more.
feed-group :
    (len a b c d e value : ℕ) (written more : List ℕ)
    → All IsByte (a ∷ b ∷ c ∷ d ∷ e ∷ [])
    → length written + 5 ≤ len
    → (v : ℕ) × (feed len
          (char_of (digit0 a)
            ∷ char_of (digit1 a b)
            ∷ char_of (digit2 b)
            ∷ char_of (digit3 b c)
            ∷ char_of (digit4 c d)
            ∷ char_of (digit5 d)
            ∷ char_of (digit6 d e)
            ∷ char_of (digit7 e)
            ∷ more)
          (record { written = written; bits = 0; value = value })
        ≡ feed len more
            (record { written = written ++ (a ∷ b ∷ c ∷ d ∷ e ∷ []); bits = 0; value = v }))
unfolding digit0 digit2 digit5 digit7
feed-group len a b c d e value written more (ha, (hb, (hc, (hd, (he, _))))) fits =
    let e1 = digit1_lem a b hb in
    let e2 = low_five (b / 2) in
    let e3 = digit3_lem b c hc in
    let e4 = digit4_lem c d hd in
    let e5 = low_five (d / 4) in
    let e6 = digit6_lem d e he in
    let e7 = low_five e in
    let v0 = next value (digit0 a) in
    let v1 = next v0 (digit1 a b) in
    let v2 = next v1 (digit2 b) in
    let v3 = next v2 (digit3 b c) in
    let v4 = next v3 (digit4 c d) in
    let v5 = next v4 (digit5 d) in
    let v6 = next v5 (digit6 d e) in
    let v7 = next v6 (digit7 e) in
    let w1 : List ℕ = written ++ (a ∷ []) in
    let w2 : List ℕ = w1 ++ (b ∷ []) in
    let w3 : List ℕ = w2 ++ (c ∷ []) in
    let w4 : List ℕ = w3 ++ (d ∷ []) in
    let n1 : length w1 ≡ length written + 1 = length-append written (a ∷ []) in
    let n2 : length w2 ≡ length w1 + 1 = length-append w1 (b ∷ []) in
    let n3 : length w3 ≡ length w2 + 1 = length-append w2 (c ∷ []) in
    let n4 : length w4 ≡ length w3 + 1 = length-append w3 (d ∷ []) in
    let t7 : List ℕ = char_of (digit7 e) ∷ more in
    let t6 : List ℕ = char_of (digit6 d e) ∷ t7 in
    let t5 : List ℕ = char_of (digit5 d) ∷ t6 in
    let t4 : List ℕ = char_of (digit4 c d) ∷ t5 in
    let t3 : List ℕ = char_of (digit3 b c) ∷ t4 in
    let t2 : List ℕ = char_of (digit2 b) ∷ t3 in
    let t1 : List ℕ = char_of (digit1 a b) ∷ t2 in
    (
      v7,
      rw (
        small_step len (digit0 a) t1 (record { written = written; bits = 0; value = value })
            (omega arith) (omega arith),
        big_step len (digit1 a b) a t2 (record { written = written; bits = 5; value = v0 })
            (omega (arith, e1)) (omega arith) (omega arith) (omega (arith, e1)),
        small_step len (digit2 b) t3 (record { written = w1; bits = 2; value = v1 })
            (omega (arith, e2)) (omega arith),
        big_step len (digit3 b c) b t4 (record { written = w1; bits = 7; value = v2 })
            (omega (arith, e3)) (omega arith) (omega (arith, n1)) (omega (arith, e1, e2, e3)),
        big_step len (digit4 c d) c t5 (record { written = w2; bits = 4; value = v3 })
            (omega (arith, e4)) (omega arith) (omega (arith, n1, n2)) (omega (arith, e3, e4)),
        small_step len (digit5 d) t6 (record { written = w3; bits = 1; value = v4 })
            (omega (arith, e5)) (omega arith),
        big_step len (digit6 d e) d t7 (record { written = w3; bits = 6; value = v5 })
            (omega (arith, e6)) (omega arith) (omega (arith, n1, n2, n3))
            (omega (arith, e4, e5, e6)),
        big_step len (digit7 e) e more (record { written = w4; bits = 3; value = v6 })
            (omega (arith, e7)) (omega arith) (omega (arith, n1, n2, n3, n4))
            (omega (arith, e6, e7)),
        append_assoc w3 (d ∷ []) (e ∷ []),
        append_assoc w2 (c ∷ []) (d ∷ e ∷ []),
        append_assoc w1 (b ∷ []) (c ∷ d ∷ e ∷ []),
        append_assoc written (a ∷ []) (b ∷ c ∷ d ∷ e ∷ []),
      ),
    )

digits_of-cons :
    (a b c d e : ℕ) (more : List ℕ)
    → map char_of (digits_of (a ∷ b ∷ c ∷ d ∷ e ∷ more))
      ≡ char_of (digit0 a)
        ∷ char_of (digit1 a b)
        ∷ char_of (digit2 b)
        ∷ char_of (digit3 b c)
        ∷ char_of (digit4 c d)
        ∷ char_of (digit5 d)
        ∷ char_of (digit6 d e)
        ∷ char_of (digit7 e)
        ∷ map char_of (digits_of more)
unfolding digits_of
digits_of-cons a b c d e more = refl

feed_nothing : (len : ℕ) (d : Decoder) → feed len (map char_of (digits_of [])) d ≡ ok d
unfolding digits_of feed
feed_nothing len d = refl

-- Groups of five bytes are read back whole.
feed-digits_of :
    (n len value : ℕ) (written bytes : List ℕ)
    → length bytes ≡ n * 5
    → All IsByte bytes
    → length written + length bytes ≤ len
    → (v : ℕ) × (feed len
          (map char_of (digits_of bytes))
          (record { written = written; bits = 0; value = value })
        ≡ ok (record { written = written ++ bytes; bits = 0; value = v }))
feed-digits_of zero len value written [] e h fits = (
  value,
  rw append-nil (feed_nothing len (record { written = written; bits = 0; value = value })),
)
feed-digits_of zero len value written (a ∷ r) e h fits = absurd (omega arith)
feed-digits_of (suc n) len value written [] e h fits = absurd (omega arith)
feed-digits_of (suc n) len value written (a ∷ []) e h fits = absurd (omega arith)
feed-digits_of (suc n) len value written (a ∷ b ∷ []) e h fits = absurd (omega arith)
feed-digits_of (suc n) len value written (a ∷ b ∷ c ∷ []) e h fits = absurd (omega arith)
feed-digits_of (suc n) len value written (a ∷ b ∷ c ∷ d ∷ []) e h fits = absurd (omega arith)
feed-digits_of (suc n) len value written (a ∷ b ∷ c ∷ d ∷ x ∷ more) e h fits =
    let group : List ℕ = a ∷ b ∷ c ∷ d ∷ x ∷ [] in
    let bytes : All IsByte group = (h.0, (h.1.0, (h.1.1.0, (h.1.1.1.0, (h.1.1.1.1.0, tt))))) in
    let (v, r) =
      feed-group len a b c d x value written (map char_of (digits_of more)) bytes (omega arith) in
    let (v', r') =
      feed-digits_of n len v (written ++ group) more (omega arith) h.1.1.1.1.1
        (omega (arith, length-append written group)) in
    (v', rw (digits_of-cons a b c d x more, r, r', append_assoc written group more))

long_enough : (n : ℕ) → 4 ≤ n → ltb n 4 ≡ false
long_enough n h = ground arith

same_after :
    (len : ℕ) (xs ys : List ℕ)
    → ((d : Decoder) → feed len xs d ≡ feed len ys d)
    → (r : Result Decoder) → (r >>= feed len xs) ≡ (r >>= feed len ys)
same_after len xs ys h (ok d) = h d
same_after len xs ys h (err e) = refl

-- The decoder skips a character that is no digit, wherever it stands.
pub feed-skip :
    (len ch : ℕ) (xs ys : List ℕ) (d : Decoder)
    → is_skipped ch ≡ true
    → feed len (xs ++ (ch ∷ ys)) d ≡ feed len (xs ++ ys) d
unfolding feed
feed-skip len ch [] ys d h = rw (h, feed)
feed-skip len ch (x ∷ xs) ys d h = elim (Bool-cases (is_skipped x)) [
  | inl e ↦ rw (e, feed) (feed-skip len ch xs ys d h)
  | inr e ↦
      rw (e, feed)
        (same_after len (xs ++ (ch ∷ ys)) (xs ++ ys) (λ d'. feed-skip len ch xs ys d' h)
          (flush len (shift_in (get_or b32_table x 0) d)))
]

-- Bytes, five at least and a multiple of five, are encoded, and a decoder with a buffer of their
-- size reads them back.
pub base32_decode-base32_encode :
    (n : ℕ) (bytes : List ℕ)
    → All IsByte bytes
    → length bytes ≡ suc n * 5
    → (text : List ℕ) × (base32_encode bytes ≡ ok text)
      × (base32_decode text (length bytes) ≡ ok (some bytes))
unfolding base32_encode base32_decode
base32_decode-base32_encode n bytes h e =
    let (v, r) = feed-digits_of (suc n) (length bytes) 0 [] bytes e h (omega arith) in
    (map char_of (digits_of bytes), rw (long_enough (length bytes) (omega arith)) refl, rw r refl)

pub base32_encode-length :
    (bytes text : List ℕ) → 5 ≤ length bytes → base32_encode bytes ≡ ok text → 4 ≤ length text
unfolding base32_encode digits_of
base32_encode-length [] text h e = absurd (omega arith)
base32_encode-length (a ∷ []) text h e = absurd (omega arith)
base32_encode-length (a ∷ b ∷ []) text h e = absurd (omega arith)
base32_encode-length (a ∷ b ∷ c ∷ []) text h e = absurd (omega arith)
base32_encode-length (a ∷ b ∷ c ∷ d ∷ []) text h e = absurd (omega arith)
base32_encode-length (a ∷ b ∷ c ∷ d ∷ x ∷ more) text h e =
    same_length
      (char_of (digit0 a)
        ∷ char_of (digit1 a b)
        ∷ char_of (digit2 b)
        ∷ char_of (digit3 b c)
        ∷ char_of (digit4 c d)
        ∷ char_of (digit5 d)
        ∷ char_of (digit6 d x)
        ∷ char_of (digit7 x)
        ∷ map char_of (digits_of more))
      text (rw (long_enough (length (a ∷ b ∷ c ∷ d ∷ x ∷ more)) (omega arith)) at e) (omega arith)
  where
    same_length :
        (xs ys : List ℕ) → ◌≡◌ {A = Result (List ℕ)} (ok xs) (ok ys) → 4 ≤ length xs → 4 ≤ length ys
    same_length xs ys e h = let q : xs ≡ ys = cc in rw q at h

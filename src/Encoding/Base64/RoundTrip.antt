-- ===== src/Encoding/Base64/RoundTrip.antt =====
-- The encoder and the two decoders of src/encoding/base64.h, one behind the other.
use ceema.Prelude.{
  ℕ, zero, suc, ◌+◌, ◌-◌, ◌*◌, ◌/◌, ◌%◌, ◌<◌, ◌≤◌, ◌≡◌, ◌⊎◌, inl, inr, refl, true, false, List, [],
  ◌∷◌, ◌++◌, ltb, ◌==◌, length, All, arith, ok, err, out_of_bounds, length-append, Bool-cases,
  append_assoc, append-nil,
}
use ceema.Types.Bytes.{IsByte}
use ceema.Encoding.Base64.{
  char_of, first_digit, second_digit, third_digit, fourth_digit, read_at, encode_rest,
  encode_groups, base64_encode, decode_group, base64_decode, feed, finish, base64_decode_buffer,
}
use ceema.Encoding.Base64.Digits.{digits_of, decode_group_lem}
use ceema.Encoding.Base64.Feed.{next, feed-group}

-- What both decoders make of the groups that the encoder writes.
record Groups (bytes text : List ℕ) : Type 0 where
  encoded : encode_groups bytes ≡ ok text
  decoded : base64_decode text ≡ ok bytes
  fed :
      (len value : ℕ) (written : List ℕ)
      → length written + length bytes ≤ len
      → (v : ℕ) × (feed len text (record { written = written; bits = 0; value = value })
          ≡ ok (record { written = written ++ bytes; bits = 0; value = v }))

no-Groups : Groups [] []
unfolding encode_groups base64_decode feed
no-Groups = record {
  encoded = refl;
  decoded = refl;
  fed = λ len value written k. (value, rw append-nil refl);
}

encode-cons :
    (a b c : ℕ) (more text : List ℕ)
    → encode_groups more ≡ ok text
    → encode_groups (a ∷ b ∷ c ∷ more)
      ≡ ok (
          char_of (first_digit a)
          ∷ char_of (second_digit a b)
          ∷ char_of (third_digit b c)
          ∷ char_of (fourth_digit c)
          ∷ text)
unfolding encode_groups
encode-cons a b c more text e = rw e

decode-cons :
    (c0 c1 c2 c3 : ℕ) (text group bytes : List ℕ)
    → decode_group c0 c1 c2 c3 ≡ ok group
    → base64_decode text ≡ ok bytes
    → base64_decode (c0 ∷ c1 ∷ c2 ∷ c3 ∷ text) ≡ ok (group ++ bytes)
unfolding base64_decode
decode-cons c0 c1 c2 c3 text group bytes g e = rw (g, e)

groups :
    (n : ℕ) (bytes : List ℕ)
    → length bytes ≡ n * 3
    → All IsByte bytes
    → (text : List ℕ) × Groups bytes text
groups zero [] e h = ([], no-Groups)
groups zero (a ∷ r) e h = absurd (omega arith)
groups (suc n) [] e h = absurd (omega arith)
groups (suc n) (a ∷ []) e h = absurd (omega arith)
groups (suc n) (a ∷ b ∷ []) e h = absurd (omega arith)
groups (suc n) (a ∷ b ∷ c ∷ more) e (ha, (hb, (hc, h))) =
    let (text, g) = groups n more (omega arith) h in
    let ds = digits_of a b c ha hb hc in
    let d0 = first_digit a in
    let d1 = second_digit a b in
    let d2 = third_digit b c in
    let d3 = fourth_digit c in
    (
      char_of d0 ∷ char_of d1 ∷ char_of d2 ∷ char_of d3 ∷ text,
      record {
        encoded = encode-cons a b c more text g.encoded;
        decoded =
            decode-cons (char_of d0) (char_of d1) (char_of d2) (char_of d3) text (a ∷ b ∷ c ∷ [])
              more (decode_group_lem a b c d0 d1 d2 d3 ha hb hc ds) g.decoded;
        fed = λ len value written k.
            let (v, r) =
              g.fed len (next (next (next (next value d0) d1) d2) d3) (written ++ (a ∷ b ∷ c ∷ []))
                (omega (arith, length-append written (a ∷ b ∷ c ∷ []))) in
            (
              v,
              rw (
                feed-group len a b c d0 d1 d2 d3 value written text ha hb hc ds (omega arith),
                r,
                append_assoc written (a ∷ b ∷ c ∷ []) more,
              ),
            );
      },
    )

two_or_more : (n : ℕ) → 2 ≤ n → ltb n 2 ≡ false
two_or_more n h = ground arith

equals_itself : (n : ℕ) → (n == n) ≡ true
equals_itself n = ground arith

-- Bytes, three at least and a multiple of three, are encoded, and both decoders read them back, the
-- one that writes to a buffer with a buffer of their size.
pub base64_decode-base64_encode :
    (n : ℕ) (bytes : List ℕ)
    → All IsByte bytes
    → length bytes ≡ suc n * 3
    → (text : List ℕ) × (base64_encode bytes ≡ ok text)
      × (base64_decode text ≡ ok bytes)
      × (base64_decode_buffer text (length bytes) ≡ ok bytes)
unfolding base64_encode base64_decode_buffer finish
base64_decode-base64_encode n bytes h e =
    let (text, g) = groups (suc n) bytes e h in
    let (v, r) = g.fed (length bytes) 0 [] (omega arith) in
    let long = two_or_more (length bytes) (omega arith) in
    let same = equals_itself (length bytes) in
    (text, rw (long, g.encoded), g.decoded, rw (r, same) refl)

-- encode bounds
encode_rest_fails :
    (bytes : List ℕ) → 0 < length bytes → length bytes < 3 → encode_groups bytes ≡ err out_of_bounds
unfolding encode_groups encode_rest read_at
encode_rest_fails [] h k = absurd (omega arith)
encode_rest_fails (a ∷ []) h k = refl
encode_rest_fails (a ∷ b ∷ []) h k = refl
encode_rest_fails (a ∷ b ∷ c ∷ more) h k = absurd (omega arith)

encode_groups_fails :
    (n : ℕ) (bytes : List ℕ)
    → 0 < length bytes - n * 3
    → length bytes < suc n * 3
    → encode_groups bytes ≡ err out_of_bounds
unfolding encode_groups
encode_groups_fails zero bytes h k = encode_rest_fails bytes (omega arith) (omega arith)
encode_groups_fails (suc n) [] h k = absurd (omega arith)
encode_groups_fails (suc n) (a ∷ []) h k = absurd (omega arith)
encode_groups_fails (suc n) (a ∷ b ∷ []) h k = absurd (omega arith)
encode_groups_fails (suc n) (a ∷ b ∷ c ∷ more) h k =
    rw (encode_groups_fails n more (omega arith) (omega arith))

encode_fails :
    (n : ℕ) (bytes : List ℕ)
    → 0 < length bytes - n * 3
    → length bytes < suc n * 3
    → base64_encode bytes ≡ err out_of_bounds
unfolding base64_encode
encode_fails n bytes h k = elim (Bool-cases (ltb (length bytes) 2)) [
  | inl e ↦ rw e
  | inr e ↦ rw (e, encode_groups_fails n bytes h k)
]

-- The encoder either gets a positive multiple of three bytes, and writes a text that is read back
-- to them, or gets none or another number of them, and reads past their end.
pub base64_encode_bounds :
    (bytes : List ℕ)
    → All IsByte bytes
    → ((0 < length bytes)
        × (length bytes % 3 ≡ 0)
        × ((text : List ℕ) × (base64_encode bytes ≡ ok text) × (base64_decode text ≡ ok bytes)))
      ⊎ (((length bytes ≡ 0) ⊎ (0 < length bytes % 3)) × (base64_encode bytes ≡ err out_of_bounds))
base64_encode_bounds [] h = inr (inl refl, unfold base64_encode in refl)
base64_encode_bounds (a ∷ bytes) h = go (length (a ∷ bytes) % 3) refl
  where
    whole : ℕ
    whole = length (a ∷ bytes) / 3

    go :
        (r : ℕ)
        → length (a ∷ bytes) % 3 ≡ r
        → ((0 < length (a ∷ bytes))
            × (length (a ∷ bytes) % 3 ≡ 0)
            × ((text : List ℕ) × (base64_encode (a ∷ bytes) ≡ ok text)
                × (base64_decode text ≡ ok (a ∷ bytes))))
          ⊎ (((length (a ∷ bytes) ≡ 0) ⊎ (0 < length (a ∷ bytes) % 3))
              × (base64_encode (a ∷ bytes) ≡ err out_of_bounds))
    go zero e =
        let (text, x, y, z) = base64_decode-base64_encode (whole - 1) (a ∷ bytes) h (omega arith) in
        inl (omega arith, e, (text, x, y))
    go (suc r) e =
        inr (inr (omega arith), encode_fails whole (a ∷ bytes) (omega arith) (omega arith))

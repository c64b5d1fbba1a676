-- ===== src/Encoding/Base64/Feed.antt =====
-- The loop of src/encoding/base64.h that decodes into a buffer, four digits at a time.
use Prim.Native.Nat.{bit_and}
use ceema.Prelude.{
  ℕ, ◌+◌, ◌-◌, ◌*◌, ◌/◌, ◌%◌, ◌^◌, ◌<◌, ◌≤◌, ◌≡◌, false, List, [], ◌∷◌, ◌++◌, ltb, length, arith,
  ok, ◌>>=◌, length-append, append_assoc,
}
use ceema.Encoding.Base64.{char_of, Decoder, write_byte, shift_in, flush, feed}
use ceema.Encoding.Base64.Digits.{low_byte, or_of_six, digit, Digits}

-- `shift_in` and `flush` on a digit, as long as the buffer has room.
put_byte :
    (len byte : ℕ) (d : Decoder)
    → length d.written < len
    → write_byte len byte d ≡ ok (record d { written = d.written ++ (byte ∷ []) })
unfolding write_byte
put_byte len byte d h = ground arith

feed-digit :
    (len v : ℕ) (more : List ℕ) (d : Decoder)
    → v < 64
    → feed len (char_of v ∷ more) d ≡ (
        flush len (record d { value = d.value * 64 % 2 ^ 32 + v; bits = d.bits + 6 })
        >>= feed len more)
unfolding feed shift_in
feed-digit len v more d h =
    let g = digit v h in
    let e : d.value * 64 % 2 ^ 32 ≡ (d.value % 2 ^ 26) * 64 = omega arith in
    let w : ltb 63 v ≡ false = ground arith in
    rw (g.plain, g.back, w, feed, g.back, e, or_of_six (d.value % 2 ^ 26) v h)

flush_none : (len : ℕ) (d : Decoder) → d.bits < 8 → flush len d ≡ ok d
unfolding flush
flush_none len d h = ground arith

flush_put :
    (len byte : ℕ) (d : Decoder)
    → 8 ≤ d.bits
    → length d.written < len
    → bit_and (d.value / 2 ^ (d.bits - 8)) 0xff ≡ byte
    → flush len d
      ≡ ok (record { written = d.written ++ (byte ∷ []); bits = d.bits - 8; value = d.value })
unfolding flush
flush_put len byte d h fits e =
    let t : ltb d.bits 8 ≡ false = ground arith in
    rw (t, e) (put_byte len byte (record d { bits = d.bits - 8 }) fits)

-- The value after one more digit.
abbrev pub next : ℕ → ℕ → ℕ
next value v = value * 64 % 2 ^ 32 + v

pub feed-group :
    (len a b c d0 d1 d2 d3 value : ℕ) (written more : List ℕ)
    → a < 256
    → b < 256
    → c < 256
    → Digits a b c d0 d1 d2 d3
    → length written + 3 ≤ len
    → feed len
        (char_of d0 ∷ char_of d1 ∷ char_of d2 ∷ char_of d3 ∷ more)
        (record { written = written; bits = 0; value = value })
      ≡ feed len more (record {
        written = written ++ (a ∷ b ∷ c ∷ []);
        bits = 0;
        value = next (next (next (next value d0) d1) d2) d3;
      })
feed-group len a b c d0 d1 d2 d3 value written more ha hb hc ds fits =
    let v1 = next value d0 in
    let v2 = next v1 d1 in
    let v3 = next v2 d2 in
    let v4 = next v3 d3 in
    let l0 = ds.d0_lt in
    let l1 = ds.d1_lt in
    let l2 = ds.d2_lt in
    let l3 = ds.d3_lt in
    let s = ds.sum in
    let x : bit_and (v2 / 2 ^ 4) 0xff ≡ a = omega (arith, low_byte (v2 / 2 ^ 4)) in
    let y : bit_and (v3 / 2 ^ 2) 0xff ≡ b = omega (arith, low_byte (v3 / 2 ^ 2)) in
    let z : bit_and (v4 / 2 ^ 0) 0xff ≡ c = omega (arith, low_byte (v4 / 2 ^ 0)) in
    let n1 : length (written ++ (a ∷ [])) ≡ length written + 1 =
      omega (arith, length-append written (a ∷ [])) in
    let n2 : length ((written ++ (a ∷ [])) ++ (b ∷ [])) ≡ length written + 2 =
      omega (arith, n1, length-append (written ++ (a ∷ [])) (b ∷ [])) in
    rw (
      feed-digit len d0 (char_of d1 ∷ char_of d2 ∷ char_of d3 ∷ more)
          (record { written = written; bits = 0; value = value }) l0,
      flush_none len (record { written = written; bits = 6; value = v1 }) (omega arith),
      feed-digit len d1 (char_of d2 ∷ char_of d3 ∷ more)
          (record { written = written; bits = 6; value = v1 }) l1,
      flush_put len a (record { written = written; bits = 12; value = v2 }) (omega arith)
          (omega arith) x,
      feed-digit len d2 (char_of d3 ∷ more)
          (record { written = written ++ (a ∷ []); bits = 4; value = v2 }) l2,
      flush_put len b (record { written = written ++ (a ∷ []); bits = 10; value = v3 })
          (omega arith) (omega arith) y,
      feed-digit len d3 more
          (record { written = (written ++ (a ∷ [])) ++ (b ∷ []); bits = 2; value = v3 }) l3,
      flush_put len c (record { written = (written ++ (a ∷ [])) ++ (b ∷ []); bits = 8; value = v4 })
          (omega arith) (omega arith) z,
      append_assoc (written ++ (a ∷ [])) (b ∷ []) (c ∷ []),
      append_assoc written (a ∷ []) (b ∷ c ∷ []),
    )

-- ===== src/Payload/Video.antt =====
-- PayloadVideo of src/protocol/packet/payloads/PayloadBlob.h and PayloadBlob.cpp. A byte array of a fixed size is a
-- list, whose length `IsValid` states.
use ceema.Prelude.{
  ℕ, ◌+◌, ◌<◌, ◌≡◌, ◌≢◌, ◌^◌, ◌∙◌, sym, ap, ◌++◌, not, inl, inr, Bool-cases, List, [], ◌==◌, length,
  length-append, length_zero, All, append-nil, append_assoc, arith, Result, ok, err, runtime_error,
  out_of_bounds, ◌>>=◌, ◌>>◌, throw_if,
}
use ceema.Types.Bytes.{IsByte, le, length-le}
use ceema.Types.Iter.{
  Input, copy_iter, letoh, output, contents, copy, htole, copy-output, htole-output,
  copy_iter-append, copy_iter_whole, letoh-append, copy_iter-Reads, letoh-Reads, letoh-lt,
}

pub record PayloadVideo : Type 0 where
  pub duration : ℕ
  pub id : List ℕ
  pub size : ℕ
  pub thumb_id : List ℕ
  pub thumb_size : ℕ
  pub key : List ℕ

pub record IsValid (p : PayloadVideo) : Type 0 where
  pub duration_fits : p.duration < 2 ^ 16
  pub id_length : length p.id ≡ 16
  pub size_fits : p.size < 2 ^ 32
  pub thumb_id_length : length p.thumb_id ≡ 16
  pub thumb_size_fits : p.thumb_size < 2 ^ 32
  pub key_length : length p.key ≡ 32

-- PayloadVideoSize
abbrev pub payload_size : ℕ
payload_size = 2 + 16 + 4 + 16 + 4 + 32

unfoldable pub deserialize : Input → ℕ → Result PayloadVideo
deserialize payload_data size = do
  throw_if (not (size == payload_size)) runtime_error
  (duration, payload_data) ← letoh 2 payload_data
  (id, payload_data) ← copy_iter 16 payload_data
  (size_value, payload_data) ← letoh 4 payload_data
  (thumb_id, payload_data) ← copy_iter 16 payload_data
  (thumb_size, payload_data) ← letoh 4 payload_data
  (key, payload_data) ← copy_iter 32 payload_data
  ok (record {
    duration = duration;
    id = id;
    size = size_value;
    thumb_id = thumb_id;
    thumb_size = thumb_size;
    key = key;
  })

unfoldable pub serialize : PayloadVideo → Result (List ℕ)
serialize p = do
  iter ← htole 2 p.duration (output [] payload_size)
  iter ← copy p.id iter
  iter ← htole 4 p.size iter
  iter ← copy p.thumb_id iter
  iter ← htole 4 p.thumb_size iter
  iter ← copy p.key iter
  ok (contents iter)

-- The bytes of the payload.
abbrev pub layout : PayloadVideo → List ℕ
layout p =
    le 2 p.duration ++ (p.id ++ (le 4 p.size ++ (p.thumb_id ++ (le 4 p.thumb_size ++ p.key))))

pub serialize-layout : (p : PayloadVideo) → IsValid p → serialize p ≡ ok (layout p)
unfolding serialize
serialize-layout p v = ground (
  arith,
  htole-output 2 p.duration [] 74,
  copy-output p.id (le 2 p.duration) 16 72,
  htole-output 4 p.size ((le 2 p.duration) ++ p.id) 56,
  copy-output p.thumb_id (((le 2 p.duration) ++ p.id) ++ le 4 p.size) 16 52,
  htole-output 4 p.thumb_size ((((le 2 p.duration) ++ p.id) ++ le 4 p.size) ++ p.thumb_id) 36,
  copy-output p.key
      (((((le 2 p.duration) ++ p.id) ++ le 4 p.size) ++ p.thumb_id) ++ le 4 p.thumb_size) 32 32,
  append-nil (
      (((((le 2 p.duration) ++ p.id) ++ le 4 p.size) ++ p.thumb_id) ++ le 4 p.thumb_size) ++ p.key),
  append_assoc (le 2 p.duration) p.id (le 4 p.size ++ (p.thumb_id ++ (le 4 p.thumb_size ++ p.key))),
  append_assoc ((le 2 p.duration) ++ p.id) (le 4 p.size)
      (p.thumb_id ++ (le 4 p.thumb_size ++ p.key)),
  append_assoc (((le 2 p.duration) ++ p.id) ++ le 4 p.size) p.thumb_id (le 4 p.thumb_size ++ p.key),
  append_assoc ((((le 2 p.duration) ++ p.id) ++ le 4 p.size) ++ p.thumb_id) (le 4 p.thumb_size)
      p.key,
)

pub deserialize-layout : (p : PayloadVideo) → IsValid p → deserialize (layout p) payload_size ≡ ok p
unfolding deserialize
deserialize-layout p v = ground (
  arith,
  letoh-append 2 p.duration (p.id ++ (le 4 p.size ++ (p.thumb_id ++ (le 4 p.thumb_size ++ p.key)))),
  copy_iter-append 16 p.id (le 4 p.size ++ (p.thumb_id ++ (le 4 p.thumb_size ++ p.key))),
  letoh-append 4 p.size (p.thumb_id ++ (le 4 p.thumb_size ++ p.key)),
  copy_iter-append 16 p.thumb_id (le 4 p.thumb_size ++ p.key),
  letoh-append 4 p.thumb_size p.key,
  copy_iter_whole 32 p.key,
)

pub length-layout : (p : PayloadVideo) → IsValid p → length (layout p) ≡ payload_size
length-layout p v =
    omega (
      arith,
      length-append {0},
      length-le 2 p.duration,
      length-le 4 p.size,
      length-le 4 p.thumb_size,
    )

-- Every string of as many bytes as a video payload has is read as a video whose fields fit their
-- places and whose layout is that string.
layout-deserialize_video :
    (it : List ℕ)
    → All IsByte it
    → length it ≡ payload_size
    → (p : PayloadVideo) × (deserialize it payload_size ≡ ok p) × IsValid p × (layout p ≡ it)
unfolding deserialize
layout-deserialize_video it b h =
    let r0 = letoh-Reads 2 it (omega arith) b in
    let fits0 = letoh-lt 2 it b r0.reads in
    let r1 = copy_iter-Reads 16 r0.rest (omega (arith, r0.rest_size)) r0.rest_bytes in
    let r2 = letoh-Reads 4 r1.rest (omega (arith, r0.rest_size, r1.rest_size)) r1.rest_bytes in
    let fits2 = letoh-lt 4 r1.rest r1.rest_bytes r2.reads in
    let r3 =
      copy_iter-Reads 16 r2.rest (omega (arith, r0.rest_size, r1.rest_size, r2.rest_size))
        r2.rest_bytes in
    let r4 =
      letoh-Reads 4 r3.rest (omega (arith, r0.rest_size, r1.rest_size, r2.rest_size, r3.rest_size))
        r3.rest_bytes in
    let fits4 = letoh-lt 4 r3.rest r3.rest_bytes r4.reads in
    let r5 =
      copy_iter-Reads 32 r4.rest
        (omega (arith, r0.rest_size, r1.rest_size, r2.rest_size, r3.rest_size, r4.rest_size))
        r4.rest_bytes in
    let done : r5.rest ≡ [] = length_zero r5.rest (
      omega (
        arith, r0.rest_size, r1.rest_size, r2.rest_size, r3.rest_size, r4.rest_size, r5.rest_size,
      )) in
    (
      record {
        duration = r0.value;
        id = r1.value;
        size = r2.value;
        thumb_id = r3.value;
        thumb_size = r4.value;
        key = r5.value;
      },
      ground (arith, r0.reads, r1.reads, r2.reads, r3.reads, r4.reads, r5.reads),
      record {
        duration_fits = fits0;
        id_length = r1.value_size;
        size_fits = fits2;
        thumb_id_length = r3.value_size;
        thumb_size_fits = fits4;
        key_length = r5.value_size;
      },
      ap (λ t. le 2 r0.value ++ t)
            (ap (λ t. r1.value ++ t)
                (ap (λ t. le 4 r2.value ++ t)
                    (ap (λ t. r3.value ++ t)
                        (ap (λ t. le 4 r4.value ++ t)
                            (sym (append-nil r5.value)
                              ∙ ap (λ t. r5.value ++ t) (sym done)
                              ∙ r5.split)
                          ∙ r4.split)
                      ∙ r3.split)
                  ∙ r2.split)
              ∙ r1.split)
          ∙ r0.split,
    )

-- A payload is read back from the bytes that it is written to.
pub deserialize-serialize :
    (p : PayloadVideo)
    → IsValid p
    → (d : List ℕ) × (serialize p ≡ ok d) × (deserialize d (length d) ≡ ok p)
deserialize-serialize p v =
    (layout p, serialize-layout p v, rw (length-layout p v) (deserialize-layout p v))

-- Reading fails on a wrong size only, and never leaves the buffer.
pub deserialize_safe :
    (it : List ℕ) → All IsByte it → deserialize it (length it) ≢ err out_of_bounds
deserialize_safe it b = elim (Bool-cases (length it == payload_size)) [
  | inl e ↦
      let h : length it ≡ payload_size = ground arith in
      let (p, q, v, l) = layout-deserialize_video it b h in rw (h, q) (λ x. cc)
  | inr e ↦ unfold deserialize in rw e (λ x. cc)
]

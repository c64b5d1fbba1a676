-- ===== src/Payload/Audio.antt =====
-- PayloadAudio of src/protocol/packet/payloads/PayloadBlob.h and PayloadBlob.cpp. A byte array of a fixed size is a
-- list, whose length `IsValid` states.
use ceema.Prelude.{
  ℕ, ◌+◌, ◌<◌, ◌≡◌, ◌≢◌, ◌^◌, ◌∙◌, sym, ap, ◌++◌, not, inl, inr, Bool-cases, List, [], ◌==◌, length,
  length-append, length_zero, All, append-nil, append_assoc, arith, Result, ok, err, runtime_error,
  out_of_bounds, ◌>>=◌, ◌>>◌, throw_if,
}
use ceema.Types.Bytes.{IsByte, le, length-le}
use ceema.Types.Iter.{
  Input, copy_iter, letoh, output, contents, copy, htole, copy-output, htole-output,
  copy_iter-append, copy_iter_whole, letoh-append, copy_iter-Reads, letoh-Reads, letoh-lt,
}

pub record PayloadAudio : Type 0 where
  pub duration : ℕ
  pub id : List ℕ
  pub size : ℕ
  pub key : List ℕ

pub record IsValid (p : PayloadAudio) : Type 0 where
  pub duration_fits : p.duration < 2 ^ 16
  pub id_length : length p.id ≡ 16
  pub size_fits : p.size < 2 ^ 32
  pub key_length : length p.key ≡ 32

-- PayloadAudioSize
abbrev pub payload_size : ℕ
payload_size = 2 + 16 + 4 + 32

unfoldable pub deserialize : Input → ℕ → Result PayloadAudio
deserialize payload_data size = do
  throw_if (not (size == payload_size)) runtime_error
  (duration, payload_data) ← letoh 2 payload_data
  (id, payload_data) ← copy_iter 16 payload_data
  (size_value, payload_data) ← letoh 4 payload_data
  (key, payload_data) ← copy_iter 32 payload_data
  ok (record { duration = duration; id = id; size = size_value; key = key })

unfoldable pub serialize : PayloadAudio → Result (List ℕ)
serialize p = do
  iter ← htole 2 p.duration (output [] payload_size)
  iter ← copy p.id iter
  iter ← htole 4 p.size iter
  iter ← copy p.key iter
  ok (contents iter)

-- The bytes of the payload.
abbrev pub layout : PayloadAudio → List ℕ
layout p = le 2 p.duration ++ (p.id ++ (le 4 p.size ++ p.key))

pub serialize-layout : (p : PayloadAudio) → IsValid p → serialize p ≡ ok (layout p)
unfolding serialize
serialize-layout p v = ground (
  arith,
  htole-output 2 p.duration [] 54,
  copy-output p.id (le 2 p.duration) 16 52,
  htole-output 4 p.size ((le 2 p.duration) ++ p.id) 36,
  copy-output p.key (((le 2 p.duration) ++ p.id) ++ le 4 p.size) 32 32,
  append-nil ((((le 2 p.duration) ++ p.id) ++ le 4 p.size) ++ p.key),
  append_assoc (le 2 p.duration) p.id (le 4 p.size ++ p.key),
  append_assoc ((le 2 p.duration) ++ p.id) (le 4 p.size) p.key,
)

pub deserialize-layout : (p : PayloadAudio) → IsValid p → deserialize (layout p) payload_size ≡ ok p
unfolding deserialize
deserialize-layout p v = ground (
  arith,
  letoh-append 2 p.duration (p.id ++ (le 4 p.size ++ p.key)),
  copy_iter-append 16 p.id (le 4 p.size ++ p.key),
  letoh-append 4 p.size p.key,
  copy_iter_whole 32 p.key,
)

pub length-layout : (p : PayloadAudio) → IsValid p → length (layout p) ≡ payload_size
length-layout p v = omega (arith, length-append {0}, length-le 2 p.duration, length-le 4 p.size)

-- Every string of the right size is the layout of the payload that is read from it.
pub layout-deserialize :
    (it : List ℕ)
    → All IsByte it
    → length it ≡ payload_size
    → (p : PayloadAudio) × (deserialize it payload_size ≡ ok p) × IsValid p × (layout p ≡ it)
unfolding deserialize
layout-deserialize it b h =
    let r0 = letoh-Reads 2 it (omega arith) b in
    let fits0 = letoh-lt 2 it b r0.reads in
    let r1 = copy_iter-Reads 16 r0.rest (omega (arith, r0.rest_size)) r0.rest_bytes in
    let r2 = letoh-Reads 4 r1.rest (omega (arith, r0.rest_size, r1.rest_size)) r1.rest_bytes in
    let fits2 = letoh-lt 4 r1.rest r1.rest_bytes r2.reads in
    let r3 =
      copy_iter-Reads 32 r2.rest (omega (arith, r0.rest_size, r1.rest_size, r2.rest_size))
        r2.rest_bytes in
    let done : r3.rest ≡ [] =
      length_zero r3.rest (omega (arith, r0.rest_size, r1.rest_size, r2.rest_size, r3.rest_size)) in
    (
      record { duration = r0.value; id = r1.value; size = r2.value; key = r3.value },
      ground (arith, r0.reads, r1.reads, r2.reads, r3.reads),
      record {
        duration_fits = fits0;
        id_length = r1.value_size;
        size_fits = fits2;
        key_length = r3.value_size;
      },
      ap (λ t. le 2 r0.value ++ t)
            (ap (λ t. r1.value ++ t)
                (ap (λ t. le 4 r2.value ++ t)
                    (sym (append-nil r3.value) ∙ ap (λ t. r3.value ++ t) (sym done) ∙ r3.split)
                  ∙ r2.split)
              ∙ r1.split)
          ∙ r0.split,
    )

-- A payload is read back from the bytes that it is written to.
pub deserialize-serialize :
    (p : PayloadAudio)
    → IsValid p
    → (d : List ℕ) × (serialize p ≡ ok d) × (deserialize d (length d) ≡ ok p)
deserialize-serialize p v =
    (layout p, serialize-layout p v, rw (length-layout p v) (deserialize-layout p v))

-- Reading fails on a wrong size only, and never leaves the buffer.
pub deserialize_safe :
    (it : List ℕ) → All IsByte it → deserialize it (length it) ≢ err out_of_bounds
deserialize_safe it b = elim (Bool-cases (length it == payload_size)) [
  | inl e ↦
      let h : length it ≡ payload_size = ground arith in
      let (p, q, v, l) = layout-deserialize it b h in rw (h, q) (λ x. cc)
  | inr e ↦ unfold deserialize in rw e (λ x. cc)
]

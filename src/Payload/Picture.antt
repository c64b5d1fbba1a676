-- ===== src/Payload/Picture.antt =====
-- PayloadPicture of src/protocol/packet/payloads/PayloadBlob.h and PayloadBlob.cpp. A byte array of a fixed size is a
-- list, whose length `IsValid` states.
use ceema.Prelude.{
  ℕ, ◌+◌, ◌<◌, ◌≡◌, ◌≢◌, ◌^◌, ◌∙◌, sym, ap, ◌++◌, not, inl, inr, Bool-cases, List, [], ◌==◌, length,
  length-append, length_zero, All, append-nil, append_assoc, arith, Result, ok, err, runtime_error,
  out_of_bounds, ◌>>=◌, ◌>>◌, throw_if,
}
use ceema.Types.Bytes.{IsByte, le, length-le}
use ceema.Types.Iter.{
  Input, copy_iter, letoh, output, contents, copy, htole, copy-output, htole-output,
  copy_iter-append, copy_iter_whole, letoh-append, copy_iter-Reads, letoh-Reads, letoh-lt,
}

pub record PayloadPicture : Type 0 where
  pub id : List ℕ
  pub size : ℕ
  pub n : List ℕ

pub record IsValid (p : PayloadPicture) : Type 0 where
  pub id_length : length p.id ≡ 16
  pub size_fits : p.size < 2 ^ 32
  pub n_length : length p.n ≡ 24

-- blob_id::array_size + sizeof(blob_size) + nonce::array_size
abbrev pub payload_size : ℕ
payload_size = 16 + 4 + 24

unfoldable pub deserialize : Input → ℕ → Result PayloadPicture
deserialize payload_data size = do
  throw_if (not (size == payload_size)) runtime_error
  (id, payload_data) ← copy_iter 16 payload_data
  (size_value, payload_data) ← letoh 4 payload_data
  (n, payload_data) ← copy_iter 24 payload_data
  ok (record { id = id; size = size_value; n = n })

unfoldable pub serialize : PayloadPicture → Result (List ℕ)
serialize p = do
  iter ← copy p.id (output [] payload_size)
  iter ← htole 4 p.size iter
  iter ← copy p.n iter
  ok (contents iter)

-- The bytes of the payload.
abbrev pub layout : PayloadPicture → List ℕ
layout p = p.id ++ (le 4 p.size ++ p.n)

pub serialize-layout : (p : PayloadPicture) → IsValid p → serialize p ≡ ok (layout p)
unfolding serialize
serialize-layout p v = ground (
  arith,
  copy-output p.id [] 16 44,
  htole-output 4 p.size p.id 28,
  copy-output p.n (p.id ++ le 4 p.size) 24 24,
  append-nil ((p.id ++ le 4 p.size) ++ p.n),
  append_assoc p.id (le 4 p.size) p.n,
)

pub deserialize-layout :
    (p : PayloadPicture) → IsValid p → deserialize (layout p) payload_size ≡ ok p
unfolding deserialize
deserialize-layout p v = ground (
  arith,
  copy_iter-append 16 p.id (le 4 p.size ++ p.n),
  letoh-append 4 p.size p.n,
  copy_iter_whole 24 p.n,
)

pub length-layout : (p : PayloadPicture) → IsValid p → length (layout p) ≡ payload_size
length-layout p v = omega (arith, length-append {0}, length-le 4 p.size)

-- Every string of the right size is the layout of the payload that is read from it.
pub layout-deserialize :
    (it : List ℕ)
    → All IsByte it
    → length it ≡ payload_size
    → (p : PayloadPicture) × (deserialize it payload_size ≡ ok p) × IsValid p × (layout p ≡ it)
unfolding deserialize
layout-deserialize it b h =
    let r0 = copy_iter-Reads 16 it (omega arith) b in
    let r1 = letoh-Reads 4 r0.rest (omega (arith, r0.rest_size)) r0.rest_bytes in
    let fits1 = letoh-lt 4 r0.rest r0.rest_bytes r1.reads in
    let r2 = copy_iter-Reads 24 r1.rest (omega (arith, r0.rest_size, r1.rest_size)) r1.rest_bytes in
    let done : r2.rest ≡ [] =
      length_zero r2.rest (omega (arith, r0.rest_size, r1.rest_size, r2.rest_size)) in
    (
      record { id = r0.value; size = r1.value; n = r2.value },
      ground (arith, r0.reads, r1.reads, r2.reads),
      record { id_length = r0.value_size; size_fits = fits1; n_length = r2.value_size },
      ap (λ t. r0.value ++ t)
            (ap (λ t. le 4 r1.value ++ t)
                (sym (append-nil r2.value) ∙ ap (λ t. r2.value ++ t) (sym done) ∙ r2.split)
              ∙ r1.split)
          ∙ r0.split,
    )

-- A payload is read back from the bytes that it is written to.
pub deserialize-serialize :
    (p : PayloadPicture)
    → IsValid p
    → (d : List ℕ) × (serialize p ≡ ok d) × (deserialize d (length d) ≡ ok p)
deserialize-serialize p v =
    (layout p, serialize-layout p v, rw (length-layout p v) (deserialize-layout p v))

-- Reading fails on a wrong size only, and never leaves the buffer.
pub deserialize_safe :
    (it : List ℕ) → All IsByte it → deserialize it (length it) ≢ err out_of_bounds
deserialize_safe it b = elim (Bool-cases (length it == payload_size)) [
  | inl e ↦
      let h : length it ≡ payload_size = ground arith in
      let (p, q, v, l) = layout-deserialize it b h in rw (h, q) (λ x. cc)
  | inr e ↦ unfold deserialize in rw e (λ x. cc)
]

-- ===== src/Payload/GroupPicture.antt =====
-- PayloadGroupPicture of src/protocol/packet/payloads/PayloadGroup.h and PayloadGroup.cpp. A byte array of a fixed size is a
-- list, whose length `IsValid` states.
use ceema.Prelude.{
  ℕ, ◌+◌, ◌<◌, ◌≡◌, ◌≢◌, ◌^◌, ◌∙◌, sym, ap, ◌++◌, not, inl, inr, Bool-cases, List, [], ◌==◌, length,
  length-append, length_zero, All, append-nil, append_assoc, arith, Result, ok, err, runtime_error,
  out_of_bounds, ◌>>=◌, ◌>>◌, throw_if,
}
use ceema.Types.Bytes.{IsByte, le, length-le}
use ceema.Types.Iter.{
  Input, copy_iter, letoh, output, contents, copy, htole, copy-output, htole-output,
  copy_iter-append, copy_iter_whole, letoh-append, copy_iter-Reads, letoh-Reads, letoh-lt,
}

pub record PayloadGroupPicture : Type 0 where
  pub group : List ℕ
  pub id : List ℕ
  pub size : ℕ
  pub key : List ℕ

pub record IsValid (p : PayloadGroupPicture) : Type 0 where
  pub group_length : length p.group ≡ 16
  pub id_length : length p.id ≡ 16
  pub size_fits : p.size < 2 ^ 32
  pub key_length : length p.key ≡ 32

-- group_uid, blob_id, blob_size, shared_key
abbrev pub payload_size : ℕ
payload_size = 16 + 16 + 4 + 32

unfoldable pub deserialize : Input → ℕ → Result PayloadGroupPicture
deserialize payload_data size = do
  throw_if (not (size == payload_size)) runtime_error
  (group, payload_data) ← copy_iter 16 payload_data
  (id, payload_data) ← copy_iter 16 payload_data
  (size_value, payload_data) ← letoh 4 payload_data
  (key, payload_data) ← copy_iter 32 payload_data
  ok (record { group = group; id = id; size = size_value; key = key })

unfoldable pub serialize : PayloadGroupPicture → Result (List ℕ)
serialize p = do
  iter ← copy p.group (output [] payload_size)
  iter ← copy p.id iter
  iter ← htole 4 p.size iter
  iter ← copy p.key iter
  ok (contents iter)

-- The bytes of the payload.
abbrev pub layout : PayloadGroupPicture → List ℕ
layout p = p.group ++ (p.id ++ (le 4 p.size ++ p.key))

pub serialize-layout : (p : PayloadGroupPicture) → IsValid p → serialize p ≡ ok (layout p)
unfolding serialize
serialize-layout p v = ground (
  arith,
  copy-output p.group [] 16 68,
  copy-output p.id p.group 16 52,
  htole-output 4 p.size (p.group ++ p.id) 36,
  copy-output p.key ((p.group ++ p.id) ++ le 4 p.size) 32 32,
  append-nil (((p.group ++ p.id) ++ le 4 p.size) ++ p.key),
  append_assoc p.group p.id (le 4 p.size ++ p.key),
  append_assoc (p.group ++ p.id) (le 4 p.size) p.key,
)

pub deserialize-layout :
    (p : PayloadGroupPicture) → IsValid p → deserialize (layout p) payload_size ≡ ok p
unfolding deserialize
deserialize-layout p v = ground (
  arith,
  copy_iter-append 16 p.group (p.id ++ (le 4 p.size ++ p.key)),
  copy_iter-append 16 p.id (le 4 p.size ++ p.key),
  letoh-append 4 p.size p.key,
  copy_iter_whole 32 p.key,
)

pub length-layout : (p : PayloadGroupPicture) → IsValid p → length (layout p) ≡ payload_size
length-layout p v = omega (arith, length-append {0}, length-le 4 p.size)

-- Every string of the right size is the layout of the payload that is read from it.
pub layout-deserialize :
    (it : List ℕ)
    → All IsByte it
    → length it ≡ payload_size
    → (p : PayloadGroupPicture) × (deserialize it payload_size ≡ ok p) × IsValid p × (layout p ≡ it)
unfolding deserialize
layout-deserialize it b h =
    let r0 = copy_iter-Reads 16 it (omega arith) b in
    let r1 = copy_iter-Reads 16 r0.rest (omega (arith, r0.rest_size)) r0.rest_bytes in
    let r2 = letoh-Reads 4 r1.rest (omega (arith, r0.rest_size, r1.rest_size)) r1.rest_bytes in
    let fits2 = letoh-lt 4 r1.rest r1.rest_bytes r2.reads in
    let r3 =
      copy_iter-Reads 32 r2.rest (omega (arith, r0.rest_size, r1.rest_size, r2.rest_size))
        r2.rest_bytes in
    let done : r3.rest ≡ [] =
      length_zero r3.rest (omega (arith, r0.rest_size, r1.rest_size, r2.rest_size, r3.rest_size)) in
    (
      record { group = r0.value; id = r1.value; size = r2.value; key = r3.value },
      ground (arith, r0.reads, r1.reads, r2.reads, r3.reads),
      record {
        group_length = r0.value_size;
        id_length = r1.value_size;
        size_fits = fits2;
        key_length = r3.value_size;
      },
      ap (λ t. r0.value ++ t)
            (ap (λ t. r1.value ++ t)
                (ap (λ t. le 4 r2.value ++ t)
                    (sym (append-nil r3.value) ∙ ap (λ t. r3.value ++ t) (sym done) ∙ r3.split)
                  ∙ r2.split)
              ∙ r1.split)
          ∙ r0.split,
    )

-- A payload is read back from the bytes that it is written to.
pub deserialize-serialize :
    (p : PayloadGroupPicture)
    → IsValid p
    → (d : List ℕ) × (serialize p ≡ ok d) × (deserialize d (length d) ≡ ok p)
deserialize-serialize p v =
    (layout p, serialize-layout p v, rw (length-layout p v) (deserialize-layout p v))

-- Reading fails on a wrong size only, and never leaves the buffer.
pub deserialize_safe :
    (it : List ℕ) → All IsByte it → deserialize it (length it) ≢ err out_of_bounds
deserialize_safe it b = elim (Bool-cases (length it == payload_size)) [
  | inl e ↦
      let h : length it ≡ payload_size = ground arith in
      let (p, q, v, l) = layout-deserialize it b h in rw (h, q) (λ x. cc)
  | inr e ↦ unfold deserialize in rw e (λ x. cc)
]

-- ===== src/Payload/Group.antt =====
-- The template PayloadGroupBase of src/protocol/packet/payloads/PayloadGroup.h: a payload behind the
-- 16 bytes of its group.
use ceema.Prelude.{
  ℕ, ◌+◌, ◌-◌, ◌≡◌, ◌≢◌, List, ◌++◌, ltb, length, length-append, All, arith, inl, inr, Bool-cases,
  Result, ok, err, runtime_error, out_of_bounds, ◌>>=◌, ◌>>◌, throw_if,
}
use ceema.Types.Bytes.{IsByte}
use ceema.Types.Iter.{Input, copy_iter, copy_iter-append, copy_iter-Reads}

pub record PayloadGroup (P : Type 0) : Type 0 where
  pub group : List ℕ
  pub payload : P

unfoldable pub deserialize :
    {P : Type 0} → (Input → ℕ → Result P) → Input → ℕ → Result (PayloadGroup P)
deserialize deserialize_payload payload_data size = do
  throw_if (ltb size 16) runtime_error
  (group, payload_data) ← copy_iter 16 payload_data
  payload ← deserialize_payload payload_data (size - 16)
  ok (record { group = group; payload = payload })

unfoldable pub serialize : {P : Type 0} → (P → Result (List ℕ)) → PayloadGroup P → Result (List ℕ)
serialize serialize_payload p = do
  payload_data ← serialize_payload p.payload
  ok (p.group ++ payload_data)

module _ {P : Type 0} (des : Input → ℕ → Result P) (ser : P → Result (List ℕ)) where
  -- A group payload is read back where the payload inside it is.
  pub deserialize-serialize :
      (p : PayloadGroup P) (d : List ℕ)
      → length p.group ≡ 16
      → ser p.payload ≡ ok d
      → des d (length d) ≡ ok p.payload
      → (serialize ser p ≡ ok (p.group ++ d))
        × (deserialize des (p.group ++ d) (length (p.group ++ d)) ≡ ok p)
  unfolding deserialize serialize
  deserialize-serialize p d h s r =
      let n : length (p.group ++ d) ≡ 16 + length d = omega (arith, length-append p.group d) in
      let k : 16 + length d - 16 ≡ length d = omega arith in
      (rw s, rw n (ground (arith, copy_iter-append 16 p.group d h, k)))

  -- It is read inside its buffer where the payload inside it is.
  pub deserialize_safe :
      ((it : List ℕ) → All IsByte it → des it (length it) ≢ err out_of_bounds)
      → (it : List ℕ) → All IsByte it
      → deserialize des it (length it) ≢ err out_of_bounds
  unfolding deserialize
  deserialize_safe safe it b = elim (Bool-cases (ltb (length it) 16)) [
    | inl e ↦ rw e (λ x. cc)
    | inr e ↦
        let r = copy_iter-Reads 16 it (ground arith) b in
        let k : length it - 16 ≡ length r.rest = omega (arith, r.rest_size) in
        rw (e, r.reads, k) (inner (des r.rest (length r.rest)) r.value (safe r.rest r.rest_bytes))
  ]
    where
      wrap : List ℕ → P → Result (PayloadGroup P)
      wrap g p = ok (record { group = g; payload = p })

      inner :
          (m : Result P) (g : List ℕ) → m ≢ err out_of_bounds → (m >>= wrap g) ≢ err out_of_bounds
      inner (ok p) g h x = cc
      inner (err e) g h x = ground arith

-- ===== src/Payload/GroupMembers.antt =====
-- PayloadGroupMembers of src/protocol/packet/payloads/PayloadGroupControl.h and
-- PayloadGroupControl.cpp.
use ceema.Prelude.{
  ℕ, ◌+◌, ◌-◌, ◌*◌, ◌/◌, ◌%◌, ◌≡◌, ◌≢◌, not, inl, inr, ◌||◌, Bool-cases, List, [], ◌++◌, ltb, ◌==◌,
  length, length-append, All, append-nil, arith, Result, ok, err, runtime_error, out_of_bounds,
  ◌>>=◌, ◌>>◌, throw_if,
}
use ceema.Types.Bytes.{IsByte}
use ceema.Types.Iter.{
  Input, copy_iter, output, contents, copy, copy-output, copy_iter-append, copy_iter-Reads,
}
use ceema.Types.Ids.{
  IsId, concat, read_ids, copy_ids, length-concat, read_ids-concat, copy_ids-output, read_ids_ok,
}

pub record PayloadGroupMembers : Type 0 where
  pub group : List ℕ
  pub members : List (List ℕ)

pub record IsValid (p : PayloadGroupMembers) : Type 0 where
  pub group_length : length p.group ≡ 8
  pub member_ids : All IsId p.members

unfoldable pub deserialize : Input → ℕ → Result PayloadGroupMembers
deserialize payload_data size = do
  throw_if (ltb size 8 || not ((size - 8) % 8 == 0)) runtime_error
  (group, payload_data) ← copy_iter 8 payload_data
  (members, payload_data) ← read_ids ((size - 8) / 8) payload_data
  ok (record { group = group; members = members })

unfoldable pub serialize : PayloadGroupMembers → Result (List ℕ)
serialize p = do
  iter ← copy p.group (output [] (8 + length p.members * 8))
  iter ← copy_ids p.members iter
  ok (contents iter)

serialize-layout :
    (p : PayloadGroupMembers) → IsValid p → serialize p ≡ ok (p.group ++ concat p.members)
unfolding serialize
serialize-layout p v = ground (
  arith,
  copy-output p.group [] 8 (8 + length p.members * 8),
  copy_ids-output p.members p.group (8 + length p.members * 8 - 8) v.member_ids,
  (let e : 8 + length p.members * 8 - 8 - 8 * length p.members ≡ 0 = omega arith in e),
  append-nil (p.group ++ concat p.members),
)

deserialize-layout :
    (p : PayloadGroupMembers) (n : ℕ)
    → IsValid p
    → n ≡ 8 + length p.members * 8
    → deserialize (p.group ++ concat p.members) n ≡ ok p
unfolding deserialize
deserialize-layout p n v e =
    let k : (n - 8) / 8 ≡ length p.members = omega arith in
    ground (
      arith,
      k,
      copy_iter-append 8 p.group (concat p.members),
      read_ids-concat p.members [] v.member_ids,
      append-nil (concat p.members),
    )

-- A member list is read back from the bytes that it is written to.
pub deserialize-serialize :
    (p : PayloadGroupMembers)
    → IsValid p
    → (d : List ℕ) × (serialize p ≡ ok d) × (deserialize d (length d) ≡ ok p)
deserialize-serialize p v = (
  p.group ++ concat p.members,
  serialize-layout p v,
  deserialize-layout p _ v (
      omega (
        arith,
        v.group_length,
        length-append p.group (concat p.members),
        length-concat p.members v.member_ids,
      )),
)

-- Reading fails on a wrong size only, and never leaves the buffer.
pub deserialize_safe :
    (it : List ℕ) → All IsByte it → deserialize it (length it) ≢ err out_of_bounds
unfolding deserialize
deserialize_safe it b = elim (Bool-cases (ltb (length it) 8)) [
  | inl e ↦ rw e (λ x. cc)
  | inr e ↦
      let r = copy_iter-Reads 8 it (ground arith) b in
      let n : ℕ = (length it - 8) / 8 in
      let (ids, rest, f, _, _, _) =
        read_ids_ok n r.rest (omega (arith, r.rest_size)) r.rest_bytes in
      ground (arith, r.reads, f)
]

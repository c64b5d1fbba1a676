-- ===== src/Payload/GroupLeave.antt =====
-- PayloadGroupLeave of src/protocol/packet/payloads/PayloadGroup.h and PayloadGroup.cpp.
use ceema.Prelude.{
  ℕ, ◌≡◌, ◌≢◌, refl, List, ◌++◌, ltb, length, length-append, arith, Result, ok, err, runtime_error,
  out_of_bounds, ◌>>=◌, ◌>>◌, throw_if,
}
use ceema.Types.Iter.{Input, copy_iter, copy_iter-append, copy_iter_ok}

pub record PayloadGroupLeave : Type 0 where
  pub group : List ℕ

unfoldable pub deserialize : Input → ℕ → Result PayloadGroupLeave
deserialize payload_data size = do
  throw_if (ltb size 16) runtime_error
  (group, payload_data) ← copy_iter 16 payload_data
  ok (record { group = group })

unfoldable pub serialize : PayloadGroupLeave → Result (List ℕ)
serialize p = ok p.group

-- The group is read back from the bytes that it is written to, whatever bytes follow.
pub deserialize-serialize :
    (p : PayloadGroupLeave) (rest : List ℕ)
    → length p.group ≡ 16
    → (d : List ℕ) × (serialize p ≡ ok d) × (deserialize (d ++ rest) (length (d ++ rest)) ≡ ok p)
unfolding deserialize serialize
deserialize-serialize p rest h =
    (p.group, refl, ground (arith, copy_iter-append 16 p.group rest h, length-append p.group rest))

-- Reading fails on a short payload only, and never leaves the buffer.
pub deserialize_safe : (it : List ℕ) → deserialize it (length it) ≢ err out_of_bounds
unfolding deserialize
deserialize_safe it = ground (arith, copy_iter_ok 16 it)

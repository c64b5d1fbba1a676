-- ===== src/Payload/GroupSync.antt =====
-- PayloadGroupSync of src/protocol/packet/payloads/PayloadGroupControl.h and PayloadGroupControl.cpp.
use ceema.Prelude.{
  ℕ, ◌≡◌, ◌≢◌, not, List, [], ◌==◌, length, append-nil, arith, Result, ok, err, runtime_error,
  out_of_bounds, ◌>>=◌, ◌>>◌, throw_if,
}
use ceema.Types.Iter.{Input, copy_iter, output, contents, copy, copy-output, copy_iter_whole}

pub record PayloadGroupSync : Type 0 where
  pub group : List ℕ

unfoldable pub deserialize : Input → ℕ → Result PayloadGroupSync
deserialize payload_data size = do
  throw_if (not (size == 8)) runtime_error
  (group, _) ← copy_iter 8 payload_data
  ok (record { group = group })

unfoldable pub serialize : PayloadGroupSync → Result (List ℕ)
serialize p = do iter ← copy p.group (output [] 8); ok (contents iter)

-- A group is read back from the bytes that it is written to.
pub deserialize-serialize :
    (p : PayloadGroupSync)
    → length p.group ≡ 8
    → (d : List ℕ) × (serialize p ≡ ok d) × (deserialize d (length d) ≡ ok p)
unfolding deserialize serialize
deserialize-serialize p h = (
  p.group,
  ground (arith, copy-output p.group [] 8 8 h, append-nil p.group),
  ground (arith, copy_iter_whole 8 p.group h),
)

-- Reading fails on a wrong size only, and never leaves the buffer.
pub deserialize_safe : (it : List ℕ) → deserialize it (length it) ≢ err out_of_bounds
unfolding deserialize
deserialize_safe it = ground (arith, copy_iter_whole 8 it)

-- ===== src/Payload/GroupTitle.antt =====
-- PayloadGroupTitle of src/protocol/packet/payloads/PayloadGroupControl.h and PayloadGroupControl.cpp.
use ceema.Prelude.{
  ℕ, ◌+◌, ◌-◌, ◌≡◌, ◌≢◌, refl, inl, inr, Bool-cases, List, [], ◌++◌, ltb, length, length-append,
  All, append-nil, arith, Result, ok, err, runtime_error, out_of_bounds, ◌>>=◌, ◌>>◌, throw_if,
}
use ceema.Types.Bytes.{IsByte}
use ceema.Types.Iter.{
  Input, copy_iter, output, contents, copy, copy-output, copy_iter-append, copy_iter_whole,
  copy_iter-Reads,
}

pub record PayloadGroupTitle : Type 0 where
  pub group : List ℕ
  pub title : List ℕ

unfoldable pub deserialize : Input → ℕ → Result PayloadGroupTitle
deserialize payload_data size = do
  throw_if (ltb size 8) runtime_error
  (group, payload_data) ← copy_iter 8 payload_data
  (title, payload_data) ← copy_iter (size - 8) payload_data
  ok (record { group = group; title = title })

unfoldable pub serialize : PayloadGroupTitle → Result (List ℕ)
serialize p = do
  iter ← copy p.group (output [] (8 + length p.title))
  iter ← copy p.title iter
  ok (contents iter)

serialize-layout :
    (p : PayloadGroupTitle) → length p.group ≡ 8 → serialize p ≡ ok (p.group ++ p.title)
unfolding serialize
serialize-layout p h = ground (
  arith,
  copy-output p.group [] 8 (8 + length p.title),
  copy-output p.title p.group (length p.title) (8 + length p.title - 8) refl,
  (let e : 8 + length p.title - 8 - length p.title ≡ 0 = omega arith in e),
  append-nil (p.group ++ p.title),
)

deserialize-layout :
    (p : PayloadGroupTitle) (n : ℕ)
    → length p.group ≡ 8
    → n ≡ 8 + length p.title
    → deserialize (p.group ++ p.title) n ≡ ok p
unfolding deserialize
deserialize-layout p n h e =
    let k : length p.title ≡ n - 8 = omega arith in
    ground (arith, copy_iter-append 8 p.group p.title h, copy_iter_whole (n - 8) p.title k)

-- A title is read back from the bytes that it is written to.
pub deserialize-serialize :
    (p : PayloadGroupTitle)
    → length p.group ≡ 8
    → (d : List ℕ) × (serialize p ≡ ok d) × (deserialize d (length d) ≡ ok p)
deserialize-serialize p h = (
  p.group ++ p.title,
  serialize-layout p h,
  deserialize-layout p _ h (omega (arith, length-append p.group p.title)),
)

-- Reading fails on a short payload only, and never leaves the buffer.
pub deserialize_safe :
    (it : List ℕ) → All IsByte it → deserialize it (length it) ≢ err out_of_bounds
unfolding deserialize
deserialize_safe it b = elim (Bool-cases (ltb (length it) 8)) [
  | inl e ↦ rw e (λ x. cc)
  | inr e ↦
      let r = copy_iter-Reads 8 it (ground arith) b in
      let f : length r.rest ≡ length it - 8 = omega (arith, r.rest_size) in
      ground (arith, r.reads, copy_iter_whole (length it - 8) r.rest f)
]

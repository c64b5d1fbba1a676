-- ===== src/Payload/GroupIcon.antt =====
-- PayloadGroupIcon of src/protocol/packet/payloads/PayloadGroupControl.h and PayloadGroupControl.cpp.
-- `deserialize` does not advance its iterator past the group, and `serialize` does not advance past
-- the size, so both are written with the iterators that the code really uses.
use ceema.Prelude.{
  ℕ, ◌+◌, ◌≡◌, ◌≢◌, refl, not, List, [], ◌∷◌, ◌++◌, ◌==◌, length, length-append, arith, Result, ok,
  err, runtime_error, ◌>>=◌, ◌>>◌, throw_if,
}
use ceema.Types.Bytes.{le}
use ceema.Types.Iter.{Input, copy_iter, letoh, output, contents, copy, poke, copy-output}

pub record PayloadGroupIcon : Type 0 where
  pub group : List ℕ
  pub id : List ℕ
  pub size : ℕ
  pub key : List ℕ

pub record IsValid (p : PayloadGroupIcon) : Type 0 where
  pub group_length : length p.group ≡ 8
  pub id_length : length p.id ≡ 16
  pub key_length : length p.key ≡ 32

unfoldable pub deserialize : Input → ℕ → Result PayloadGroupIcon
deserialize payload_data size = do
  throw_if (not (size == 8)) runtime_error
  (group, _) ← copy_iter 8 payload_data
  (id, payload_data) ← copy_iter 16 payload_data
  (size_value, payload_data) ← letoh 4 payload_data
  (key, payload_data) ← copy_iter 32 payload_data
  ok (record { group = group; id = id; size = size_value; key = key })

unfoldable pub serialize : PayloadGroupIcon → Result (List ℕ)
serialize p = do
  iter ← copy p.group (output [] (8 + 16 + 4 + 32))
  iter ← copy p.id iter
  iter ← poke 4 p.size iter
  iter ← copy p.key iter
  ok (contents iter)

-- A number that is written without advancing is written over.
poke_over :
    (before : List ℕ) (v : ℕ) (key : List ℕ)
    → length key ≡ 32
    → (poke 4 v (output before 36) >>= copy key)
      ≡ ok (record { before = before ++ key; ahead = 0 ∷ 0 ∷ 0 ∷ 0 ∷ [] })
unfolding poke copy le
poke_over before v key h = rw h

-- What is written has the key where the size should stand, and four zero bytes behind it: the size of
-- the icon is lost.
pub serialize-layout :
    (p : PayloadGroupIcon)
    → IsValid p
    → serialize p ≡ ok (((p.group ++ p.id) ++ p.key) ++ (0 ∷ 0 ∷ 0 ∷ 0 ∷ []))
unfolding serialize
serialize-layout p v = ground (
  arith,
  copy-output p.group [] 8 60,
  copy-output p.id p.group 16 52,
  poke_over (p.group ++ p.id) p.size p.key,
)

-- No size is accepted: eight bytes are too few for the fields, and any other number is refused.
pub deserialize_fails : (it : List ℕ) (p : PayloadGroupIcon) → deserialize it (length it) ≢ ok p
unfolding deserialize copy_iter
deserialize_fails it p = ground arith

-- No group icon whose group, id and key have their lengths is read back from the bytes that it is
-- written to.
pub deserialize-serialize_fails :
    (p : PayloadGroupIcon)
    → IsValid p
    → (d : List ℕ) × (serialize p ≡ ok d) × (deserialize d (length d) ≡ err runtime_error)
deserialize-serialize_fails p v =
    let d : List ℕ = ((p.group ++ p.id) ++ p.key) ++ (0 ∷ 0 ∷ 0 ∷ 0 ∷ []) in
    let n : length d ≡ 60 =
      omega (arith, v.group_length, v.id_length, v.key_length, length-append {0}) in
    (d, serialize-layout p v, rw n (unfold deserialize in refl))

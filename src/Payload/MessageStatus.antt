-- ===== src/Payload/MessageStatus.antt =====
-- PayloadMessageStatus of src/protocol/packet/payloads/PayloadControl.h and PayloadControl.cpp. The
-- status is the byte of the enum class MessageStatus, any value of which C++ admits.
use ceema.Prelude.{
  ℕ, ◌+◌, ◌-◌, ◌*◌, ◌/◌, ◌%◌, ◌≡◌, ◌≢◌, not, ◌||◌, List, [], ◌∷◌, ◌==◌, length, All, append-nil,
  arith, Result, ok, err, runtime_error, out_of_bounds, ◌>>=◌, ◌>>◌, throw_if,
}
use ceema.Types.Bytes.{IsByte}
use ceema.Types.Iter.{Input, next_byte, output, contents, copy, copy-output}
use ceema.Types.Ids.{
  IsId, concat, read_ids, copy_ids, length-concat, read_ids-concat, copy_ids-output, read_ids_ok,
}

pub record PayloadMessageStatus : Type 0 where
  pub status : ℕ
  pub ids : List (List ℕ)

abbrev pub received : ℕ
received = 0x01

abbrev pub seen : ℕ
seen = 0x02

abbrev pub agreed : ℕ
agreed = 0x03

abbrev pub disagreed : ℕ
disagreed = 0x04

unfoldable pub deserialize : Input → ℕ → Result PayloadMessageStatus
unfolding next_byte
deserialize payload_data size = do
  throw_if (size == 0 || not ((size - 1) % 8 == 0)) runtime_error
  (status, payload_data) ← next_byte payload_data
  (ids, payload_data) ← read_ids ((size - 1) / 8) payload_data
  ok (record { status = status; ids = ids })

unfoldable pub serialize : PayloadMessageStatus → Result (List ℕ)
serialize p = do
  iter ← copy (p.status ∷ []) (output [] (1 + length p.ids * 8))
  iter ← copy_ids p.ids iter
  ok (contents iter)

serialize-layout :
    (p : PayloadMessageStatus) → All IsId p.ids → serialize p ≡ ok (p.status ∷ concat p.ids)
unfolding serialize
serialize-layout p v = ground (
  arith,
  copy-output (p.status ∷ []) [] 1 (1 + length p.ids * 8),
  copy_ids-output p.ids (p.status ∷ []) (1 + length p.ids * 8 - 1) v,
  (let e : 1 + length p.ids * 8 - 1 - 8 * length p.ids ≡ 0 = omega arith in e),
  append-nil (p.status ∷ concat p.ids),
)

deserialize-layout :
    (p : PayloadMessageStatus) (n : ℕ)
    → All IsId p.ids
    → n ≡ 1 + length p.ids * 8
    → deserialize (p.status ∷ concat p.ids) n ≡ ok p
unfolding deserialize
deserialize-layout p n v e =
    let k : (n - 1) / 8 ≡ length p.ids = omega arith in
    ground (arith, k, read_ids-concat p.ids [] v, append-nil (concat p.ids))

-- A status with identifiers of eight bytes is read back from the bytes that it is written to.
pub deserialize-serialize :
    (p : PayloadMessageStatus)
    → All IsId p.ids
    → (d : List ℕ) × (serialize p ≡ ok d) × (deserialize d (length d) ≡ ok p)
deserialize-serialize p v = (
  p.status ∷ concat p.ids,
  serialize-layout p v,
  deserialize-layout p _ v (omega (arith, length-concat p.ids v)),
)

-- Reading fails on a wrong size only, and never leaves the buffer.
pub deserialize_safe :
    (it : List ℕ) → All IsByte it → deserialize it (length it) ≢ err out_of_bounds
unfolding deserialize
deserialize_safe [] b = ground arith
deserialize_safe (x ∷ it) b =
    let n : ℕ = (length (x ∷ it) - 1) / 8 in
    let (ids, rest, e, _, _, _) = read_ids_ok n it (omega arith) b.1 in ground (arith, e)

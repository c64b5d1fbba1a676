-- ===== src/Payload/Typing.antt =====
-- PayloadTyping of src/protocol/packet/payloads/PayloadControl.h and PayloadControl.cpp.
use ceema.Prelude.{
  ℕ, ◌≡◌, ◌≢◌, refl, not, Bool, List, [], ◌∷◌, ◌==◌, if◌then◌else◌, length, arith, Result, ok, err,
  runtime_error, out_of_bounds, ◌>>=◌, ◌>>◌, throw_if,
}
use ceema.Types.Iter.{Input, next_byte}

pub record PayloadTyping : Type 0 where
  pub typing : Bool

unfoldable pub deserialize : Input → ℕ → Result PayloadTyping
unfolding next_byte
deserialize payload_data size = do
  throw_if (not (size == 1)) runtime_error
  (b, payload_data) ← next_byte payload_data
  ok (record { typing = not (b == 0) })

unfoldable pub serialize : PayloadTyping → Result (List ℕ)
serialize p = ok (if p.typing then 1 ∷ [] else 0 ∷ [])

-- The flag is read back from the byte that it is written to.
pub deserialize-serialize :
    (p : PayloadTyping) → (d : List ℕ) × (serialize p ≡ ok d) × (deserialize d (length d) ≡ ok p)
unfolding deserialize serialize
deserialize-serialize p = (if p.typing then 1 ∷ [] else 0 ∷ [], refl, ground arith)

-- Reading fails on a wrong size only, and never leaves the buffer.
pub deserialize_safe : (it : List ℕ) → deserialize it (length it) ≢ err out_of_bounds
unfolding deserialize
deserialize_safe [] = ground arith
deserialize_safe (b ∷ it) = ground arith

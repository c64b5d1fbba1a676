-- ===== src/Payload/IconClear.antt =====
-- PayloadIconClear of src/protocol/packet/payloads/PayloadBlob.h and PayloadBlob.cpp, which is empty.
use ceema.Prelude.{
  ℕ, ◌≡◌, ◌≢◌, refl, not, List, [], ◌==◌, length, arith, Result, ok, err, runtime_error,
  out_of_bounds, ◌>>◌, throw_if,
}
use ceema.Types.Iter.{Input}

pub data PayloadIconClear : Type 0 where
  icon_clear : PayloadIconClear

unfoldable pub deserialize : Input → ℕ → Result PayloadIconClear
deserialize payload_data size = do throw_if (not (size == 0)) runtime_error; ok icon_clear

unfoldable pub serialize : PayloadIconClear → Result (List ℕ)
serialize p = ok []

pub deserialize-serialize :
    (p : PayloadIconClear) → (d : List ℕ) × (serialize p ≡ ok d) × (deserialize d (length d) ≡ ok p)
unfolding deserialize serialize
deserialize-serialize icon_clear = ([], refl, refl)

pub deserialize_safe : (it : List ℕ) → deserialize it (length it) ≢ err out_of_bounds
unfolding deserialize
deserialize_safe it = ground arith

-- ===== src/Payload/Text.antt =====
-- PayloadText of src/protocol/packet/payloads/PayloadText.h and PayloadText.cpp. The text is its UTF-8
-- bytes.
use ceema.Prelude.{
  ℕ, ◌≡◌, ◌≢◌, refl, List, [], ltb, length, length_zero, arith, Result, ok, err, runtime_error,
  out_of_bounds, ◌>>=◌, ◌>>◌, throw_if,
}
use ceema.Types.Iter.{Input, copy_iter, copy_iter_whole}

pub record PayloadText : Type 0 where
  pub text : List ℕ

unfoldable pub deserialize : Input → ℕ → Result PayloadText
deserialize payload_data size = do
  throw_if (ltb size 1) runtime_error
  (text, payload_data) ← copy_iter size payload_data
  ok (record { text = text })

unfoldable pub serialize : PayloadText → Result (List ℕ)
serialize p = ok p.text

-- A text that is not empty is read back from the bytes that it is written to.
pub deserialize-serialize :
    (p : PayloadText)
    → p.text ≢ []
    → (d : List ℕ) × (serialize p ≡ ok d) × (deserialize d (length d) ≡ ok p)
unfolding deserialize serialize
deserialize-serialize p h =
    (p.text, refl, ground (arith, copy_iter_whole (length p.text) p.text refl, length_zero p.text))

-- Reading fails on the empty text only, and never leaves the buffer.
pub deserialize_safe : (it : List ℕ) → deserialize it (length it) ≢ err out_of_bounds
unfolding deserialize
deserialize_safe it = ground (arith, copy_iter_whole (length it) it refl)

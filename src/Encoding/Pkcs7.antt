-- ===== src/Encoding/Pkcs7.antt =====
-- src/encoding/pkcs7.h: padding of a buffer by 1 to 255 bytes, each the number of them.
use ceema.Prelude.{
  ℕ, zero, suc, ◌+◌, ◌-◌, ◌%◌, ◌<◌, ◌≡◌, refl, List, [], ◌∷◌, ◌++◌, ltb, ◌==◌, if◌then◌else◌,
  length, length-append, length-replicate, replicate, take, take-append, arith, Result, ok, err,
  logic_error, out_of_bounds, ◌>>=◌,
}

-- The padding byte, from the random number that is drawn for it.
unfoldable pub pad_byte : ℕ → ℕ
pad_byte random = if random % 256 == 0 then 1 else random % 256

unfoldable pub add_padding : ℕ → List ℕ → List ℕ
unfolding pad_byte
add_padding random data_bytes = data_bytes ++ replicate (pad_byte random) (pad_byte random)

-- `data.back()`, which an empty vector does not have.
unfoldable pub back : List ℕ → Result ℕ
back [] = err out_of_bounds
back (x ∷ []) = ok x
back (x ∷ y ∷ r) = back (y ∷ r)

-- `resize` to a size below zero throws std::length_error, a logic_error.
unfoldable pub strip_padding : List ℕ → Result (List ℕ)
unfolding back
strip_padding data_bytes = do
  val ← back data_bytes
  if ltb (length data_bytes) val
      then err logic_error
      else ok (take (length data_bytes - val) data_bytes)

back-append : (xs : List ℕ) (y : ℕ) (ys : List ℕ) → back (xs ++ (y ∷ ys)) ≡ back (y ∷ ys)
unfolding back
back-append [] y ys = refl
back-append (x ∷ []) y ys = refl
back-append (x ∷ x' ∷ xs) y ys = back-append (x' ∷ xs) y ys

back-replicate : (n v : ℕ) → back (replicate (suc n) v) ≡ ok v
unfolding back
back-replicate zero v = refl
back-replicate (suc n) v = back-replicate n v

-- The padding byte is never 0, and fits a byte.
pub pad_byte_bounds : (random : ℕ) → (0 < pad_byte random) × (pad_byte random < 256)
unfolding pad_byte
pad_byte_bounds random = ground arith

strip_replicate :
    (n v : ℕ) (xs : List ℕ) → v ≡ suc n → strip_padding (xs ++ replicate (suc n) v) ≡ ok xs
unfolding strip_padding
strip_replicate n v xs e =
    let l : length (xs ++ replicate (suc n) v) ≡ length xs + v =
      omega (arith, length-append xs (replicate (suc n) v), length-replicate n v) in
    let k : length xs ≡ length xs + v - v = omega arith in
    ground (
      arith,
      back-append xs v (replicate n v),
      back-replicate n v,
      l,
      take-append (length xs + v - v) xs (replicate (suc n) v) k,
    )

-- Padding is taken off again, whatever the random number and the buffer.
pub strip_padding-add_padding :
    (random : ℕ) (data_bytes : List ℕ)
    → strip_padding (add_padding random data_bytes) ≡ ok data_bytes
unfolding add_padding
strip_padding-add_padding random data_bytes = go (pad_byte random) refl (pad_byte_bounds random).0
  where
    go : (v : ℕ) → v ≡ v → 0 < v → strip_padding (data_bytes ++ replicate v v) ≡ ok data_bytes
    go zero e h = absurd (omega arith)
    go (suc n) e h = strip_replicate n (suc n) data_bytes refl

-- ===== src/Types/Bytes.antt =====
-- Little-endian numbers in byte buffers (protocol/protocol.h: `htole` and `letoh` on the supported
-- platforms).
use ceema.Prelude.{
  ℕ, zero, suc, ◌+◌, ◌*◌, ◌/◌, ◌%◌, ◌^◌, ◌<◌, ◌≡◌, refl, ap, List, [], ◌∷◌, arith, length, All,
}
use native.Mathlib.Nat.{pow-suc}

abbrev pub IsByte : ℕ → Type 0
IsByte b = b < 256

-- The bytes of a little-endian number of `w` bytes: `*reinterpret_cast<T*>(buffer) = value`.
unfoldable pub le : ℕ → ℕ → List ℕ
le zero v = []
le (suc w) v = (v % 256) ∷ le w (v / 256)

-- `*reinterpret_cast<T const*>(buffer)`.
unfoldable pub of_le : List ℕ → ℕ
of_le [] = 0
of_le (b ∷ bs) = b + 256 * of_le bs

pub length-le : (w v : ℕ) → length (le w v) ≡ w
unfolding le
length-le zero v = refl
length-le (suc w) v = ap suc (length-le w (v / 256))

pub le-IsByte : (w v : ℕ) → All IsByte (le w v)
unfolding le
le-IsByte zero v = tt
le-IsByte (suc w) v = (omega arith, le-IsByte w (v / 256))

pub of_le-le : (w v : ℕ) → v < 256 ^ w → of_le (le w v) ≡ v
unfolding le of_le
of_le-le zero v h = omega arith
of_le-le (suc w) v h = omega (arith, of_le-le w (v / 256) (omega (arith, pow-suc 256 w)))

pub le-of_le : (bs : List ℕ) → All IsByte bs → le (length bs) (of_le bs) ≡ bs
unfolding le of_le
le-of_le [] h = refl
le-of_le (b ∷ bs) h = ground (arith, le-of_le bs)

pub of_le-lt : (bs : List ℕ) → All IsByte bs → of_le bs < 256 ^ length bs
unfolding of_le
of_le-lt [] h = omega arith
of_le-lt (b ∷ bs) h = omega (arith, of_le-lt bs h.1, pow-suc 256 (length bs))

-- ===== src/Prelude/Range.antt =====
-- What holds of every number below a bound, decided by running through them.
use Prim.Native.Nat.{ℕ, zero, suc, ◌<◌}
use mathlib.Core.Path.{◌≡◌, refl}
use mathlib.Core.Logic.{◌⊎◌, inl, inr}
use mathlib.Core.Bool.{Bool, true, false, ◌&&◌}
use native.Mathlib.Omega.{arith}

unfoldable pub every : (ℕ → Bool) → ℕ → Bool
every test zero = true
every test (suc n) = test n && every test n

both_true : (a b : Bool) → (a && b) ≡ true → (a ≡ true) × (b ≡ true)
both_true true b h = (refl, h)
both_true false b h = ground arith

last_or_before : (n b : ℕ) → b < suc n → (b ≡ n) ⊎ (b < n)
last_or_before n b h = omega arith

pub every_holds : (test : ℕ → Bool) (n b : ℕ) → every test n ≡ true → b < n → test b ≡ true
unfolding every
every_holds test zero b h lt = absurd (omega arith)
every_holds test (suc n) b h lt =
    let (p, q) = both_true (test n) (every test n) h in
    elim (last_or_before n b lt) [ inl e ↦ rw e p | inr k ↦ every_holds test n b q k ]

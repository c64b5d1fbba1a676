-- ===== src/Prelude/Outcome.antt =====
-- The outcome of C++ code: a value, one of the exceptions it throws, or a read or write outside of
-- a buffer, which C++ leaves undefined.
use mathlib.Core.Bool.{Bool, true, false}

pub data Error : Type 0 where
  protocol_exception message_exception packet_type_exception session_exception : Error
  socket_exception crypto_error runtime_error logic_error : Error
  out_of_bounds : Error

pub data Result {ℓ} (X : Type ℓ) : Type ℓ where
  ok : X → Result X
  err : Error → Result X

-- `if (bad) throw e;`
abbrev pub throw_if : Bool → Error → Result (Unit {0})
throw_if true e = err e
throw_if false e = ok tt

infixl 5 ◌>>=◌
abbrev pub ◌>>=◌ {ℓ κ} : {X : Type ℓ} {Y : Type κ} → Result X → (X → Result Y) → Result Y
err e >>= next = err e
ok x >>= next = next x

-- One statement behind another.
infixl 5 ◌>>◌
abbrev pub ◌>>◌ {ℓ} : {Y : Type ℓ} → Result (Unit {0}) → Result Y → Result Y
first >> second = first >>= λ _. second

-- A property of the value, if there is one.
abbrev pub Ok {ℓ κ} : {X : Type ℓ} → (X → Type κ) → Result X → Type κ
Ok P (ok x) = P x
Ok P (err e) = Unit

pub Ok-bind {ℓ μ κ} :
    {X : Type ℓ} {Y : Type μ} (P : Y → Type κ) (r : Result X) (k : X → Result Y)
    → ((x : X) → Ok P (k x))
    → Ok P (r >>= k)
Ok-bind P (ok x) k h = h x
Ok-bind P (err e) k h = tt

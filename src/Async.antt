-- ===== src/Async.antt =====
-- The futures of src/async/future.h, used by one thread: the data that a promise and its future share,
-- and the callback of `next`. Waiting for a mutex that is locked never ends then.

pub mod Order
pub mod Promises
use ceema.Prelude.{
  ℕ, Bool, true, false, Option, none, some, Result, Error, ok, err, runtime_error, logic_error,
  if◌then◌else◌,
}

-- `async_data`. The lock is held until there is a result.
pub record AsyncData (T : Type 0) : Type 0 where
  pub locked : Bool
  pub value : Option T
  pub exc : Option Error

-- What a call of `get` does: it waits for good, throws, returns a value, or reads an empty optional,
-- which is undefined in C++.
pub data Got (T : Type 0) : Type 0 where
  waits : Got T
  throws : Error → Got T
  returns : T → Got T
  undefined : Got T

module _ {T : Type 0} where
  unfoldable pub new_data : AsyncData T
  new_data = record { locked = true; value = none; exc = none }

  -- The part of `get` behind the lock, which is kept.
  unfoldable pub taken : Option Error → Option T → Got T
  taken (some e) value = Got.throws e
  taken none (some t) = Got.returns t
  taken none none = Got.undefined

  -- The value that is left: one that is returned is moved away, and `reset`.
  abbrev pub left : Option Error → Option T → Option T
  left (some e) value = value
  left none value = none

  unfoldable pub get : AsyncData T → Got T × AsyncData T
  unfolding taken
  get d = elim d.locked [
    | true ↦ (Got.waits, d)
    | false ↦
        (taken d.exc d.value, record { locked = true; value = left d.exc d.value; exc = d.exc })
  ]

  -- `set_value` and `set_exception`, up to the call of the callback.
  unfoldable pub store : Result T → AsyncData T → AsyncData T
  store (ok t) d = record d { value = some t; locked = false }
  store (err e) d = record d { exc = some e; locked = false }

  -- `m_exc || m_data`
  unfoldable pub has_result : AsyncData T → Bool
  has_result d = elim d.exc [ some e ↦ true | none ↦ elim d.value [ some t ↦ true | none ↦ false ] ]

-- A function that `next` is called with: it gets a future of the data, which it may read or not, and
-- returns or throws.
abbrev pub Call : Type 0 → Type 0 → Type 0
Call T R = AsyncData T → Result R × AsyncData T

-- The data with a callback, which `next` has set for a function, and the data of the promise that the
-- callback holds.
pub record Chain (T R : Type 0) : Type 0 where
  pub source : AsyncData T
  pub callback : Option (Call T R)
  pub target : AsyncData R

module _ {T R : Type 0} where
  -- `async_callback`: the function gets a future of the data, and what it returns or throws is the result
  -- of the promise.
  unfoldable pub async_callback : Call T R → Chain T R → Chain T R
  unfolding store
  async_callback f k = record k { source = (f k.source).1; target = store (f k.source).0 k.target }

  -- `if (m_callback) m_callback(…)`
  unfoldable pub call : Option (Call T R) → Chain T R → Chain T R
  unfolding async_callback
  call none k = k
  call (some f) k = async_callback f k

  -- `set_value` and `set_exception`
  unfoldable pub set_result : Result T → Chain T R → Chain T R
  unfolding call
  set_result r k = call k.callback (record k { source = store r k.source })

  unfoldable pub set_callback : Call T R → Chain T R → Chain T R
  unfolding has_result call
  set_callback f k = elim (has_result k.source) [
    | true ↦ call (some f) (record k { callback = some f })
    | false ↦ record k { callback = some f }
  ]

-- A future, with its data, if it is valid.
abbrev pub Future : Type 0 → Type 0
Future T = Option (AsyncData T)

-- `future_base::get` of a type other than void.
unfoldable pub future_get : {T : Type 0} → Future T → Got T × Future T
unfolding get
future_get none = (Got.throws runtime_error, none)
future_get (some d) = elim (get d).0 [
  | Got.returns t ↦ (Got.returns t, none)
  | g ↦ (g, some (get d).1)
]

-- `future_base::get` of void, whose value is `tt`.
unfoldable pub future_get_void : Future (Unit {0}) → Got (Unit {0}) × Future (Unit {0})
future_get_void none = (Got.throws runtime_error, none)
future_get_void (some d) = (Got.returns tt, some d)

-- `promise`: whether it still has its data, the data, and whether its future is still there.
pub record Promise (T : Type 0) : Type 0 where
  pub held : Bool
  pub shared : AsyncData T
  pub fut : Bool

module _ {T : Type 0} where
  unfoldable pub new_promise : Promise T
  unfolding new_data
  new_promise = record { held = true; shared = new_data; fut = true }

  -- `get_future` moves the future out.
  unfoldable pub get_future : Promise T → Result (AsyncData T) × Promise T
  get_future p = if p.fut then (ok p.shared, record p { fut = false }) else (err logic_error, p)

  -- `set_value` and `set_exception`
  unfoldable pub satisfy : Result T → Promise T → Result (Unit {0}) × Promise T
  unfolding store
  satisfy r p =
      if p.held
      then (ok tt, record p { shared = store r p.shared; held = false })
      else (err runtime_error, p)

  -- The destructor; a promise that is not satisfied is broken.
  unfoldable pub destroy : Promise T → AsyncData T
  unfolding store
  destroy p = if p.held then store (err runtime_error) p.shared else p.shared

-- ===== src/Async/Order.antt =====
-- `next` and the result of its promise (src/async/future.h).
use ceema.Prelude.{◌≡◌, refl, none, some, Result, ok, err}
use ceema.Async.{Got, Call, Chain, new_data, store, taken, set_result, set_callback, future_get}

-- What `get` makes of a result.
abbrev pub got : {T : Type 0} → Result T → Got T
got (ok t) = Got.returns t
got (err e) = Got.throws e

-- The shared data of a promise that is not satisfied, and of the one that `next` makes.
abbrev pub fresh : (T R : Type 0) → Chain T R
fresh T R = record { source = new_data; callback = none; target = new_data }

pub get-store : {T : Type 0} (r : Result T) → (future_get (some (store r new_data))).0 ≡ got r
unfolding future_get store new_data taken
get-store (ok t) = refl
get-store (err e) = refl

-- Whether `next` is called before or after its promise is satisfied, the data ends in the same
-- state, that in which the function leaves it; the function gets data from which a future reads the
-- result, and the future that `next` returns gets what the function returns or throws.
pub set_callback-set_result :
    {T R : Type 0} (r : Result T) (f : Call T R)
    → (set_callback f (set_result r (fresh T R)) ≡ set_result r (set_callback f (fresh T R)))
      × ((set_callback f (set_result r (fresh T R))).source ≡ (f (store r new_data)).1)
      × ((future_get (some (set_callback f (set_result r (fresh T R))).target)).0
          ≡ got (f (store r new_data)).0)
      × ((future_get (some (store r new_data))).0 ≡ got r)
unfolding set_callback set_result new_data
set_callback-set_result (ok t) f =
    (refl, refl, get-store (f (store (ok t) new_data)).0, get-store (ok t))
set_callback-set_result (err e) f =
    (refl, refl, get-store (f (store (err e) new_data)).0, get-store (err e))

-- ===== src/Async/Promises.antt =====
-- Calls of `set_value` and `set_exception` of one promise (src/async/future.h).
use ceema.Prelude.{
  ◌≡◌, refl, Bool, true, false, List, [], ◌∷◌, map, some, Result, ok, err, runtime_error,
}
use ceema.Async.{AsyncData, Promise, new_data, store, new_promise, satisfy, destroy, future_get}
use ceema.Async.Order.{got, get-store}

-- Calls of `set_value` and `set_exception`, one after the other, and what each of them throws.
pub satisfy_all : {T : Type 0} → List (Result T) → Promise T → List (Result (Unit {0})) × Promise T
unfolding satisfy
satisfy_all [] p = ([], p)
satisfy_all (r ∷ results) p =
    let (o, p') = satisfy r p in let (os, p'') = satisfy_all results p' in (o ∷ os, p'')

-- The result that counts, and what the calls throw.
abbrev pub first : {T : Type 0} → List (Result T) → Result T
first [] = err runtime_error
first (r ∷ results) = r

abbrev pub refused : {T : Type 0} → List (Result T) → List (Result (Unit {0}))
refused [] = []
refused (r ∷ results) = ok tt ∷ map (λ _. err runtime_error) results

satisfied :
    {T : Type 0} (results : List (Result T)) (d : AsyncData T) (fut : Bool)
    → satisfy_all results (record { held = false; shared = d; fut = fut })
      ≡ (map (λ _. err runtime_error) results, record { held = false; shared = d; fut = fut })
unfolding satisfy_all
satisfied [] d fut = refl
satisfied (r ∷ results) d fut = rw (satisfied results d fut) refl

-- However often a promise is satisfied before it ends, its future gets the first of the results, or
-- the exception of a broken promise if there is none; the first call returns, and the others throw.
pub satisfy_all-destroy :
    {T : Type 0} (results : List (Result T))
    → ((satisfy_all results new_promise).0 ≡ refused results)
      × ((future_get (some (destroy (satisfy_all results new_promise).1))).0 ≡ got (first results))
unfolding satisfy_all new_promise destroy
satisfy_all-destroy [] = (refl, get-store (err runtime_error))
satisfy_all-destroy (r ∷ results) =
    rw (satisfied results (store r new_data) true) (refl, get-store r)

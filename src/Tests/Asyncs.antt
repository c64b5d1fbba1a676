-- ===== src/Tests/Asyncs.antt =====
-- Runs of the futures.
use ceema.Prelude.{ℕ, ◌+◌, ◌≡◌, refl, some, [], ◌∷◌, Result, ok, err, runtime_error, logic_error}
use ceema.Async.{
  Got, Call, get, set_result, set_callback, future_get, future_get_void, new_data, new_promise,
  destroy, store,
}
use ceema.Async.Order.{fresh, set_callback-set_result}
use ceema.Async.Promises.{satisfy_all, satisfy_all-destroy}

-- A function that rethrows, and counts one up.
abbrev counted : Got ℕ → Result ℕ
counted (Got.returns n) = ok (n + 1)
counted (Got.throws e) = err e
counted g = err logic_error

abbrev count_up : Call ℕ ℕ
count_up d = (counted (get d).0, (get d).1)

abbrev four : ℕ
four = 4

set_callback-set_result_example :
    (set_callback count_up (set_result (ok four) (fresh ℕ ℕ))
      ≡ set_result (ok four) (set_callback count_up (fresh ℕ ℕ)))
    × ((set_callback count_up (set_result (ok four) (fresh ℕ ℕ))).source
        ≡ (count_up (store (ok four) new_data)).1)
    × ((future_get (some (set_callback count_up (set_result (ok four) (fresh ℕ ℕ))).target)).0
        ≡ Got.returns 5)
    × ((future_get (some (store (ok four) new_data))).0 ≡ Got.returns four)
unfolding get store new_data
set_callback-set_result_example = set_callback-set_result (ok four) count_up

abbrev three : ℕ
three = 3

satisfy_all-destroy_example :
    ((satisfy_all (ok three ∷ ok 5 ∷ err logic_error ∷ []) new_promise).0
      ≡ ok tt ∷ err runtime_error ∷ err runtime_error ∷ [])
    × ((future_get
          (some (destroy (satisfy_all (ok three ∷ ok 5 ∷ err logic_error ∷ []) new_promise).1))).0
        ≡ Got.returns three)
satisfy_all-destroy_example = satisfy_all-destroy (ok three ∷ ok 5 ∷ err logic_error ∷ [])

-- A future of void that holds an exception returns, and one that waits for its result as well.
future_get_void_runs :
    (future_get_void (some (store (err logic_error) new_data))
      ≡ (Got.returns tt, some (store (err logic_error) new_data)))
    × (future_get_void (some new_data) ≡ (Got.returns tt, some new_data))
unfolding future_get_void
future_get_void_runs = (refl, refl)

-- ===== src/Handler/Queue/Entries.antt =====
-- The entries of the queue of ThreeplMessageHandler, one for each contact.
use ceema.Prelude.{
  ℕ, ◌≡◌, ◌≢◌, refl, sym, ◌∙◌, inl, inr, true, false, Option, List, [], ◌∷◌, ◌++◌, list_eq,
  list_eq→eq, list_eq_comm, Bool-cases, arith,
}
use ceema.Payload.MessagePayload.{Formats}
use ceema.Packet.Message.{Message}
use ceema.Handler.{Waiting}
use ceema.Handler.Send.{is_queued, add_waiting}
use ceema.Handler.Deliver.{waiting, remove_waiting}

-- No contact has two entries.
abbrev pub IsQueue : {f : Formats} → List (Waiting f) → Type 0
IsQueue [] = Unit {0}
IsQueue (w ∷ queue) = (is_queued w.id queue ≡ false) × IsQueue queue

pub list_eq_other : (k id id' : List ℕ) → list_eq k id ≡ true → id' ≢ id → list_eq k id' ≡ false
list_eq_other k id id' e n = elim (Bool-cases (list_eq k id')) [
  | inl q ↦ absurd (n (sym (list_eq→eq k id' q) ∙ list_eq→eq k id e))
  | inr q ↦ q
]

module _ {f : Formats} where
  pub waiting-unqueued :
      (id : List ℕ) (queue : List (Waiting f)) → is_queued id queue ≡ false → waiting id queue ≡ []
  unfolding waiting is_queued
  waiting-unqueued id [] e = refl
  waiting-unqueued id (w ∷ queue) e = elim (Bool-cases (list_eq w.id id)) [
    | inl q ↦ absurd (ground arith)
    | inr q ↦ rw q (waiting-unqueued id queue (rw q at e))
  ]

  pub waiting-append :
      (id : List ℕ) (queue : List (Waiting f)) (w : Waiting f)
      → is_queued id queue ≡ false
      → waiting id (queue ++ (w ∷ [])) ≡ waiting id (w ∷ [])
  unfolding waiting is_queued
  waiting-append id [] w e = refl
  waiting-append id (k ∷ queue) w e = elim (Bool-cases (list_eq k.id id)) [
    | inl q ↦ absurd (ground arith)
    | inr q ↦ rw q (waiting-append id queue w (rw q at e))
  ]

  pub waiting-append_other :
      (id : List ℕ) (queue : List (Waiting f)) (w : Waiting f)
      → list_eq w.id id ≡ false
      → waiting id (queue ++ (w ∷ [])) ≡ waiting id queue
  unfolding waiting
  waiting-append_other id [] w e = rw e refl
  waiting-append_other id (k ∷ queue) w e = elim (Bool-cases (list_eq k.id id)) [
    | inl q ↦ rw q refl
    | inr q ↦ rw q (waiting-append_other id queue w e)
  ]

  pub waiting-add_waiting :
      (id : List ℕ) (m : Option (Message f) × ℕ) (queue : List (Waiting f))
      → is_queued id queue ≡ true
      → waiting id (add_waiting id m queue) ≡ waiting id queue ++ (m ∷ [])
  unfolding waiting is_queued add_waiting
  waiting-add_waiting id m [] e = absurd (ground arith)
  waiting-add_waiting id m (w ∷ queue) e = elim (Bool-cases (list_eq w.id id)) [
    | inl q ↦ rw (q, q) refl
    | inr q ↦ rw (q, q) (waiting-add_waiting id m queue (rw q at e))
  ]

  pub waiting-add_waiting_other :
      (id id' : List ℕ) (m : Option (Message f) × ℕ) (queue : List (Waiting f))
      → id' ≢ id
      → waiting id' (add_waiting id m queue) ≡ waiting id' queue
  unfolding waiting add_waiting
  waiting-add_waiting_other id id' m [] n = refl
  waiting-add_waiting_other id id' m (w ∷ queue) n = elim (Bool-cases (list_eq w.id id)) [
    | inl q ↦ rw (q, list_eq_other w.id id id' q n) refl
    | inr q ↦ elim (Bool-cases (list_eq w.id id')) [
      | inl q' ↦ rw (q, q') refl
      | inr q' ↦ rw (q, q') (waiting-add_waiting_other id id' m queue n)
    ]
  ]

  is_queued-add_waiting :
      (id id' : List ℕ) (m : Option (Message f) × ℕ) (queue : List (Waiting f))
      → is_queued id' (add_waiting id m queue) ≡ is_queued id' queue
  unfolding is_queued add_waiting
  is_queued-add_waiting id id' m [] = refl
  is_queued-add_waiting id id' m (w ∷ queue) = elim (Bool-cases (list_eq w.id id)) [
    | inl q ↦ rw q refl
    | inr q ↦ rw (q, is_queued-add_waiting id id' m queue) refl
  ]

  is_queued-append :
      (id : List ℕ) (queue : List (Waiting f)) (w : Waiting f)
      → is_queued id queue ≡ false
      → list_eq w.id id ≡ false
      → is_queued id (queue ++ (w ∷ [])) ≡ false
  unfolding is_queued
  is_queued-append id [] w e n = rw n refl
  is_queued-append id (k ∷ queue) w e n = elim (Bool-cases (list_eq k.id id)) [
    | inl q ↦ absurd (ground arith)
    | inr q ↦ rw q (is_queued-append id queue w (rw q at e) n)
  ]

  pub IsQueue-add_waiting :
      (id : List ℕ) (m : Option (Message f) × ℕ) (queue : List (Waiting f))
      → IsQueue queue
      → IsQueue (add_waiting id m queue)
  unfolding add_waiting
  IsQueue-add_waiting id m [] k = tt
  IsQueue-add_waiting id m (w ∷ queue) k = elim (Bool-cases (list_eq w.id id)) [
    | inl q ↦ rw q k
    | inr q ↦ rw q (is_queued-add_waiting id w.id m queue ∙ k.0, IsQueue-add_waiting id m queue k.1)
  ]

  pub IsQueue-append :
      (queue : List (Waiting f)) (w : Waiting f)
      → IsQueue queue
      → is_queued w.id queue ≡ false
      → IsQueue (queue ++ (w ∷ []))
  unfolding is_queued
  IsQueue-append [] w k e = (refl, tt)
  IsQueue-append (v ∷ queue) w k e = elim (Bool-cases (list_eq v.id w.id)) [
    | inl q ↦ absurd (ground arith)
    | inr q ↦ (
      is_queued-append v.id queue w k.0 (list_eq_comm w.id v.id ∙ q),
      IsQueue-append queue w k.1 (rw q at e),
    )
  ]

  is_queued-remove_waiting :
      (id id' : List ℕ) (queue : List (Waiting f))
      → is_queued id' queue ≡ false
      → is_queued id' (remove_waiting id queue) ≡ false
  unfolding is_queued remove_waiting
  is_queued-remove_waiting id id' [] e = refl
  is_queued-remove_waiting id id' (w ∷ queue) e = elim (Bool-cases (list_eq w.id id')) [
    | inl q ↦ absurd (ground arith)
    | inr q ↦ elim (Bool-cases (list_eq w.id id)) [
      | inl q' ↦ rw q' (rw q at e)
      | inr q' ↦ rw (q', q) (is_queued-remove_waiting id id' queue (rw q at e))
    ]
  ]

  pub IsQueue-remove_waiting :
      (id : List ℕ) (queue : List (Waiting f)) → IsQueue queue → IsQueue (remove_waiting id queue)
  unfolding remove_waiting
  IsQueue-remove_waiting id [] k = tt
  IsQueue-remove_waiting id (w ∷ queue) k = elim (Bool-cases (list_eq w.id id)) [
    | inl q ↦ rw q k.1
    | inr q ↦ rw q (is_queued-remove_waiting id w.id queue k.0, IsQueue-remove_waiting id queue k.1)
  ]

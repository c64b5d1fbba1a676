-- ===== src/Handler/Queue.antt =====
-- The queue of ThreeplMessageHandler (`packetQueue`): for each contact, the messages that wait for it, in
-- the order in which they came.
pub mod Entries
use ceema.Prelude.{
  ℕ, ◌≡◌, ◌≢◌, refl, ap, sym, ◌∙◌, inl, inr, Bool, true, false, Option, some, List, [], ◌∷◌, ◌++◌,
  append_assoc, list_eq, list_eq_self, list_eq→eq, list_eq_comm, Bool-cases, arith,
}
use ceema.Payload.MessagePayload.{Formats}
use ceema.Packet.Message.{Message}
use ceema.Handler.{MessageHandler, Waiting}
use ceema.Handler.Send.{waits_for, is_queued, add_waiting, enqueue}
use ceema.Handler.Deliver.{waiting, remove_waiting}
use ceema.Handler.Queue.Entries.{
  IsQueue, list_eq_other, waiting-unqueued, waiting-append, waiting-append_other,
  waiting-add_waiting, waiting-add_waiting_other, IsQueue-add_waiting, IsQueue-append,
  IsQueue-remove_waiting,
}

module _ {f : Formats} where
  waiting-remove_waiting :
      (id : List ℕ) (queue : List (Waiting f))
      → IsQueue queue
      → waiting id (remove_waiting id queue) ≡ []
  unfolding waiting remove_waiting
  waiting-remove_waiting id [] k = refl
  waiting-remove_waiting id (w ∷ queue) k = elim (Bool-cases (list_eq w.id id)) [
    | inl q ↦ rw q (waiting-unqueued id queue (rw (← list_eq→eq w.id id q) k.0))
    | inr q ↦ rw (q, q) (waiting-remove_waiting id queue k.1)
  ]

  waiting-remove_waiting_other :
      (id id' : List ℕ) (queue : List (Waiting f))
      → id' ≢ id
      → waiting id' (remove_waiting id queue) ≡ waiting id' queue
  unfolding waiting remove_waiting
  waiting-remove_waiting_other id id' [] n = refl
  waiting-remove_waiting_other id id' (w ∷ queue) n = elim (Bool-cases (list_eq w.id id)) [
    | inl q ↦ rw (q, list_eq_other w.id id id' q n) refl
    | inr q ↦ elim (Bool-cases (list_eq w.id id')) [
      | inl q' ↦ rw (q, q') refl
      | inr q' ↦ rw (q, q') (waiting-remove_waiting_other id id' queue n)
    ]
  ]

  waiting_single :
      (id : List ℕ) (m : Option (Message f) × ℕ)
      → waiting id (record { id = id; messages = m ∷ [] } ∷ []) ≡ m ∷ []
  unfolding waiting
  waiting_single id m = rw (list_eq_self id) refl

  enqueue_lem :
      (msg : Message f) (h : MessageHandler f)
      → IsQueue h.packet_queue
      → IsQueue (enqueue msg h).1.packet_queue
        × (waiting (waits_for msg) (enqueue msg h).1.packet_queue
            ≡ waiting (waits_for msg) h.packet_queue ++ ((some msg, h.promises) ∷ []))
        × ((id' : List ℕ)
            → id' ≢ waits_for msg
            → waiting id' (enqueue msg h).1.packet_queue ≡ waiting id' h.packet_queue)
  unfolding enqueue
  enqueue_lem msg h k =
      let id : List ℕ = waits_for msg in
      let m : Option (Message f) × ℕ = (some msg, h.promises) in
      let w : Waiting f = record { id = id; messages = m ∷ [] } in
      elim (Bool-cases (is_queued id h.packet_queue)) [
        | inl e ↦
            rw (e, enqueue)
              (
                IsQueue-add_waiting id m h.packet_queue k,
                waiting-add_waiting id m h.packet_queue e,
                λ id' n. waiting-add_waiting_other id id' m h.packet_queue n,
              )
        | inr e ↦
            rw (e, enqueue)
              (
                IsQueue-append h.packet_queue w k e,
                added id m h.packet_queue e,
                λ id' n.
                    waiting-append_other id' h.packet_queue w
                      (list_eq_other id id id' (list_eq_self id) n),
              )
      ]
    where
      added :
          (id : List ℕ) (m : Option (Message f) × ℕ) (queue : List (Waiting f))
          → is_queued id queue ≡ false
          → waiting id (queue ++ (record { id = id; messages = m ∷ [] } ∷ []))
            ≡ waiting id queue ++ (m ∷ [])
      added id m queue e =
          waiting-append id queue (record { id = id; messages = m ∷ [] }) e
          ∙ waiting_single id m
          ∙ sym (ap (λ ms. ms ++ (m ∷ [])) (waiting-unqueued id queue e))

  -- In a queue in which no contact has two entries, a message that waits is put behind those that
  -- wait for the same contact, erasing a contact leaves none for it, both leave the messages for
  -- other contacts as they are, and no contact has two entries then.
  pub IsQueue-refines :
      (msg : Message f) (id : List ℕ) (h : MessageHandler f)
      → IsQueue h.packet_queue
      → IsQueue (enqueue msg h).1.packet_queue
        × (waiting (waits_for msg) (enqueue msg h).1.packet_queue
            ≡ waiting (waits_for msg) h.packet_queue ++ ((some msg, h.promises) ∷ []))
        × ((id' : List ℕ)
            → id' ≢ waits_for msg
            → waiting id' (enqueue msg h).1.packet_queue ≡ waiting id' h.packet_queue)
        × IsQueue (remove_waiting id h.packet_queue)
        × (waiting id (remove_waiting id h.packet_queue) ≡ [])
        × ((id' : List ℕ)
            → id' ≢ id
            → waiting id' (remove_waiting id h.packet_queue) ≡ waiting id' h.packet_queue)
  IsQueue-refines msg id h k = (
    (enqueue_lem msg h k).0,
    (enqueue_lem msg h k).1,
    (enqueue_lem msg h k).2,
    IsQueue-remove_waiting id h.packet_queue k,
    waiting-remove_waiting id h.packet_queue k,
    λ id' n. waiting-remove_waiting_other id id' h.packet_queue n,
  )

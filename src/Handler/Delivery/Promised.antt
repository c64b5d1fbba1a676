-- ===== src/Handler/Delivery/Promised.antt =====
-- What the callback that delivers what waits for a contact of ThreeplMessageHandler does to promises and
-- to the entry of the contact.
use ceema.Prelude.{
  ℕ, ◌==◌, ==_self, ◌≡◌, refl, ap, ◌∙◌, inl, inr, true, false, Option, none, some, List, [], ◌∷◌,
  ◌++◌, map, list_eq, Bool-cases, Result, ok, err, message_exception,
}
use ceema.Payload.MessagePayload.{Formats}
use ceema.Packet.Message.{Message}
use ceema.Handler.{MessageHandler, Waiting}
use ceema.Handler.Send.{settle}
use ceema.Handler.Deliver.{waiting, move_message, move_out, set_value, remove_waiting, is_settled}

pub is_settled_last :
    (t : ℕ) (r : Result (Unit {0})) (outcomes : List (ℕ × Result (Unit {0})))
    → is_settled t (outcomes ++ ((t, r) ∷ [])) ≡ true
unfolding is_settled
is_settled_last t r [] = rw (==_self t) refl
is_settled_last t r ((t', r') ∷ outcomes) = elim (Bool-cases (t' == t)) [
  | inl e ↦ rw e refl
  | inr e ↦ rw (e, is_settled_last t r outcomes) refl
]

-- The messages, each with its promise, and a result for the promises.
module _ {A : Type 0} where
  abbrev pub settled : Result (Unit {0}) → List (A × ℕ) → List (ℕ × Result (Unit {0}))
  settled r messages = map (λ m. (m.1, r)) messages

  -- No promise of the messages is settled, nor is one of them the promise of two: each can be given the
  -- result, one after the other.
  abbrev pub IsUnsettled : Result (Unit {0}) → List (A × ℕ) → List (ℕ × Result (Unit {0})) → Type 0
  IsUnsettled r [] outcomes = Unit {0}
  IsUnsettled r ((msg, t) ∷ messages) outcomes =
      (is_settled t outcomes ≡ false) × IsUnsettled r messages (outcomes ++ ((t, r) ∷ []))

  abbrev pub failures : List (A × ℕ) → List (ℕ × Result (Unit {0}))
  failures = settled (err message_exception)

  abbrev pub successes : List (A × ℕ) → List (ℕ × Result (Unit {0}))
  successes = settled (ok tt)

module _ {f : Formats} where
  -- Messages that are not moved away.
  abbrev pub held : List (Message f × ℕ) → List (Option (Message f) × ℕ)
  held messages = map (λ m. (some m.0, m.1)) messages

  abbrev pub all_moved : List ℕ → List (Message f × ℕ) → List (Waiting f) → List (Waiting f)
  all_moved id [] queue = queue
  all_moved id (m ∷ messages) queue = all_moved id messages (move_out id m.1 queue)

  pub waiting-move_out :
      (id : List ℕ) (t : ℕ) (queue : List (Waiting f))
      → waiting id (move_out id t queue) ≡ move_message t (waiting id queue)
  unfolding waiting move_out move_message
  waiting-move_out id t [] = refl
  waiting-move_out id t (w ∷ queue) = elim (Bool-cases (list_eq w.id id)) [
    | inl q ↦ rw (q, q) refl
    | inr q ↦ rw (q, q) (waiting-move_out id t queue)
  ]

  remove_waiting-move_out :
      (id : List ℕ) (t : ℕ) (queue : List (Waiting f))
      → remove_waiting id (move_out id t queue) ≡ remove_waiting id queue
  unfolding remove_waiting move_out
  remove_waiting-move_out id t [] = refl
  remove_waiting-move_out id t (w ∷ queue) = elim (Bool-cases (list_eq w.id id)) [
    | inl q ↦ rw (q, q) refl
    | inr q ↦ rw (q, q) (ap (λ rest. w ∷ rest) (remove_waiting-move_out id t queue))
  ]

  pub remove_waiting-all_moved :
      (id : List ℕ) (messages : List (Message f × ℕ)) (queue : List (Waiting f))
      → remove_waiting id (all_moved id messages queue) ≡ remove_waiting id queue
  remove_waiting-all_moved id [] queue = refl
  remove_waiting-all_moved id (m ∷ messages) queue =
      remove_waiting-all_moved id messages (move_out id m.1 queue)
      ∙ remove_waiting-move_out id m.1 queue

  pub move_message_first :
      (t : ℕ) (msg : Option (Message f)) (messages : List (Option (Message f) × ℕ))
      → move_message t ((msg, t) ∷ messages) ≡ (none, t) ∷ messages
  unfolding move_message
  move_message_first t msg messages = rw (==_self t) refl

  pub set_value_lem :
      (id : List ℕ) (t : ℕ) (h : MessageHandler f)
      → is_settled t h.outcomes ≡ false
      → set_value id t h
        ≡ (ok tt, settle t (ok tt) (record h { packet_queue = move_out id t h.packet_queue }))
  unfolding set_value
  set_value_lem id t h u = rw (u, set_value) refl

-- ===== src/Handler/Deliver.antt =====
-- ThreeplMessageHandler::onRecvMessage, and the callback of `enqueue`, which delivers the messages that
-- waited for a contact.
use ceema.Prelude.{
  ℕ, Bool, true, false, Option, none, some, List, [], ◌∷◌, ◌==◌, if◌then◌else◌, list_eq, Result, ok,
  err, out_of_bounds, runtime_error, message_exception,
}
use ceema.Prelude.Stateful.{M, pure, bind}
use ceema.Contact.{Contact}
use ceema.Contacts.{has_contact, fetched}
use ceema.Payload.MessagePayload.{Formats}
use ceema.Packet.Message.{Message, is_message_recv}
use ceema.Handler.{MessageHandler, Waiting, Context}
use ceema.Handler.Send.{settle, enqueue, send}
use ceema.Handler.Receive.{recv}

-- Whether a promise has lost its data.
unfoldable pub is_settled : ℕ → List (ℕ × Result (Unit {0})) → Bool
is_settled t [] = false
is_settled t ((t', r) ∷ outcomes) =
    let rest = is_settled t outcomes in if t' == t then true else rest

module _ {f : Formats} where
  -- `packetQueue[contact_id]`
  unfoldable pub waiting : List ℕ → List (Waiting f) → List (Option (Message f) × ℕ)
  waiting id [] = []
  waiting id (w ∷ queue) =
      let rest = waiting id queue in if list_eq w.id id then w.messages else rest

  -- `packetQueue.erase(contact_id)`
  unfoldable pub remove_waiting : List ℕ → List (Waiting f) → List (Waiting f)
  remove_waiting id [] = []
  remove_waiting id (w ∷ queue) =
      let rest = remove_waiting id queue in if list_eq w.id id then queue else w ∷ rest

  -- The message with a promise is moved away.
  unfoldable pub move_message : ℕ → List (Option (Message f) × ℕ) → List (Option (Message f) × ℕ)
  move_message t [] = []
  move_message t ((msg, t') ∷ messages) =
      let rest = move_message t messages in
      if t' == t then (none, t') ∷ messages else (msg, t') ∷ rest

  unfoldable pub move_out : List ℕ → ℕ → List (Waiting f) → List (Waiting f)
  unfolding move_message
  move_out id t [] = []
  move_out id t (w ∷ queue) =
      let rest = move_out id t queue in
      if list_eq w.id id
      then record w { messages = move_message t w.messages } ∷ queue
      else w ∷ rest

  -- `queue_iter.second.set_value(std::move(queue_iter.first))`; a promise that is already satisfied throws,
  -- before it takes the message.
  unfoldable pub set_value : List ℕ → ℕ → M (MessageHandler f) (Unit {0})
  unfolding is_settled move_out
  set_value id t h = elim (is_settled t h.outcomes) [
    | true ↦ (err runtime_error, h)
    | false ↦ (ok tt, settle t (ok tt) (record h { packet_queue = move_out id t h.packet_queue }))
  ]

  -- The loop of the catch clause; a promise that is already satisfied throws.
  unfoldable pub set_exceptions : List (Option (Message f) × ℕ) → M (MessageHandler f) (Unit {0})
  unfolding is_settled
  set_exceptions [] h = (ok tt, h)
  set_exceptions ((msg, t) ∷ messages) h = elim (is_settled t h.outcomes) [
    | true ↦ (err runtime_error, h)
    | false ↦ set_exceptions messages (settle t (err message_exception) h)
  ]

  unfoldable pub erased : List ℕ → MessageHandler f → MessageHandler f
  unfolding remove_waiting
  erased id h = record h { packet_queue = remove_waiting id h.packet_queue }

  -- What follows the try block, given how it ended. What the callback throws is caught, and handed to a
  -- future that nobody has.
  unfoldable pub delivered :
      List ℕ
      → List (Option (Message f) × ℕ)
      → Result (Unit {0}) × MessageHandler f
      → Result (Unit {0}) × MessageHandler f
  unfolding set_exceptions erased
  delivered id messages (ok _, h) = (ok tt, erased id h)
  delivered id messages (err out_of_bounds, h) = (err out_of_bounds, h)
  delivered id messages (err e, h) =
      bind (set_exceptions messages h) (λ _ h'. (ok tt, erased id h'))

module _ (f : Formats) (x : Context) where
  unfoldable pub deliver_one : Message f → M (MessageHandler f) (Unit {0})
  deliver_one msg = if is_message_recv msg.type then recv f x msg else send f x msg

  -- The loop over the messages that waited. To read through a pointer whose message is moved away
  -- counts as reading outside of a buffer.
  unfoldable pub deliver : List ℕ → List (Option (Message f) × ℕ) → M (MessageHandler f) (Unit {0})
  deliver id [] h = (ok tt, h)
  deliver id ((none, t) ∷ messages) h = (err out_of_bounds, h)
  deliver id ((some msg, t) ∷ messages) h =
      bind (deliver_one msg h) (λ _ h'. bind (set_value id t h') (λ _. deliver id messages))

  -- The try block, given the contact of the future.
  unfoldable pub fetched_contact :
      List ℕ
      → List (Option (Message f) × ℕ)
      → Result (Option Contact)
      → M (MessageHandler f) (Unit {0})
  unfolding deliver
  fetched_contact id messages (err e) h = (err e, h)
  fetched_contact id messages (ok c) h = deliver id messages h

  -- The callback, given the answer of the identity server.
  unfoldable pub on_fetched :
      List ℕ → Result Contact → MessageHandler f → Result (Unit {0}) × MessageHandler f
  unfolding waiting
  on_fetched id reply h =
      let (c, contacts) = fetched id reply h.contacts in
      let messages : List (Option (Message f) × ℕ) = waiting id h.packet_queue in
      delivered id messages (fetched_contact id messages c (record h { contacts = contacts }))

  unfoldable pub on_recv_message : Message f → M (MessageHandler f) (Unit {0})
  unfolding has_contact
  on_recv_message msg h =
      if has_contact msg.sender h.contacts
      then recv f x msg h
      else bind (enqueue msg h) (λ _. pure tt)

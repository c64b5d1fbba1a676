-- ===== src/Handler/Send.antt =====
-- What ThreeplMessageHandler sends: `sendPayload`, `sendMessage`, `send` and `enqueue`.
use ceema.Prelude.{
  ℕ, ◌+◌, ◌%◌, Bool, true, false, Option, none, some, List, [], ◌∷◌, ◌++◌, length, list_eq, ◌==◌,
  if◌then◌else◌, Result, ok, err, out_of_bounds, runtime_error,
}
use ceema.Prelude.Stateful.{M, pure, bind}
use ceema.Types.Flags.{MessageFlag, set}
use ceema.Contact.{Contact}
use ceema.Contacts.{has_contact, get_contact}
use ceema.Groups.{Group, uid_cid}
use ceema.Payload.MessagePayload.{Formats, MessagePayload}
use ceema.Packet.Message.{Message, is_message_recv}
use ceema.Packet.Message.New.{new_message}
use ceema.Packet.Message.Encryption.{encrypt}
use ceema.Handler.{MessageHandler, Waiting, Context}

module _ {f : Formats} where
  -- `set_value` and `set_exception` of a promise.
  abbrev pub settle : ℕ → Result (Unit {0}) → MessageHandler f → MessageHandler f
  settle t r h = record h { outcomes = h.outcomes ++ ((t, r) ∷ []) }

  unfoldable pub waits_for : Message f → List ℕ
  waits_for msg = if is_message_recv msg.type then msg.sender else msg.recipient

  -- `packetQueue.find(contact_id) != packetQueue.end()`
  unfoldable pub is_queued : List ℕ → List (Waiting f) → Bool
  is_queued id [] = false
  is_queued id (w ∷ queue) = let rest = is_queued id queue in if list_eq w.id id then true else rest

  -- `iter->second.emplace_back(…)`
  unfoldable pub add_waiting : List ℕ → Option (Message f) × ℕ → List (Waiting f) → List (Waiting f)
  add_waiting id m [] = []
  add_waiting id m (w ∷ queue) =
      let rest = add_waiting id m queue in
      if list_eq w.id id then record w { messages = w.messages ++ (m ∷ []) } ∷ queue else w ∷ rest

  -- `enqueue`, with the promise. A new entry asks the server, since the callers have no such contact.
  unfoldable pub enqueue : Message f → M (MessageHandler f) ℕ
  unfolding waits_for is_queued add_waiting
  enqueue msg h =
      let id : List ℕ = waits_for msg in
      if is_queued id h.packet_queue
      then (
        ok h.promises,
        record h {
          promises = h.promises + 1;
          packet_queue = add_waiting id (some msg, h.promises) h.packet_queue;
        },
      )
      else (
        ok h.promises,
        record h {
          promises = h.promises + 1;
          packet_queue =
              h.packet_queue ++ (record { id = id; messages = (some msg, h.promises) ∷ [] } ∷ []);
          asked = h.asked ++ (id ∷ []);
        },
      )

  -- The try block of `sendMessage`: what `send` throws is handed to the promise.
  unfoldable pub finish : ℕ → Result (Unit {0}) × MessageHandler f → Result ℕ × MessageHandler f
  finish t (err out_of_bounds, h) = (err out_of_bounds, h)
  finish t (r, h) = (ok t, settle t r h)

module _ (f : Formats) (x : Context) where
  -- The end of `send`, once the contact is read and the message encrypted.
  unfoldable pub send_sealed : Result (Message f) → M (MessageHandler f) (Unit {0})
  send_sealed (err e) h = (err e, h)
  send_sealed (ok msg) h = (ok tt, record h { outbox = h.outbox ++ (msg ∷ []) })

  unfoldable pub send_to : Result (Option Contact) → Message f → M (MessageHandler f) (Unit {0})
  unfolding send_sealed
  send_to (err e) msg h = (err e, h)
  send_to (ok none) msg h = (err runtime_error, h)
  send_to (ok (some contact)) msg h =
      send_sealed (encrypt x.crypto f (x.draw h.draws).padding x.self contact msg)
        (record h { draws = h.draws + 1 })

  unfoldable pub send : Message f → M (MessageHandler f) (Unit {0})
  unfolding send_to get_contact
  send msg h = send_to (get_contact msg.recipient h.contacts) msg h

  -- `sendMessage`, with the promise of its future.
  unfoldable pub send_message : Message f → M (MessageHandler f) ℕ
  unfolding has_contact
  send_message msg h =
      if has_contact msg.recipient h.contacts
      then finish h.promises (send msg (record h { promises = h.promises + 1 }))
      else enqueue msg h

  -- The message of `sendPayload`, which is not to be acknowledged and has the nickname, if any.
  unfoldable pub with_payload : List ℕ → MessagePayload f → ℕ → ℕ → Message f
  unfolding new_message set
  with_payload recipient payload draws counter =
      let d = x.draw draws in
      let msg : Message f =
        (new_message f x.self.id recipient payload d.random d.time d.nonce counter).0 in
      record msg {
        flags = set msg.flags MessageFlag.no_ack;
        nick = if length x.self.nick == 0 then msg.nick else x.self.nick;
      }

  unfoldable pub send_payload : List ℕ → MessagePayload f → M (MessageHandler f) ℕ
  unfolding with_payload
  send_payload recipient payload h =
      send_message (with_payload recipient payload h.draws h.counter)
        (record h { draws = h.draws + 1; counter = (h.counter + 1) % 256 })

  -- `sendPayload` to the members of a group, without this client.
  unfoldable pub send_members : List (List ℕ) → MessagePayload f → M (MessageHandler f) (List ℕ)
  send_members [] payload h = (ok [], h)
  send_members (member ∷ members) payload h = elim (list_eq member x.self.id) [
    | true ↦ send_members members payload h
    | false ↦
        bind (send_payload member payload h)
          (λ t h'. bind (send_members members payload h') (λ ts. pure (t ∷ ts)))
  ]

  unfoldable pub send_group : Group → MessagePayload f → M (MessageHandler f) (List ℕ)
  unfolding send_members
  send_group group payload = send_members group.members payload

  unfoldable pub is_owner : List ℕ → Bool
  unfolding uid_cid
  is_owner uid = list_eq (uid_cid uid) x.self.id

-- ===== src/Handler/Delivery.antt =====
-- What becomes of the messages that wait for a contact of ThreeplMessageHandler when the identity server
-- answers.
pub mod Promised
pub mod Steps
use ceema.Prelude.{
  ℕ, ◌==◌, ==_self, zero, suc, ◌+◌, ◌≡◌, ◌≢◌, refl, ap, sym, ◌∙◌, inl, inr, Bool, true, false,
  Option, none, some, List, [], ◌∷◌, ◌++◌, append_assoc, append-nil, map, length, list_eq,
  list_eq_self, Bool-cases, Option-cases, arith, Result, Error, ok, err, out_of_bounds,
  message_exception, runtime_error,
}
use ceema.Prelude.Stateful.{bind}
use ceema.Contact.{Contact}
use ceema.Contacts.{Contacts, find, has_contact, get_contact, emplace, fetched}
use ceema.Payload.MessagePayload.{Formats}
use ceema.Packet.PacketType.{PacketType}
use ceema.Packet.Message.{Message, is_message_recv}
use ceema.Packet.Message.Encryption.{encrypt}
use ceema.Handler.{MessageHandler, Context}
use ceema.Handler.Send.{settle, send, send_to, send_sealed}
use ceema.Handler.Deliver.{
  waiting, move_message, move_out, remove_waiting, is_settled, set_exceptions, erased, delivered,
  deliver_one, deliver, fetched_contact, on_fetched,
}
use ceema.Handler.Delivery.Promised.{
  failures, successes, IsUnsettled, held, is_settled_last, set_value_lem, waiting-move_out,
  move_message_first, remove_waiting-all_moved,
}
use ceema.Handler.Delivery.Steps.{
  Sealing, get_contact-emplace, delivered-broken, delivered-stuck, deliver_one-sent,
  deliver_one-failed, deliver-sent,
}

module _ (f : Formats) (x : Context) where
  -- When the identity server knows a contact that was missing, the messages that wait for it go out
  -- in their order, all of their promises are kept, and their entry is erased, where no message is
  -- moved away yet, all are to be sent to it and can be encrypted, and none of the promises was
  -- settled or is that of two messages.
  pub on_fetched_sends :
      (c : Contact) (messages : List (Message f × ℕ)) (sealed : List (Message f)) (id : List ℕ)
      (h : MessageHandler f)
      → has_contact id h.contacts ≡ false
      → waiting id h.packet_queue ≡ held messages
      → Sealing f x id c h.draws messages sealed
      → IsUnsettled (ok tt) messages h.outcomes
      → on_fetched f x id (ok c) h ≡ (
        ok tt,
        record h {
          contacts = emplace id (some c) h.contacts;
          packet_queue = remove_waiting id h.packet_queue;
          draws = h.draws + length messages;
          outbox = h.outbox ++ sealed;
          outcomes = h.outcomes ++ successes messages;
        },
      )
  unfolding on_fetched fetched fetched_contact delivered erased
  on_fetched_sends c messages sealed id h n w s u =
      let h1 : MessageHandler f = record h { contacts = emplace id (some c) h.contacts } in
      rw
        (
          w,
          on_fetched,
          deliver-sent f x id c messages sealed h1 (get_contact-emplace id c h.contacts n) s u,
          remove_waiting-all_moved id messages h.packet_queue,
        )
        refl

  -- When the request of the identity server throws an exception, the promises of all messages that
  -- wait for the contact are broken, their entry is erased, and the contact is kept as missing,
  -- where none of the promises was settled or is that of two messages.
  pub on_fetched_fails :
      (e : Error) (id : List ℕ) (h : MessageHandler f)
      → e ≢ out_of_bounds
      → IsUnsettled (err message_exception) (waiting id h.packet_queue) h.outcomes
      → on_fetched f x id (err e) h ≡ (
        ok tt,
        record h {
          contacts = emplace id none h.contacts;
          packet_queue = remove_waiting id h.packet_queue;
          outcomes = h.outcomes ++ failures (waiting id h.packet_queue);
        },
      )
  unfolding on_fetched fetched fetched_contact
  on_fetched_fails e id h n u =
      delivered-broken e id (waiting id h.packet_queue)
        (record h { contacts = emplace id none h.contacts }) n u

  -- When the identity server knows a contact that was missing, the first two of the messages that
  -- wait for it are to be sent, the first can be encrypted but the second cannot, and the promise
  -- of the first was not settled, the callback ends by an exception: the promise of the first is
  -- kept and no other is settled, and the entry stays in the queue though the contact is known,
  -- with its first message moved away.
  pub on_fetched_loses :
      (e : Error) (c : Contact) (msg msg' sealed : Message f) (t t' : ℕ)
      (messages : List (Option (Message f) × ℕ)) (id : List ℕ) (h : MessageHandler f)
      → e ≢ out_of_bounds
      → has_contact id h.contacts ≡ false
      → waiting id h.packet_queue ≡ (some msg, t) ∷ (some msg', t') ∷ messages
      → is_settled t h.outcomes ≡ false
      → msg.type ≡ PacketType.message_send
      → msg.recipient ≡ id
      → msg'.type ≡ PacketType.message_send
      → msg'.recipient ≡ id
      → encrypt x.crypto f (x.draw h.draws).padding x.self c msg ≡ ok sealed
      → encrypt x.crypto f (x.draw (h.draws + 1)).padding x.self c msg' ≡ err e
      → (on_fetched f x id (ok c) h ≡ (
        err runtime_error,
        record h {
          contacts = emplace id (some c) h.contacts;
          packet_queue = move_out id t h.packet_queue;
          draws = h.draws + 1 + 1;
          outbox = h.outbox ++ (sealed ∷ []);
          outcomes = h.outcomes ++ ((t, ok tt) ∷ []);
        },
      ))
        × (waiting id (move_out id t h.packet_queue) ≡ (none, t) ∷ (some msg', t') ∷ messages)
  unfolding on_fetched fetched fetched_contact delivered set_exceptions deliver
  on_fetched_loses e c msg msg' sealed t t' messages id h n k w u a r a' r' s s' =
      let h1 : MessageHandler f = record h { contacts = emplace id (some c) h.contacts } in
      let known = get_contact-emplace id c h.contacts k in
      let sent : MessageHandler f = record h1 {
        draws = h.draws + 1;
        outbox = h.outbox ++ (sealed ∷ []);
      } in
      let h2 : MessageHandler f =
        settle t (ok tt) (record sent { packet_queue = move_out id t h.packet_queue }) in
      (
        rw
            (
              w,
              on_fetched,
              deliver_one-sent f x msg sealed id c h1 a r known s,
              deliver,
              set_value_lem id t sent u,
              deliver,
              deliver_one-failed f x msg' e id c h2 a' r' known s',
            )
            (delivered-stuck e id (some msg, t) ((some msg', t') ∷ messages)
              (record h2 { draws = h2.draws + 1 }) n (is_settled_last t (ok tt) h.outcomes)),
        waiting-move_out id t h.packet_queue
            ∙ ap (move_message t) w
            ∙ move_message_first t (some msg) ((some msg', t') ∷ messages),
      )

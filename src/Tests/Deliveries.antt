-- ===== src/Tests/Deliveries.antt =====
-- Runs of the queue of the message handler of the plugin.
use ceema.Prelude.{
  ℕ, ◌≡◌, ◌≢◌, refl, Option, none, some, List, [], ◌∷◌, ◌++◌, replicate, ok, err, runtime_error,
  message_exception, logic_error,
}
use ceema.Encoding.Crypto.{encrypt_inplace}
use ceema.Encoding.Pkcs7.{add_padding}
use ceema.Contact.{Contact, contact}
use ceema.Contacts.{has_contact, emplace, fetched}
use ceema.Payload.Text
use ceema.Payload.MessageType.{code}
use ceema.Payload.MessagePayload.{serialize, get_type, MessagePayload}
use ceema.Packet.Message.{Message}
use ceema.Packet.Message.Encryption.{encrypt}
use ceema.Handler.{MessageHandler}
use ceema.Handler.Send.{is_queued, enqueue, waits_for, send}
use ceema.Handler.Deliver.{
  is_settled, on_fetched, waiting, move_out, remove_waiting, fetched_contact, delivered, deliver,
  deliver_one, set_value, set_exceptions,
}
use ceema.Handler.Queue.Entries.{IsQueue}
use ceema.Handler.Queue.{IsQueue-refines}
use ceema.Handler.Delivery.Promised.{IsUnsettled, held, successes, failures}
use ceema.Handler.Delivery.{on_fetched_sends, on_fetched_fails, on_fetched_loses}
use ceema.Tests.Setup.{no_formats, plain_crypto, alice_id, bob_id, hello, letter}
use ceema.Tests.Handlers.{bob, handler}

-- A message of bob's for a client, not encrypted yet.
abbrev for_alice : MessagePayload no_formats → Message no_formats
for_alice payload = record letter { sender = bob_id; recipient = alice_id; payload = payload }

abbrev queued : List (Option (Message no_formats) × ℕ) → MessageHandler no_formats
queued messages = record (handler []) {
  packet_queue = record { id = alice_id; messages = messages } ∷ [];
  promises = 7;
}

IsQueue-refines_example :
    IsQueue (enqueue (for_alice hello) (queued ((some (for_alice hello), 3) ∷ []))).1.packet_queue
    × (waiting
          (waits_for (for_alice hello))
          (enqueue (for_alice hello) (queued ((some (for_alice hello), 3) ∷ []))).1.packet_queue
        ≡ waiting
            (waits_for (for_alice hello))
            (queued ((some (for_alice hello), 3) ∷ [])).packet_queue
          ++ ((some (for_alice hello), 7) ∷ []))
    × ((id' : List ℕ)
        → id' ≢ waits_for (for_alice hello)
        → waiting id'
            (enqueue (for_alice hello) (queued ((some (for_alice hello), 3) ∷ []))).1.packet_queue
          ≡ waiting id' (queued ((some (for_alice hello), 3) ∷ [])).packet_queue)
    × IsQueue (remove_waiting alice_id (queued ((some (for_alice hello), 3) ∷ [])).packet_queue)
    × (waiting alice_id
          (remove_waiting alice_id (queued ((some (for_alice hello), 3) ∷ [])).packet_queue)
        ≡ [])
    × ((id' : List ℕ)
        → id' ≢ alice_id
        → waiting id'
            (remove_waiting alice_id (queued ((some (for_alice hello), 3) ∷ [])).packet_queue)
          ≡ waiting id' (queued ((some (for_alice hello), 3) ∷ [])).packet_queue)
unfolding is_queued
IsQueue-refines_example =
    IsQueue-refines (for_alice hello) alice_id (queued ((some (for_alice hello), 3) ∷ []))
      (refl, tt)

abbrev two_texts : List (Message no_formats × ℕ)
two_texts = (for_alice hello, 3) ∷ (for_alice hello, 4) ∷ []

-- The box of the text under the padding of a draw.
abbrev boxed : ℕ → Message no_formats
boxed n = record (for_alice hello) {
  payload_data = replicate 16 7 ++ add_padding n (1 ∷ 0x68 ∷ 0x69 ∷ []);
}

abbrev alice_contact : Contact
alice_contact = contact alice_id (replicate 32 5)

boxed_lem :
    encrypt plain_crypto no_formats 0 bob.self alice_contact (for_alice hello) ≡ ok (boxed 0)
unfolding encrypt encrypt_inplace add_padding serialize Text.serialize code get_type
boxed_lem = refl

boxed_next :
    encrypt plain_crypto no_formats 1 bob.self alice_contact (for_alice hello) ≡ ok (boxed 1)
unfolding encrypt encrypt_inplace add_padding serialize Text.serialize code get_type
boxed_next = refl

nothing_boxed :
    encrypt plain_crypto no_formats 1 bob.self alice_contact (for_alice MessagePayload.payload_none)
    ≡ err logic_error
unfolding encrypt serialize
nothing_boxed = refl

on_fetched_sends_example :
    on_fetched no_formats bob alice_id (ok alice_contact) (queued (held two_texts)) ≡ (
      ok tt,
      record (queued (held two_texts)) {
        contacts = emplace alice_id (some alice_contact) [];
        packet_queue = remove_waiting alice_id (queued (held two_texts)).packet_queue;
        draws = 2;
        outbox = [] ++ (boxed 0 ∷ boxed 1 ∷ []);
        outcomes = [] ++ successes two_texts;
      },
    )
unfolding has_contact waiting is_settled
on_fetched_sends_example =
    on_fetched_sends no_formats bob alice_contact two_texts (boxed 0 ∷ boxed 1 ∷ []) alice_id
      (queued (held two_texts)) refl refl (refl, refl, boxed_lem, (refl, refl, boxed_next, tt))
      (refl, (refl, tt))

two_texts-IsUnsettled : IsUnsettled (err message_exception) (held two_texts) []
unfolding is_settled
two_texts-IsUnsettled = (refl, (refl, tt))

on_fetched_fails_example :
    on_fetched no_formats bob alice_id (err runtime_error) (queued (held two_texts)) ≡ (
      ok tt,
      record (queued (held two_texts)) {
        contacts = emplace alice_id none [];
        packet_queue = remove_waiting alice_id (queued (held two_texts)).packet_queue;
        outcomes = [] ++ failures (waiting alice_id (queued (held two_texts)).packet_queue);
      },
    )
unfolding waiting
on_fetched_fails_example =
    on_fetched_fails no_formats bob runtime_error alice_id (queued (held two_texts)) (λ e. cc)
      two_texts-IsUnsettled

-- The second of these cannot be encrypted.
abbrev a_bad_text : List (Message no_formats × ℕ)
a_bad_text =
    (for_alice hello, 3) ∷ (for_alice MessagePayload.payload_none, 4) ∷ (for_alice hello, 5) ∷ []

on_fetched_loses_example :
    (on_fetched no_formats bob alice_id (ok alice_contact) (queued (held a_bad_text)) ≡ (
      err runtime_error,
      record (queued (held a_bad_text)) {
        contacts = emplace alice_id (some alice_contact) [];
        packet_queue = move_out alice_id 3 (queued (held a_bad_text)).packet_queue;
        draws = 2;
        outbox = [] ++ (boxed 0 ∷ []);
        outcomes = [] ++ ((3, ok tt) ∷ []);
      },
    ))
    × (waiting alice_id (move_out alice_id 3 (queued (held a_bad_text)).packet_queue)
        ≡ (none, 3)
          ∷ (some (for_alice MessagePayload.payload_none), 4)
          ∷ (some (for_alice hello), 5)
          ∷ [])
unfolding has_contact waiting is_settled
on_fetched_loses_example =
    on_fetched_loses no_formats bob logic_error alice_contact (for_alice hello)
      (for_alice MessagePayload.payload_none) (boxed 0) 3 4 ((some (for_alice hello), 5) ∷ [])
      alice_id (queued (held a_bad_text)) (λ e. cc) refl refl refl refl refl refl refl boxed_lem
      nothing_boxed

-- A promise that is satisfied already throws when its message is sent, and again in the catch clause.
settled_twice_throws :
    (on_fetched no_formats bob alice_id
      (ok alice_contact)
      (record (queued (held two_texts)) { outcomes = (3, ok tt) ∷ [] })).0
    ≡ err runtime_error
unfolding on_fetched fetched fetched_contact delivered deliver deliver_one send set_value
    set_exceptions encrypt encrypt_inplace add_padding serialize Text.serialize code get_type
settled_twice_throws = refl

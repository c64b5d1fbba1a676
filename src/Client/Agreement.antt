-- ===== src/Client/Agreement.antt =====
-- The status of `ThreeplConnection::send_agreement` behind a text (src/threepl/ThreeplConnection.cpp
-- and MessageHandler.cpp).
use ceema.Prelude.{
  ℕ, ◌≡◌, refl, ap, subst, Ok, ◌∙◌, Bool, List, [], ◌∷◌, ◌++◌, length, if◌then◌else◌, ok,
}
use ceema.Prelude.Stateful.{bind_keeps}
use ceema.Contact.{contact, account}
use ceema.Contacts.{get_contact}
use ceema.Payload.Text.{PayloadText}
use ceema.Payload.MessageStatus.{agreed, disagreed}
use ceema.Payload.MessagePayload.{Formats, MessagePayload}
use ceema.Packet.Message.{Message}
use ceema.Packet.Message.Encryption.{decrypt}
use ceema.Handler.{MessageHandler, Context}
use ceema.Handler.Send.{send_payload, with_payload}
use ceema.Handler.Show.{on_msg_text}
use ceema.Handler.Receive.{decrypt_from, on_payload, answer, handle, recv}
use ceema.Handler.Opened.{SameHeader, decrypt_from-SameHeader}
use ceema.Handler.Sending.{Kept}
use ceema.Handler.Receipts.{Seals, Knows, send_payload_lem}
use ceema.Handler.Answers.{recv_opened}
use ceema.Handler.Authority.Recv.{answer-Kept}
use ceema.Client.{agreement}

-- The state behind a text that was received.
record HasAgreeable {f : Formats} (id : List ℕ) (h h' : MessageHandler f) : Type 0 where
  last_agreeable : h'.last_agreeable ≡ id
  contacts : h'.contacts ≡ h.contacts

module _ (f : Formats) (x : Context) where
  handle-HasAgreeable :
      (m : Message f) (p : PayloadText) (h : MessageHandler f)
      → m.payload ≡ MessagePayload.text p
      → HasAgreeable m.id h (handle f x m h).1
  unfolding handle on_payload on_msg_text
  handle-HasAgreeable m p h e =
      bind_keeps (HasAgreeable m.id h) (on_payload f x m m.payload h) _
        (rw e (record { last_agreeable = refl; contacts = refl }))
        λ ack s w.
          let k : Kept s (answer f x m ack s).1 = answer-Kept f x m ack s in
          record {
            last_agreeable = k.last_agreeable ∙ w.last_agreeable;
            contacts = k.contacts ∙ w.contacts;
          }

  recv-HasAgreeable :
      (msg m : Message f) (p : PayloadText) (h : MessageHandler f)
      → decrypt_from f x (get_contact msg.sender h.contacts) msg ≡ ok m
      → m.payload ≡ MessagePayload.text p
      → HasAgreeable msg.id h (recv f x msg h).1
  recv-HasAgreeable msg m p h d e =
      let (h1, s, run) = recv_opened f x msg m h d in
      let same : SameHeader msg m =
        subst (Ok (SameHeader msg)) d
          (decrypt_from-SameHeader f x (get_contact msg.sender h.contacts) msg) in
      let a : HasAgreeable m.id h1 (handle f x m h1).1 = handle-HasAgreeable m p h1 e in
      record {
        last_agreeable = ap (λ r. r.1.last_agreeable) run ∙ a.last_agreeable ∙ same.id;
        contacts = ap (λ r. r.1.contacts) run ∙ a.contacts ∙ s.contacts;
      }

  -- Behind a text that a contact has sealed, and whose id has eight bytes, the agreement or
  -- disagreement that is sent to that contact is what it decrypts to an agreement or disagreement
  -- with that text, where the boxes open with the keys that sealed them and sealing does not fail.
  pub agreement_names_text :
      (agree : Bool) (id sk sk' : List ℕ) (msg m : Message f) (p : PayloadText)
      (h : MessageHandler f)
      → Seals x.crypto
      → Knows f x id sk msg.sender sk' h
      → decrypt x.crypto f (contact msg.sender (x.crypto.derive sk')) x.self msg ≡ ok m
      → m.payload ≡ MessagePayload.text p
      → length msg.id ≡ 8
      → (sealed receipt : Message f) × (h' : MessageHandler f) × (send_payload f x msg.sender
            (agreement agree (recv f x msg h).1)
            (recv f x msg h).1
          ≡ (ok (recv f x msg h).1.promises, h'))
        × (h'.outbox ≡ (recv f x msg h).1.outbox ++ (sealed ∷ []))
        × (decrypt x.crypto f
              (contact id (x.crypto.derive sk))
              (account x.crypto msg.sender sk')
              sealed
            ≡ ok receipt)
        × (receipt.payload
            ≡ MessagePayload.message_status
                (record { status = if agree then agreed else disagreed; ids = msg.id ∷ [] }))
  unfolding agreement with_payload decrypt_from
  agreement_names_text agree id sk sk' msg m p h c k d e n =
      let h1 : MessageHandler f = (recv f x msg h).1 in
      let a : HasAgreeable msg.id h h1 =
        recv-HasAgreeable msg m p h (rw (k.other, decrypt_from) d) e in
      let knows : Knows f x id sk msg.sender sk' h1 = record {
        self = k.self;
        other = ap (get_contact msg.sender) a.contacts ∙ k.other;
      } in
      let (sealed, h', sent, out, _, back) =
        send_payload_lem f x id sk msg.sender sk' (agreement agree h1) h1 c knows
          (ap length a.last_agreeable ∙ n, tt) in
      (
        sealed,
        with_payload f x msg.sender (agreement agree h1) h1.draws h1.counter,
        h',
        sent,
        out,
        back,
        ap
            (λ v.
              MessagePayload.message_status
                (record { status = if agree then agreed else disagreed; ids = v ∷ [] }))
            a.last_agreeable,
      )

-- ===== src/Handler/Receipts.antt =====
-- `sendPayload` of ThreeplMessageHandler to a contact that is there (src/threepl/MessageHandler.h and
-- MessageHandler.cpp).
use ceema.Prelude.{
  ℕ, ◌+◌, ◌%◌, arith, ◌≡◌, refl, ap, sym, subst, inl, inr, true, Option, some, List, [], ◌∷◌, ◌++◌,
  Option-cases, ok,
}
use ceema.Encoding.Crypto.{Crypto, IsCrypto}
use ceema.Contact.{Contact, Account, account, contact}
use ceema.Contacts.{Contacts, find, has_contact, get_contact}
use ceema.Payload.MessagePayload.{Formats, MessagePayload}
use ceema.Payload.MessagePayload.RoundTrip.{IsWritable}
use ceema.Packet.Message.{Message}
use ceema.Packet.Message.Encryption.{encrypt, decrypt, decrypt-encrypt}
use ceema.Handler.{MessageHandler, Context}
use ceema.Handler.Send.{
  send_sealed, send_to, send, send_message, send_payload, with_payload, finish,
}

-- What is assumed of the boxes, and that they seal.
pub record Seals (c : Crypto) : Type 0 where
  pub laws : IsCrypto c
  pub seals : (t n pk sk : List ℕ) → (r : List ℕ) × (c.box t n pk sk ≡ some r)

has_contact-get_contact :
    (id : List ℕ) (contacts : Contacts) (c : Option Contact)
    → get_contact id contacts ≡ ok c
    → has_contact id contacts ≡ true
unfolding has_contact get_contact
has_contact-get_contact id contacts c e = elim (Option-cases (find id contacts)) [
  | inl n ↦ absurd (ground arith)
  | inr (o, s) ↦ rw (s, has_contact) refl
]

module _ (f : Formats) (x : Context) where
  -- A message that is encrypted to a contact that is there goes out.
  send_message-known :
      (msg sealed : Message f) (c : Contact) (h : MessageHandler f)
      → get_contact msg.recipient h.contacts ≡ ok (some c)
      → encrypt x.crypto f (x.draw h.draws).padding x.self c msg ≡ ok sealed
      → send_message f x msg h ≡ (
        ok h.promises,
        record h {
          promises = h.promises + 1;
          outcomes = h.outcomes ++ ((h.promises, ok tt) ∷ []);
          outbox = h.outbox ++ (sealed ∷ []);
          draws = h.draws + 1;
        },
      )
  unfolding send_message send send_to send_sealed finish
  send_message-known msg sealed c h e s =
      rw (has_contact-get_contact msg.recipient h.contacts (some c) e, send_message, e, s) refl

module _ (f : Formats) (x : Context) (id sk id' sk' : List ℕ) where
  -- This client has the other one's contact.
  pub record Knows (h : MessageHandler f) : Type 0 where
    pub self : x.self ≡ account x.crypto id sk
    pub other : get_contact id' h.contacts ≡ ok (some (contact id' (x.crypto.derive sk')))

  -- A payload in a format of the program's own that fits its places, sent to a contact that is
  -- there, goes out at once, settles its promise, and is what the contact decrypts, where the boxes
  -- open with the keys that sealed them and sealing does not fail.
  pub send_payload_lem :
      (p : MessagePayload f) (h : MessageHandler f)
      → Seals x.crypto
      → Knows h
      → IsWritable p
      → (sealed : Message f) × (h' : MessageHandler f) × (send_payload f x id' p h
          ≡ (ok h.promises, h'))
        × (h'.outbox ≡ h.outbox ++ (sealed ∷ []))
        × (h'.outcomes ≡ h.outcomes ++ ((h.promises, ok tt) ∷ []))
        × (decrypt x.crypto f (contact id (x.crypto.derive sk)) (account x.crypto id' sk') sealed
            ≡ ok (with_payload f x id' p h.draws h.counter))
  unfolding send_payload
  send_payload_lem p h c k w =
      let msg : Message f = with_payload f x id' p h.draws h.counter in
      let (sealed, done, back) =
        decrypt-encrypt x.crypto f (x.draw (h.draws + 1)).padding id sk id' sk' msg c.laws c.seals
          (ap (λ (a : Account). a.id) k.self) refl w in
      let h' : MessageHandler f = record h {
        draws = h.draws + 1;
        counter = (h.counter + 1) % 256;
      } in
      let enc : encrypt x.crypto f (x.draw h'.draws).padding x.self
            (contact id' (x.crypto.derive sk')) msg
          ≡ ok sealed =
        subst
          (λ a.
            encrypt x.crypto f (x.draw h'.draws).padding a (contact id' (x.crypto.derive sk')) msg
            ≡ ok sealed)
          (sym k.self) done in
      (
        sealed,
        record h' {
          promises = h.promises + 1;
          outcomes = h.outcomes ++ ((h.promises, ok tt) ∷ []);
          outbox = h.outbox ++ (sealed ∷ []);
          draws = h'.draws + 1;
        },
        send_message-known f x msg sealed (contact id' (x.crypto.derive sk')) h' k.other enc,
        refl,
        refl,
        back,
      )

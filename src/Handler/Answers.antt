-- ===== src/Handler/Answers.antt =====
-- The end of `ThreeplMessageHandler::recv`, behind the handlers of messages to a single client
-- (src/threepl/MessageHandler.cpp).
use ceema.Prelude.{
  ℕ, arith, ◌≡◌, refl, ap, subst, Ok, ◌∙◌, inl, inr, Bool, true, false, Option, none, some, List,
  [], ◌∷◌, ◌++◌, length, ◌==◌, Bool-cases, Result, ok, err, if◌then◌else◌,
}
use ceema.Prelude.Stateful.{bind}
use ceema.Types.Flags.{MessageFlag, isset}
use ceema.Contact.{Contact, account, contact}
use ceema.Contacts.{Contacts, find, get_contact, fetch_contact}
use ceema.Payload.Picture.{PayloadPicture}
use ceema.Payload.MessageStatus.{seen, received}
use ceema.Payload.MessagePayload.{Formats, MessagePayload}
use ceema.Packet.Message.{Message}
use ceema.Packet.Message.Encryption.{decrypt}
use ceema.Handler.{MessageHandler, Context, Notice, tell}
use ceema.Handler.Send.{send_payload, with_payload}
use ceema.Handler.Show.{
  on_msg_text, on_msg_location, on_msg_audio, on_msg_video, on_msg_file, on_msg_picture,
}
use ceema.Handler.Receive.{
  nickname, decrypt_from, opened, on_payload, answer, status_of, handle, recv,
}
use ceema.Handler.Opened.{
  Silent, Silent-refl, Silent-trans, Silent-tell, SameHeader, decrypt_from-SameHeader,
}
use ceema.Handler.Receipts.{Seals, Knows, send_payload_lem}

-- The messages to a single client that are shown to the user.
abbrev pub IsAnswered : {f : Formats} → MessagePayload f → Type 0
IsAnswered (MessagePayload.text p) = Unit {0}
IsAnswered (MessagePayload.location p) = Unit {0}
IsAnswered (MessagePayload.picture p) = Unit {0}
IsAnswered (MessagePayload.audio p) = Unit {0}
IsAnswered (MessagePayload.video p) = Unit {0}
IsAnswered (MessagePayload.file p) = Unit {0}
IsAnswered p = ⊥

moved_contact :
    {sender sender' : List ℕ} {contacts contacts' : Contacts} (pk : List ℕ)
    → sender' ≡ sender
    → contacts' ≡ contacts
    → get_contact sender contacts ≡ ok (some (contact sender pk))
    → get_contact sender' contacts' ≡ ok (some (contact sender' pk))
moved_contact pk e s k = rw (e, s) k

module _ (f : Formats) (x : Context) where
  on_msg_picture_known :
      (m : Message f) (p : PayloadPicture) (c : Contact) (h : MessageHandler f)
      → get_contact m.sender h.contacts ≡ ok (some c)
      → ((on_msg_picture m p h).0 ≡ ok true) × Silent h (on_msg_picture m p h).1
  unfolding on_msg_picture get_contact fetch_contact
  on_msg_picture_known m p c h e = go (find m.sender h.contacts) refl
    where
      go :
          (o : Option (Option Contact))
          → find m.sender h.contacts ≡ o
          → ((on_msg_picture m p h).0 ≡ ok true) × Silent h (on_msg_picture m p h).1
      go none q = absurd (ground arith)
      go (some none) q = absurd (ground arith)
      go (some (some k)) q = rw (q, on_msg_picture, fetch_contact) (refl, Silent-tell h _)

  on_payload-IsAnswered :
      (m : Message f) (p : MessagePayload f) (c : Contact) (h : MessageHandler f)
      → get_contact m.sender h.contacts ≡ ok (some c)
      → IsAnswered p
      → ((on_payload f x m p h).0 ≡ ok true) × Silent h (on_payload f x m p h).1
  unfolding on_payload on_msg_text on_msg_location on_msg_audio on_msg_video on_msg_file
  on_payload-IsAnswered m (MessagePayload.text p) c h e a = (
    refl,
    record { contacts = refl; groups = refl; packet_queue = refl; outbox = refl; promises = refl },
  )
  on_payload-IsAnswered m (MessagePayload.location p) c h e a = (refl, Silent-tell h _)
  on_payload-IsAnswered m (MessagePayload.picture p) c h e a = on_msg_picture_known m p c h e
  on_payload-IsAnswered m (MessagePayload.audio p) c h e a = (refl, Silent-tell h _)
  on_payload-IsAnswered m (MessagePayload.video p) c h e a = (refl, Silent-tell h _)
  on_payload-IsAnswered m (MessagePayload.file p) c h e a = (refl, Silent-tell h _)
  on_payload-IsAnswered m p c h e a = absurd a

  -- A message that is decrypted is handled, from a state that differs in what is shown.
  pub recv_opened :
      (msg m : Message f) (h : MessageHandler f)
      → decrypt_from f x (get_contact msg.sender h.contacts) msg ≡ ok m
      → (h' : MessageHandler f) × Silent h h' × (recv f x msg h ≡ handle f x m h')
  unfolding recv nickname opened
  recv_opened msg m h d = elim (Bool-cases (length msg.nick == 0)) [
    | inl e ↦ (h, Silent-refl h, rw (e, recv, nickname, d) refl)
    | inr e ↦ (
      tell (Notice.alias msg.sender msg.nick ∷ []) h,
      Silent-tell h _,
      rw (e, recv, nickname, d) refl,
    )
  ]

  answer_lem :
      (m : Message f) (r : Result Bool × MessageHandler f)
      → r.0 ≡ ok true
      → isset m.flags MessageFlag.group ≡ false
      → bind r (answer f x m)
        ≡ bind (send_payload f x m.sender (status_of f x m) r.1) (λ _ h. (ok tt, h))
  unfolding answer
  answer_lem m (ok b, h) e g = let w : b ≡ true = ground arith in rw (w, g, answer) refl
  answer_lem m (err e', h) e g = absurd (ground arith)

  -- A message that a contact has sealed, whose id has eight bytes, that is shown to the user, and
  -- that is not flagged as a group's, is answered with one message, which that contact decrypts to
  -- the status of its own, where the boxes open with the keys that sealed them and sealing does not
  -- fail.
  pub recv_answers :
      (id sk sk' : List ℕ) (msg m : Message f) (h : MessageHandler f)
      → Seals x.crypto
      → Knows f x id sk msg.sender sk' h
      → decrypt x.crypto f (contact msg.sender (x.crypto.derive sk')) x.self msg ≡ ok m
      → IsAnswered m.payload
      → isset msg.flags MessageFlag.group ≡ false
      → length msg.id ≡ 8
      → (sealed receipt : Message f) × (h' : MessageHandler f) × (recv f x msg h ≡ (ok tt, h'))
        × (h'.outbox ≡ h.outbox ++ (sealed ∷ []))
        × (decrypt x.crypto f
              (contact id (x.crypto.derive sk))
              (account x.crypto msg.sender sk')
              sealed
            ≡ ok receipt)
        × (receipt.payload
            ≡ MessagePayload.message_status
                (record { status = if x.status_seen then seen else received; ids = msg.id ∷ [] }))
  unfolding handle decrypt_from status_of with_payload
  recv_answers id sk sk' msg m h c k d a g n =
      let pk : List ℕ = x.crypto.derive sk' in
      let dec : decrypt_from f x (get_contact msg.sender h.contacts) msg ≡ ok m =
        rw (k.other, decrypt_from) d in
      let e : SameHeader msg m =
        subst (Ok (SameHeader msg)) dec
          (decrypt_from-SameHeader f x (get_contact msg.sender h.contacts) msg) in
      let (h1, s1, run) = recv_opened msg m h dec in
      let other : get_contact m.sender h1.contacts
          ≡ ok (some (contact m.sender (x.crypto.derive sk'))) =
        moved_contact pk e.sender s1.contacts k.other in
      let (ack, s2) =
        on_payload-IsAnswered m m.payload (contact m.sender (x.crypto.derive sk')) h1 other a in
      let h2 : MessageHandler f = (on_payload f x m m.payload h1).1 in
      let s : Silent h h2 = Silent-trans s1 s2 in
      let knows : Knows f x id sk m.sender sk' h2 = record {
        self = k.self;
        other = moved_contact pk e.sender s.contacts k.other;
      } in
      let (sealed, h', sent, out, _, back) =
        send_payload_lem f x id sk m.sender sk' (status_of f x m) h2 c knows
          (ap length e.id ∙ n, tt) in
      (
        sealed,
        with_payload f x m.sender (status_of f x m) h2.draws h2.counter,
        h',
        run
            ∙ answer_lem m (on_payload f x m m.payload h1) ack
                (ap (λ v. isset v MessageFlag.group) e.flags ∙ g)
            ∙ ap (λ r. bind r (λ _ h. (ok tt, h))) sent,
        out ∙ ap (λ o. o ++ (sealed ∷ [])) s.outbox,
        subst
            (λ v.
              decrypt x.crypto f (contact id (x.crypto.derive sk)) (account x.crypto v sk') sealed
              ≡ ok (with_payload f x m.sender (status_of f x m) h2.draws h2.counter))
            e.sender back,
        ap
            (λ v.
              MessagePayload.message_status
                (record { status = if x.status_seen then seen else received; ids = v ∷ [] }))
            e.id,
      )

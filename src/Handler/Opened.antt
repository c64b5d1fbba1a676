-- ===== src/Handler/Opened.antt =====
-- The state and the message of `ThreeplMessageHandler::recv` behind the decryption
-- (src/threepl/MessageHandler.cpp).
use ceema.Prelude.{
  ◌⊎◌, inl, inr, Bool-cases, ◌≡◌, refl, ◌∙◌, ◌||◌, not, Option, none, some, List, length, ◌-◌, ◌==◌,
  list_eq, take, Result, Ok, Ok-bind, ok, err, runtime_error, throw_if, out_of_bounds,
}
use ceema.Prelude.Stateful.{bind}
use ceema.Contacts.{get_contact}
use ceema.Encoding.Crypto.{Crypto, decrypt_inplace, mac_bytes}
use ceema.Encoding.Pkcs7.{strip_padding}
use ceema.Contact.{Contact, Account}
use ceema.Payload.MessagePayload.{Formats, deserialize}
use ceema.Packet.Message.{Message}
use ceema.Packet.Message.Encryption.{decrypt, or_throw}
use ceema.Handler.{MessageHandler, Context, Notice, tell}
use ceema.Handler.Receive.{decrypt_from, opened, nickname, handle, recv}

pub record SameHeader {f : Formats} (m m' : Message f) : Type 0 where
  pub sender : m'.sender ≡ m.sender
  pub recipient : m'.recipient ≡ m.recipient
  pub id : m'.id ≡ m.id
  pub flags : m'.flags ≡ m.flags

-- What nothing is sent by, and what keeps the groups: only what is shown differs.
pub record Silent {f : Formats} (h h' : MessageHandler f) : Type 0 where
  pub contacts : h'.contacts ≡ h.contacts
  pub groups : h'.groups ≡ h.groups
  pub packet_queue : h'.packet_queue ≡ h.packet_queue
  pub outbox : h'.outbox ≡ h.outbox
  pub promises : h'.promises ≡ h.promises

module _ {f : Formats} where
  abbrev pub Silent-refl : (h : MessageHandler f) → Silent h h
  Silent-refl h = record {
    contacts = refl;
    groups = refl;
    packet_queue = refl;
    outbox = refl;
    promises = refl;
  }

  -- Something is shown.
  abbrev pub Silent-tell :
      (h : MessageHandler f) (notices : List (Notice f)) → Silent h (tell notices h)
  Silent-tell h notices = record {
    contacts = refl;
    groups = refl;
    packet_queue = refl;
    outbox = refl;
    promises = refl;
  }

  pub Silent-trans : {h h' h'' : MessageHandler f} → Silent h h' → Silent h' h'' → Silent h h''
  Silent-trans p q = record {
    contacts = q.contacts ∙ p.contacts;
    groups = q.groups ∙ p.groups;
    packet_queue = q.packet_queue ∙ p.packet_queue;
    outbox = q.outbox ∙ p.outbox;
    promises = q.promises ∙ p.promises;
  }

module _ (c : Crypto) (f : Formats) where
  decrypt-SameHeader :
      (sender : Contact) (recipient : Account) (m : Message f)
      → Ok (SameHeader m) (decrypt c f sender recipient m)
  unfolding decrypt
  decrypt-SameHeader sender recipient m =
      Ok-bind (SameHeader m) (throw_if (length m.payload_data == 0) runtime_error) _ λ _.
        Ok-bind (SameHeader m)
          (throw_if (not (list_eq sender.id m.sender) || not (list_eq recipient.id m.recipient))
            runtime_error)
          _
          λ _.
            Ok-bind (SameHeader m) (decrypt_inplace c m.payload_data m.nonce sender.pk recipient.sk)
              _
              λ o. Ok-bind (SameHeader m) (or_throw o) _ λ d.
                Ok-bind (SameHeader m) (strip_padding (take (length d - mac_bytes) d)) _ λ d'.
                  Ok-bind (SameHeader m) (deserialize f d') _
                    λ p. record { sender = refl; recipient = refl; id = refl; flags = refl }

module _ (f : Formats) (x : Context) where
  pub decrypt_from-SameHeader :
      (o : Result (Option Contact)) (msg : Message f) → Ok (SameHeader msg) (decrypt_from f x o msg)
  unfolding decrypt_from
  decrypt_from-SameHeader (err e) msg = tt
  decrypt_from-SameHeader (ok none) msg = tt
  decrypt_from-SameHeader (ok (some contact)) msg = decrypt-SameHeader x.crypto f contact x.self msg

  opened_lem :
      (msg : Message f) (r : Result (Message f)) (h : MessageHandler f)
      → Ok (SameHeader msg) r
      → Ok (λ m. SameHeader msg m × ((m ≡ msg) ⊎ (r ≡ ok m))) (opened f x msg r h).0
        × Silent h (opened f x msg r h).1
  unfolding opened
  opened_lem msg (ok m) h e = ((e, inr refl), Silent-refl h)
  opened_lem msg (err out_of_bounds) h e = (tt, Silent-refl h)
  opened_lem msg (err e) h _ = (
    (record { sender = refl; recipient = refl; id = refl; flags = refl }, inl refl),
    (Silent-tell h _),
  )

  nickname-Silent : (msg : Message f) (h : MessageHandler f) → Silent h (nickname f x msg h).1
  unfolding nickname
  nickname-Silent msg h = elim (Bool-cases (length msg.nick == 0)) [
    | inl e ↦ rw (e, nickname) (Silent-refl h)
    | inr e ↦ rw (e, nickname) (Silent-tell h _)
  ]

  -- The message as it arrived, or decrypted.
  abbrev pub IsOpened : MessageHandler f → Message f → Message f → Type 0
  IsOpened h msg m = (m ≡ msg) ⊎ (decrypt_from f x (get_contact msg.sender h.contacts) msg ≡ ok m)

  -- What a message does is what its handlers do, from a state that differs by what is shown, with a
  -- message that has the header that arrived.
  pub recv-through {κ} :
      (R : MessageHandler f → Type κ) (msg : Message f) (h : MessageHandler f)
      → ((h' : MessageHandler f) → Silent h h' → R h')
      → ((m : Message f) (h' : MessageHandler f)
          → SameHeader msg m
          → IsOpened h msg m
          → Silent h h'
          → R (handle f x m h').1)
      → R (recv f x msg h).1
  unfolding recv
  recv-through R msg h silent handled = named (nickname f x msg h) (nickname-Silent msg h)
    where
      tried :
          (h' : MessageHandler f)
          → Silent h h'
          → (r : Result (Message f) × MessageHandler f)
          → Ok
              (λ m.
                SameHeader msg m
                × ((m ≡ msg) ⊎ (decrypt_from f x (get_contact msg.sender h'.contacts) msg ≡ ok m)))
              r.0
          → Silent h' r.1
          → R (bind r (handle f x)).1
      tried h' s (ok m, h'') e t = handled m h'' e.0 (rw (← s.contacts) e.1) (Silent-trans s t)
      tried h' s (err e, h'') _ t = silent h'' (Silent-trans s t)

      open_it : MessageHandler f → Result (Message f) × MessageHandler f
      open_it h' = opened f x msg (decrypt_from f x (get_contact msg.sender h'.contacts) msg) h'

      named :
          (r : Result (Unit {0}) × MessageHandler f)
          → Silent h r.1
          → R (bind r (λ _ h'. bind (open_it h') (handle f x))).1
      named (ok u, h') s =
          let from = get_contact msg.sender h'.contacts in
          let (e, t) =
            opened_lem msg (decrypt_from f x from msg) h' (decrypt_from-SameHeader from msg) in
          tried h' s (open_it h') e t
      named (err e, h') s = silent h' s

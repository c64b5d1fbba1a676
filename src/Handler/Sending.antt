-- ===== src/Handler/Sending.antt =====
-- The state of ThreeplMessageHandler behind `sendPayload`, `requestSync` and what they call
-- (src/threepl/MessageHandler.cpp).
use ceema.Prelude.{
  ℕ, ◌+◌, ◌%◌, inl, inr, ◌≡◌, refl, ◌∙◌, Option, none, some, List, [], ◌∷◌, list_eq, Result, ok,
  err, arith, out_of_bounds, Bool-cases,
}
use ceema.Prelude.Stateful.{pure, ◌>>◌, bind_keeps}
use ceema.Contact.{Contact}
use ceema.Contacts.{has_contact, get_contact}
use ceema.Groups.{uid_cid, uid_gid}
use ceema.Payload.MessagePayload.{Formats, MessagePayload}
use ceema.Packet.Message.{Message}
use ceema.Packet.Message.Encryption.{encrypt}
use ceema.Handler.{MessageHandler, Context}
use ceema.Handler.Send.{
  is_queued, waits_for, enqueue, finish, send_sealed, send_to, send, send_message, send_payload,
  send_members, is_owner, with_payload,
}
use ceema.Handler.Groups.{request_sync}

pub record Kept {f : Formats} (h h' : MessageHandler f) : Type 0 where
  pub contacts : h'.contacts ≡ h.contacts
  pub groups : h'.groups ≡ h.groups
  pub last_agreeable : h'.last_agreeable ≡ h.last_agreeable
  pub notices : h'.notices ≡ h.notices

module _ {f : Formats} where
  abbrev pub Kept-refl : (h : MessageHandler f) → Kept h h
  Kept-refl h = record { contacts = refl; groups = refl; last_agreeable = refl; notices = refl }

  pub Kept-trans : {h h' h'' : MessageHandler f} → Kept h h' → Kept h' h'' → Kept h h''
  Kept-trans p q = record {
    contacts = q.contacts ∙ p.contacts;
    groups = q.groups ∙ p.groups;
    last_agreeable = q.last_agreeable ∙ p.last_agreeable;
    notices = q.notices ∙ p.notices;
  }

  -- From a state that differs elsewhere only.
  abbrev unchanged :
      {h h' : MessageHandler f}
      → {promises draws counter : ℕ}
      → Kept (record h { promises = promises; draws = draws; counter = counter }) h'
      → Kept h h'
  unchanged k = record {
    contacts = k.contacts;
    groups = k.groups;
    last_agreeable = k.last_agreeable;
    notices = k.notices;
  }

  pub enqueue-Kept : (msg : Message f) (h : MessageHandler f) → Kept h (enqueue msg h).1
  unfolding enqueue
  enqueue-Kept msg h = elim (Bool-cases (is_queued (waits_for msg) h.packet_queue)) [
    | inl e ↦
        rw e (record { contacts = refl; groups = refl; last_agreeable = refl; notices = refl })
    | inr e ↦
        rw e (record { contacts = refl; groups = refl; last_agreeable = refl; notices = refl })
  ]

  finish-Kept :
      (t : ℕ) (h : MessageHandler f) (r : Result (Unit {0}) × MessageHandler f)
      → Kept h r.1
      → Kept h (finish t r).1
  unfolding finish
  finish-Kept t h (err out_of_bounds, h') k = k
  finish-Kept t h (ok u, h') k = ground arith
  finish-Kept t h (err e, h') k = ground arith

module _ (f : Formats) (x : Context) where
  pub send-Kept : (msg : Message f) (h : MessageHandler f) → Kept h (send f x msg h).1
  unfolding send send_to send_sealed
  send-Kept msg h = go (get_contact msg.recipient h.contacts)
    where
      sealed : (r : Result (Message f)) (k : MessageHandler f) → Kept k (send_sealed f x r k).1
      sealed (ok m) k = record {
        contacts = refl;
        groups = refl;
        last_agreeable = refl;
        notices = refl;
      }
      sealed (err e) k = Kept-refl k

      go : (c : Result (Option Contact)) → Kept h (send_to f x c msg h).1
      go (err e) = Kept-refl h
      go (ok none) = Kept-refl h
      go (ok (some c)) = unchanged (
          sealed (encrypt x.crypto f (x.draw h.draws).padding x.self c msg)
            (record h { draws = h.draws + 1 }))

  pub send_message-Kept :
      (msg : Message f) (h : MessageHandler f) → Kept h (send_message f x msg h).1
  unfolding send_message
  send_message-Kept msg h = elim (Bool-cases (has_contact msg.recipient h.contacts)) [
    | inl e ↦ rw e (
        finish-Kept h.promises h (send f x msg (record h { promises = h.promises + 1 }))
          (unchanged (send-Kept msg (record h { promises = h.promises + 1 }))))
    | inr e ↦ rw e (enqueue-Kept msg h)
  ]

  pub send_payload-Kept :
      (recipient : List ℕ) (p : MessagePayload f) (h : MessageHandler f)
      → Kept h (send_payload f x recipient p h).1
  unfolding send_payload
  send_payload-Kept recipient p h = unchanged (
      send_message-Kept (with_payload f x recipient p h.draws h.counter)
        (record h { draws = h.draws + 1; counter = (h.counter + 1) % 256 }))

  pub send_members-Kept :
      (members : List (List ℕ)) (p : MessagePayload f) (h : MessageHandler f)
      → Kept h (send_members f x members p h).1
  unfolding send_members
  send_members-Kept [] p h = Kept-refl h
  send_members-Kept (member ∷ members) p h = elim (Bool-cases (list_eq member x.self.id)) [
    | inl e ↦ rw (e, send_members) (send_members-Kept members p h)
    | inr e ↦
        rw (e, send_members)
          (bind_keeps (Kept h) (send_payload f x member p h) _ (send_payload-Kept member p h)
            λ t h' k.
              bind_keeps (Kept h) (send_members f x members p h') _
                (Kept-trans k (send_members-Kept members p h')) λ ts h'' k'. k')
  ]

  -- Two messages to the same client.
  pub two :
      (recipient : List ℕ) (p q : MessagePayload f) (h : MessageHandler f) {A : Type 0} (a : A)
      → Kept h (((send_payload f x recipient p >> send_payload f x recipient q) >> pure a) h).1
  two recipient p q h a =
      bind_keeps (Kept h) ((send_payload f x recipient p >> send_payload f x recipient q) h) _
        (bind_keeps (Kept h) (send_payload f x recipient p h) _ (send_payload-Kept recipient p h)
          λ _ h' k. Kept-trans k (send_payload-Kept recipient q h'))
        λ _ h' k. k

  pub request_sync-Kept :
      (msg : Message f) (uid : List ℕ) (h : MessageHandler f)
      → Kept h (request_sync f x msg uid h).1
  unfolding request_sync
  request_sync-Kept msg uid h = elim (Bool-cases (is_owner f x uid)) [
    | inl e ↦
        rw (e, request_sync)
          (two msg.sender
            (MessagePayload.group_members
              (record { group = uid_gid uid; members = x.self.id ∷ [] }))
            (MessagePayload.group_leave (record { group = uid })) h tt)
    | inr e ↦
        rw (e, request_sync)
          (bind_keeps (Kept h)
            (send_payload f x (uid_cid uid)
              (MessagePayload.group_sync (record { group = uid_gid uid })) h)
            _ (send_payload-Kept (uid_cid uid) _ h) λ _ h' k. k)
  ]

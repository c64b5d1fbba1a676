-- ===== src/Handler/Delivery/Steps.antt =====
-- The steps of the callback that delivers what waits for a contact of ThreeplMessageHandler.
use ceema.Prelude.{
  ℕ, suc, ◌+◌, ◌≡◌, ◌≢◌, refl, ap, ◌∙◌, inl, inr, true, false, Option, none, some, List, [], ◌∷◌,
  ◌++◌, append_assoc, append-nil, length, list_eq, list_eq_self, Bool-cases, Option-cases, arith,
  Result, Error, ok, err, out_of_bounds, message_exception, runtime_error,
}
use ceema.Contact.{Contact}
use ceema.Contacts.{Contacts, find, has_contact, get_contact, emplace}
use ceema.Payload.MessagePayload.{Formats}
use ceema.Packet.PacketType.{PacketType}
use ceema.Packet.Message.{Message, is_message_recv}
use ceema.Packet.Message.Encryption.{encrypt}
use ceema.Handler.{MessageHandler, Context}
use ceema.Handler.Send.{settle, send, send_to, send_sealed}
use ceema.Handler.Deliver.{
  move_out, remove_waiting, is_settled, set_exceptions, erased, delivered, deliver_one, deliver,
}
use ceema.Handler.Delivery.Promised.{
  failures, successes, IsUnsettled, held, all_moved, set_value_lem,
}

find-append :
    (id : List ℕ) (c : Contact) (contacts : Contacts)
    → find id contacts ≡ none
    → find id (contacts ++ ((id, some c) ∷ [])) ≡ some (some c)
unfolding find
find-append id c [] e = rw (list_eq_self id) refl
find-append id c ((key, k) ∷ contacts) e = elim (Bool-cases (list_eq key id)) [
  | inl q ↦ absurd (let w : some k ≡ none = rw q at e in cc)
  | inr q ↦ rw q (find-append id c contacts (rw q at e))
]

pub get_contact-emplace :
    (id : List ℕ) (c : Contact) (contacts : Contacts)
    → has_contact id contacts ≡ false
    → get_contact id (emplace id (some c) contacts) ≡ ok (some c)
unfolding emplace has_contact get_contact
get_contact-emplace id c contacts e = elim (Option-cases (find id contacts)) [
  | inl n ↦ rw (e, emplace, find-append id c contacts n, get_contact) refl
  | inr (o, s) ↦ absurd (ground arith)
]

module _ {f : Formats} where
  set_exceptions_lem :
      (messages : List (Option (Message f) × ℕ)) (h : MessageHandler f)
      → IsUnsettled (err message_exception) messages h.outcomes
      → set_exceptions messages h ≡ (ok tt, record h { outcomes = h.outcomes ++ failures messages })
  unfolding set_exceptions
  set_exceptions_lem [] h u = rw (append-nil h.outcomes) refl
  set_exceptions_lem ((msg, t) ∷ messages) h u =
      rw (u.0, set_exceptions)
        (set_exceptions_lem messages (settle t (err message_exception) h) u.1
          ∙ ap (λ o. (ok tt, record h { outcomes = o }))
              (append_assoc h.outcomes ((t, err message_exception) ∷ []) (failures messages)))

  pub delivered-broken :
      (e : Error) (id : List ℕ) (messages : List (Option (Message f) × ℕ)) (h : MessageHandler f)
      → e ≢ out_of_bounds
      → IsUnsettled (err message_exception) messages h.outcomes
      → delivered id messages (err e, h) ≡ (
        ok tt,
        record h {
          packet_queue = remove_waiting id h.packet_queue;
          outcomes = h.outcomes ++ failures messages;
        },
      )
  unfolding delivered erased
  delivered-broken out_of_bounds id messages h n u = absurd (n refl)
  delivered-broken e id messages h n u = rw (set_exceptions_lem messages h u) refl

  pub delivered-stuck :
      (e : Error) (id : List ℕ) (m : Option (Message f) × ℕ)
      (messages : List (Option (Message f) × ℕ)) (h : MessageHandler f)
      → e ≢ out_of_bounds
      → is_settled m.1 h.outcomes ≡ true
      → delivered id (m ∷ messages) (err e, h) ≡ (err runtime_error, h)
  unfolding delivered set_exceptions
  delivered-stuck out_of_bounds id m messages h n u = absurd (n refl)
  delivered-stuck e id m messages h n u = rw (u, set_exceptions) refl

module _ (f : Formats) (x : Context) where
  -- Messages to be sent to a contact, and what they are sealed to.
  abbrev pub Sealing : List ℕ → Contact → ℕ → List (Message f × ℕ) → List (Message f) → Type 0
  Sealing id c draws [] [] = Unit {0}
  Sealing id c draws [] (s ∷ sealed) = ⊥
  Sealing id c draws (m ∷ messages) [] = ⊥
  Sealing id c draws (m ∷ messages) (s ∷ sealed) =
      (m.0.type ≡ PacketType.message_send)
      × (m.0.recipient ≡ id)
      × (encrypt x.crypto f (x.draw draws).padding x.self c m.0 ≡ ok s)
      × Sealing id c (draws + 1) messages sealed

  pub deliver_one-sent :
      (msg sealed : Message f) (id : List ℕ) (c : Contact) (h : MessageHandler f)
      → msg.type ≡ PacketType.message_send
      → msg.recipient ≡ id
      → get_contact id h.contacts ≡ ok (some c)
      → encrypt x.crypto f (x.draw h.draws).padding x.self c msg ≡ ok sealed
      → deliver_one f x msg h
        ≡ (ok tt, record h { draws = h.draws + 1; outbox = h.outbox ++ (sealed ∷ []) })
  unfolding deliver_one send send_to send_sealed
  deliver_one-sent msg sealed id c h t r k s =
      let e : is_message_recv msg.type ≡ false = ap is_message_recv t in
      let k' : get_contact msg.recipient h.contacts ≡ ok (some c) =
        ap (λ i. get_contact i h.contacts) r ∙ k in
      rw (e, deliver_one, k', s) refl

  pub deliver_one-failed :
      (msg : Message f) (e : Error) (id : List ℕ) (c : Contact) (h : MessageHandler f)
      → msg.type ≡ PacketType.message_send
      → msg.recipient ≡ id
      → get_contact id h.contacts ≡ ok (some c)
      → encrypt x.crypto f (x.draw h.draws).padding x.self c msg ≡ err e
      → deliver_one f x msg h ≡ (err e, record h { draws = h.draws + 1 })
  unfolding deliver_one send send_to send_sealed
  deliver_one-failed msg e id c h t r k s =
      let n : is_message_recv msg.type ≡ false = ap is_message_recv t in
      let k' : get_contact msg.recipient h.contacts ≡ ok (some c) =
        ap (λ i. get_contact i h.contacts) r ∙ k in
      rw (n, deliver_one, k', s) refl

  -- Messages to a contact that is there go out in their order.
  pub deliver-sent :
      (id : List ℕ) (c : Contact) (messages : List (Message f × ℕ)) (sealed : List (Message f))
      (h : MessageHandler f)
      → get_contact id h.contacts ≡ ok (some c)
      → Sealing id c h.draws messages sealed
      → IsUnsettled (ok tt) messages h.outcomes
      → deliver f x id (held messages) h ≡ (
        ok tt,
        record h {
          packet_queue = all_moved id messages h.packet_queue;
          draws = h.draws + length messages;
          outbox = h.outbox ++ sealed;
          outcomes = h.outcomes ++ successes messages;
        },
      )
  unfolding deliver
  deliver-sent id c [] [] h k s u =
      let z : h.draws + 0 ≡ h.draws = omega arith in
      rw (append-nil h.outbox, append-nil h.outcomes, z) refl
  deliver-sent id c [] (m ∷ sealed) h k s u = absurd s
  deliver-sent id c (m ∷ messages) [] h k s u = absurd s
  deliver-sent id c ((msg, t) ∷ messages) (m ∷ sealed) h k s u =
      let h1 : MessageHandler f = record h { draws = h.draws + 1; outbox = h.outbox ++ (m ∷ []) } in
      let h2 : MessageHandler f = record h1 { packet_queue = move_out id t h.packet_queue } in
      rw (deliver_one-sent msg m id c h s.0 s.1 k s.2, deliver, set_value_lem id t h1 u.0)
        (deliver-sent id c messages sealed (settle t (ok tt) h2) k s.3 u.1
          ∙ regrouped (h.draws + 1 + length messages) (h.draws + suc (length messages))
              ((h.outbox ++ (m ∷ [])) ++ sealed) (h.outbox ++ m ∷ sealed)
              ((h.outcomes ++ ((t, ok tt) ∷ [])) ++ successes messages)
              (h.outcomes ++ (t, ok tt) ∷ successes messages) (omega arith)
              (append_assoc h.outbox (m ∷ []) sealed)
              (append_assoc h.outcomes ((t, ok tt) ∷ []) (successes messages)))
    where
      Result' : Type 0
      Result' = Result (Unit {0}) × MessageHandler f

      state : ℕ → List (Message f) → List (ℕ × Result (Unit {0})) → Result'
      state d o p = (
        ok tt,
        record h {
          packet_queue = all_moved id messages (move_out id t h.packet_queue);
          draws = d;
          outbox = o;
          outcomes = p;
        },
      )

      regrouped :
          (d d' : ℕ) (o o' : List (Message f)) (p p' : List (ℕ × Result (Unit {0})))
          → d ≡ d'
          → o ≡ o'
          → p ≡ p'
          → state d o p ≡ state d' o' p'
      regrouped d d' o o' p p' e q r = rw (e, q, r) refl

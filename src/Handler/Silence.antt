-- ===== src/Handler/Silence.antt =====
-- The payloads that `ThreeplMessageHandler::recv` only shows, or does not know
-- (src/threepl/MessageHandler.cpp).
use ceema.Prelude.{
  ◌⊎◌, arith, ◌≡◌, refl, inl, inr, Bool, true, false, ◌==◌, Bool-cases, Result, ok, err,
}
use ceema.Prelude.Stateful.{bind}
use ceema.Payload.MessageStatus.{agreed, disagreed}
use ceema.Payload.MessagePayload.{Formats, MessagePayload}
use ceema.Contacts.{get_contact}
use ceema.Packet.Message.{Message}
use ceema.Handler.{MessageHandler, Context}
use ceema.Handler.Show.{on_msg_status, on_msg_typing, on_msg_icon, on_msg_icon_clear}
use ceema.Handler.Receive.{on_payload, answer, handle, recv, unsupported, decrypt_from}
use ceema.Handler.Opened.{Silent, Silent-tell, Silent-trans, recv-through}

-- A status, the typing of the other side, an icon or its removal, a poll, and no payload, which a
-- message that is not decrypted has.
abbrev pub IsQuiet : {f : Formats} → MessagePayload f → Type 0
IsQuiet MessagePayload.payload_none = Unit {0}
IsQuiet (MessagePayload.message_status p) = Unit {0}
IsQuiet (MessagePayload.client_typing p) = Unit {0}
IsQuiet (MessagePayload.icon p) = Unit {0}
IsQuiet (MessagePayload.icon_clear p) = Unit {0}
IsQuiet (MessagePayload.poll p) = Unit {0}
IsQuiet (MessagePayload.poll_vote p) = Unit {0}
IsQuiet (MessagePayload.group_poll p) = Unit {0}
IsQuiet (MessagePayload.group_poll_vote p) = Unit {0}
IsQuiet p = ⊥

module _ (f : Formats) (x : Context) where
  -- The handler of such a payload wants no answer, and sends nothing.
  on_payload-IsQuiet :
      (m : Message f) (p : MessagePayload f) (h : MessageHandler f)
      → IsQuiet p
      → ((on_payload f x m p h).0 ≡ ok false) × Silent h (on_payload f x m p h).1
  unfolding on_payload on_msg_status on_msg_typing on_msg_icon on_msg_icon_clear unsupported
  on_payload-IsQuiet m (MessagePayload.message_status p) h q =
      elim (Bool-cases (p.status == agreed)) [
        | inl e ↦ rw (e, on_msg_status) (refl, Silent-tell h _)
        | inr e ↦ elim (Bool-cases (p.status == disagreed)) [
          | inl e' ↦ rw (e, e', on_msg_status) (refl, Silent-tell h _)
          | inr e' ↦ rw (e, e', on_msg_status) (refl, Silent-tell h _)
        ]
      ]
  on_payload-IsQuiet m (MessagePayload.client_typing p) h q = elim (Bool-cases p.typing) [
    | inl e ↦ rw (e, on_msg_typing) (refl, Silent-tell h _)
    | inr e ↦ rw (e, on_msg_typing) (refl, Silent-tell h _)
  ]
  on_payload-IsQuiet m MessagePayload.payload_none h q = (refl, Silent-tell h _)
  on_payload-IsQuiet m (MessagePayload.icon p) h q = (refl, Silent-tell h _)
  on_payload-IsQuiet m (MessagePayload.poll p) h q = (refl, Silent-tell h _)
  on_payload-IsQuiet m (MessagePayload.poll_vote p) h q = (refl, Silent-tell h _)
  on_payload-IsQuiet m (MessagePayload.group_poll p) h q = (refl, Silent-tell h _)
  on_payload-IsQuiet m (MessagePayload.group_poll_vote p) h q = (refl, Silent-tell h _)
  on_payload-IsQuiet m (MessagePayload.icon_clear p) h q = (refl, Silent-tell h _)
  on_payload-IsQuiet m p h q = absurd q

  -- Nothing is sent or queued for a message that arrives without a payload, and is not decrypted or
  -- whose decrypted payload is a status, typing, an icon or its removal, a poll or a vote, and it
  -- changes neither the contacts nor the groups.
  pub recv-Silent :
      (msg : Message f) (h : MessageHandler f)
      → msg.payload ≡ MessagePayload.payload_none
      → ((m : Message f)
          → decrypt_from f x (get_contact msg.sender h.contacts) msg ≡ ok m
          → IsQuiet m.payload)
      → Silent h (recv f x msg h).1
  unfolding handle answer
  recv-Silent msg h n quiet =
      recv-through f x (Silent h) msg h (λ h' s. s)
        λ m h' e o s.
          let (a, t) = on_payload-IsQuiet m m.payload h' (is_quiet m o) in
          unanswered m (on_payload f x m m.payload h') a (Silent-trans s t)
    where
      is_quiet :
          (m : Message f)
          → (m ≡ msg) ⊎ (decrypt_from f x (get_contact msg.sender h.contacts) msg ≡ ok m)
          → IsQuiet m.payload
      is_quiet m (inl e) = rw (e, n) tt
      is_quiet m (inr e) = quiet m e

      unanswered :
          (m : Message f) (r : Result Bool × MessageHandler f)
          → r.0 ≡ ok false
          → Silent h r.1
          → Silent h (bind r (answer f x m)).1
      unanswered m (ok true, h') e s = absurd (ground arith)
      unanswered m (ok false, h') e s = s
      unanswered m (err e', h') e s = s

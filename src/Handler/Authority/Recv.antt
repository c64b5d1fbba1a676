-- ===== src/Handler/Authority/Recv.antt =====
-- The groups of ThreeplMessageHandler behind `recv` and `onRecvMessage`
-- (src/threepl/MessageHandler.cpp).
use ceema.Prelude.{ℕ, ◌≡◌, ap, ◌∙◌, inl, inr, Bool, ◌&&◌, not, List, length, Bool-cases}
use ceema.Prelude.Stateful.{bind_keeps}
use ceema.Types.Flags.{MessageFlag, isset}
use ceema.Contacts.{has_contact}
use ceema.Groups.Store.{Store}
use ceema.Payload.MessagePayload.{Formats}
use ceema.Packet.Message.{Message}
use ceema.Handler.{MessageHandler, Context}
use ceema.Handler.Send.{send_payload, enqueue}
use ceema.Handler.Receive.{handle, on_payload, answer, status_of, recv}
use ceema.Handler.Deliver.{on_recv_message}
use ceema.Handler.Opened.{recv-through}
use ceema.Handler.Sending.{Kept, Kept-refl, send_payload-Kept, enqueue-Kept}
use ceema.Handler.Authority.{Follows, Follows-refl}
use ceema.Handler.Authority.Payloads.{on_payload-Follows}

moved :
    {sender sender' : List ℕ} {groups groups' : Store} (after : Store)
    → sender ≡ sender'
    → groups ≡ groups'
    → Follows sender groups after
    → Follows sender' groups' after
moved after e g w = rw (← e, ← g) w

module _ (f : Formats) (x : Context) where
  pub answer-Kept :
      (msg : Message f) (ack : Bool) (h : MessageHandler f) → Kept h (answer f x msg ack h).1
  unfolding answer
  answer-Kept msg ack h = elim (Bool-cases (ack && not (isset msg.flags MessageFlag.group))) [
    | inl e ↦
        rw (e, answer)
          (bind_keeps (Kept h) (send_payload f x msg.sender (status_of f x msg) h) _
            (send_payload-Kept f x msg.sender (status_of f x msg) h) λ _ s k. k)
    | inr e ↦ rw (e, answer) (Kept-refl h)
  ]

  recv-Follows :
      (msg : Message f) (h : MessageHandler f)
      → length msg.sender ≡ 8
      → Follows msg.sender h.groups (recv f x msg h).1.groups
  unfolding handle
  recv-Follows msg h n =
      recv-through f x (λ s. Follows msg.sender h.groups s.groups) msg h
        (λ h' s. rw s.groups (Follows-refl msg.sender h.groups))
        λ m h' e _ s.
          bind_keeps (λ (k : MessageHandler f). Follows msg.sender h.groups k.groups)
            (on_payload f x m m.payload h') _
            (moved (on_payload f x m m.payload h').1.groups e.sender s.groups
              (on_payload-Follows f x m m.payload h' (ap length e.sender ∙ n)))
            λ ack k w. rw (answer-Kept m ack k).groups w

  -- A message from a client, whose id has eight bytes, whomever it names and whatever its payload
  -- is, leaves every group in its place, as it was, with the sender taken out of it, or, if the
  -- sender owns it, with another name or other members; new groups are added behind.
  pub on_recv_message-Follows :
      (msg : Message f) (h : MessageHandler f)
      → length msg.sender ≡ 8
      → Follows msg.sender h.groups (on_recv_message f x msg h).1.groups
  unfolding on_recv_message
  on_recv_message-Follows msg h n = elim (Bool-cases (has_contact msg.sender h.contacts)) [
    | inl e ↦ rw (e, on_recv_message) (recv-Follows msg h n)
    | inr e ↦
        rw (e, on_recv_message)
          (bind_keeps (λ (k : MessageHandler f). Follows msg.sender h.groups k.groups)
            (enqueue msg h) _ (rw (enqueue-Kept msg h).groups (Follows-refl msg.sender h.groups))
            λ _ k w. w)
  ]

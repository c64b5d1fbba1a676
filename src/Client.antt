-- ===== src/Client.antt =====
-- ThreeplConnection with its message handler (src/threepl/ThreeplConnection.h and
-- ThreeplConnection.cpp): the methods that send a message through the handler. The packets that the
-- handler gives to the connection go out behind one another; it does not look at what becomes of them.
pub mod Agreement
use ceema.Prelude.{
  ℕ, Bool, true, false, Option, none, some, List, [], ◌∷◌, map, if◌then◌else◌, Result, ok, err,
}
use ceema.Prelude.Stateful.{M}
use ceema.Groups.{Group}
use ceema.Payload.MessageStatus.{agreed, disagreed}
use ceema.Payload.MessagePayload.{Formats, MessagePayload}
use ceema.Packet.Message.{Message}
use ceema.Packet.Packet.{Packet}
use ceema.Connection.{State, Connection, follow, send_packets, send_keepalive}
use ceema.Handler.{MessageHandler, Context}
use ceema.Handler.Send.{send_payload, send_group}
use ceema.Handler.Deliver.{on_recv_message}

pub record Client (f : Formats) : Type 0 where
  pub connection : Connection f
  pub handler : MessageHandler f

-- The status of `send_agreement`.
unfoldable pub agreement : {f : Formats} → Bool → MessageHandler f → MessagePayload f
agreement agree h =
    MessagePayload.message_status
      (record { status = if agree then agreed else disagreed; ids = h.last_agreeable ∷ [] })

module _ (f : Formats) (x : Context) where
  -- A call of the handler, and the packets that it sends.
  unfoldable pub use_handler :
      {A : Type 0} → M (MessageHandler f) A → Client f → Result A × Client f
  use_handler method k =
      let (r, h) = method (record k.handler { outbox = [] }) in
      let (s, connection) = send_packets x.crypto f (map Packet.message h.outbox) k.connection in
      (
        elim s [ ok _ ↦ r | err e ↦ err e ],
        record { connection = connection; handler = record h { outbox = [] } },
      )

  -- Only a connection that is connected sends; the result is the promise of a valid future.
  unfoldable pub when_connected :
      {A : Type 0} → M (MessageHandler f) A → Client f → Result (Option A) × Client f
  unfolding use_handler
  when_connected method k = elim k.connection.state [
    | State.connected ↦ use_handler (λ h. optional (method h)) k
    | _ ↦ (ok none, k)
  ]
    where
      optional : {A : Type 0} → Result A × MessageHandler f → Result (Option A) × MessageHandler f
      optional (ok a, h) = (ok (some a), h)
      optional (err e, h) = (err e, h)

  unfoldable pub send_message : List ℕ → MessagePayload f → Client f → Result (Option ℕ) × Client f
  unfolding when_connected
  send_message recipient payload = when_connected (send_payload f x recipient payload)

  unfoldable pub send_group_message :
      Group → MessagePayload f → Client f → Result (Option (List ℕ)) × Client f
  unfolding when_connected
  send_group_message group payload = when_connected (send_group f x group payload)

  -- `send_agreement`; the keep-alive behind the status draws a random number.
  unfoldable pub send_agreement : ℕ → List ℕ → Bool → Client f → Result Bool × Client f
  unfolding send_message agreement
  send_agreement val who agree k = with_keepalive (send_message who (agreement agree k.handler) k)
    where
      with_keepalive : Result (Option ℕ) × Client f → Result Bool × Client f
      with_keepalive (err e, k') = (err e, k')
      with_keepalive (ok _, k') =
          let (r, connection) = send_keepalive x.crypto f val k'.connection in
          (elim r [ ok _ ↦ ok true | err e ↦ err e ], record k' { connection = connection })

  -- A message that the session has received.
  unfoldable pub receive : Message f → Client f → Result (Unit {0}) × Client f
  unfolding use_handler
  receive msg = use_handler (on_recv_message f x msg)

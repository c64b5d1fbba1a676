-- ===== src/Connection/Read.antt =====
-- The packets that ThreeplConnection::read_packets takes from the session, one after the other. What
-- the message handler does with a message is a parameter: the packets that it sends, and the exception
-- that it ends with, if any.
use ceema.Prelude.{ℕ, zero, suc, true, false, List, [], ◌∷◌, length, Result, ok}
use ceema.Types.Flags.{MessageFlag, isnset}
use ceema.Encoding.Crypto.{Crypto}
use ceema.Payload.MessagePayload.{Formats}
use ceema.Packet.PacketType.{PacketType}
use ceema.Packet.Acknowledgement.{Acknowledgement, create}
use ceema.Packet.Message.{Message}
use ceema.Packet.Packet.{Packet}
use ceema.Session.Calls.{has_packet, get_packet}
use ceema.Connection.{Connection, Notice, tell, follow, close, send_packet, send_packets}

-- The packets that are sent in answer to a message, and what is thrown behind them.
abbrev pub Handler : Formats → Type 0
Handler f = Message f → List (Packet f) × Result (Unit {0})

-- `Message::generateAck`
unfoldable pub generate_ack : {f : Formats} → Message f → Acknowledgement
unfolding create
generate_ack msg = create msg.sender msg.id

module _ (c : Crypto) (f : Formats) (handler : Handler f) where
  unfoldable pub on_recv_message : Message f → Connection f → Result (Unit {0}) × Connection f
  unfolding send_packets
  on_recv_message msg k =
      follow (send_packets c f (handler msg).0 k) (λ _ k'. ((handler msg).1, k'))

  -- The case of MESSAGE_RECV.
  unfoldable pub receive_message : Message f → Connection f → Result (Unit {0}) × Connection f
  unfolding on_recv_message isnset generate_ack send_packet
  receive_message msg k = elim (isnset msg.flags MessageFlag.no_ack) [
    | true ↦
        follow (send_packet c f (Packet.acknowledgement (generate_ack msg)) k)
          (λ _ k'. on_recv_message msg k')
    | false ↦ on_recv_message msg k
  ]

  -- A message of another type goes to the default case.
  unfoldable pub handle_message :
      PacketType → Message f → Connection f → Result (Unit {0}) × Connection f
  unfolding receive_message
  handle_message PacketType.message_recv msg k = receive_message msg k
  handle_message _ msg k = (ok tt, k)

  -- One round of the loop; what the other types do is only logged.
  unfoldable pub handle_packet : Packet f → Connection f → Result (Unit {0}) × Connection f
  unfolding handle_message close
  handle_packet (Packet.message msg) k = handle_message msg.type msg k
  handle_packet (Packet.status PacketType.disconnected) k =
      (ok tt, tell (Notice.name_in_use ∷ []) (close k))
  handle_packet _ k = (ok tt, k)

  -- `while (session().has_packet())`, for at most so many rounds.
  unfoldable pub take_packets : ℕ → Connection f → Result (Unit {0}) × Connection f
  unfolding handle_packet get_packet has_packet
  take_packets zero k = (ok tt, k)
  take_packets (suc fuel) k = elim k.session.packet_queue [
    | [] ↦ (ok tt, k)
    | packet ∷ more ↦
        follow
          (handle_packet packet (record k { session = record k.session { packet_queue = more } }))
          (λ _ k'. take_packets fuel k')
  ]

  -- A round takes a packet and adds none.
  unfoldable pub read_packets : Connection f → Result (Unit {0}) × Connection f
  unfolding take_packets
  read_packets k = take_packets (length k.session.packet_queue) k

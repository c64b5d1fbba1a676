-- ===== src/Connection/Dispatch.antt =====
-- What the packets that ThreeplConnection::read_packets takes keep.
use ceema.Prelude.{
  ℕ, zero, suc, ◌≡◌, refl, inl, inr, Bool-cases, Bool, List, [], ◌∷◌, Result, ok, err,
}
use ceema.Types.Flags.{MessageFlag, isnset}
use ceema.Encoding.Crypto.{Crypto}
use ceema.Payload.MessagePayload.{Formats}
use ceema.Packet.PacketType.{PacketType}
use ceema.Packet.Message.{Message}
use ceema.Packet.Packet.{Packet}
use ceema.Connection.{
  State, disconnected, connecting, authenticating, connected, Connection, follow, send_packet,
  send_packets,
}
use ceema.Connection.Read.{
  Handler, generate_ack, on_recv_message, receive_message, handle_message, handle_packet,
  take_packets,
}
use ceema.Connection.Soundness.{
  IsSound, SoundIn, close-IsSound, send_packet-IsSound, send_packets-IsSound,
}

module _ (c : Crypto) (f : Formats) (handler : Handler f) where
  on_recv_message-IsSound :
      (msg : Message f) (k : Connection f)
      → IsSound k
      → IsSound (on_recv_message c f handler msg k).1
  unfolding on_recv_message
  on_recv_message-IsSound msg k h =
      go (send_packets c f (handler msg).0 k) (send_packets-IsSound c f (handler msg).0 k h)
    where
      go :
          (r : Result (Unit {0}) × Connection f)
          → IsSound r.1
          → IsSound (follow r (λ _ k'. ((handler msg).1, k'))).1
      go (ok b, k') h = h
      go (err e, k') h = h

  receive_message-IsSound :
      (msg : Message f) (k : Connection f)
      → IsSound k
      → IsSound (receive_message c f handler msg k).1
  unfolding receive_message
  receive_message-IsSound msg k h = elim (Bool-cases (isnset msg.flags MessageFlag.no_ack)) [
    | inl e ↦
        rw (e, receive_message)
          (go (send_packet c f (Packet.acknowledgement (generate_ack msg)) k)
            (send_packet-IsSound c f (Packet.acknowledgement (generate_ack msg)) k h))
    | inr e ↦ rw (e, receive_message) (on_recv_message-IsSound msg k h)
  ]
    where
      go :
          (r : Result Bool × Connection f)
          → IsSound r.1
          → IsSound (follow r (λ _ k'. on_recv_message c f handler msg k')).1
      go (ok b, k') h = on_recv_message-IsSound msg k' h
      go (err e, k') h = h

  handle_message-IsSound :
      (t : PacketType) (msg : Message f) (k : Connection f)
      → IsSound k
      → IsSound (handle_message c f handler t msg k).1
  unfolding handle_message
  handle_message-IsSound PacketType.message_recv msg k h = receive_message-IsSound msg k h
  handle_message-IsSound PacketType.keepalive msg k h = h
  handle_message-IsSound PacketType.message_send msg k h = h
  handle_message-IsSound PacketType.keepalive_ack msg k h = h
  handle_message-IsSound PacketType.ack_server msg k h = h
  handle_message-IsSound PacketType.ack_client msg k h = h
  handle_message-IsSound PacketType.connected msg k h = h
  handle_message-IsSound PacketType.disconnected msg k h = h
  handle_message-IsSound (PacketType.other v) msg k h = h

  handle_packet-IsSound :
      (p : Packet f) (k : Connection f) → IsSound k → IsSound (handle_packet c f handler p k).1
  unfolding handle_packet
  handle_packet-IsSound (Packet.message msg) k h = handle_message-IsSound msg.type msg k h
  handle_packet-IsSound (Packet.status PacketType.disconnected) k h = close-IsSound k h
  handle_packet-IsSound (Packet.status PacketType.connected) k h = h
  handle_packet-IsSound (Packet.status PacketType.message_recv) k h = h
  handle_packet-IsSound (Packet.status PacketType.keepalive) k h = h
  handle_packet-IsSound (Packet.status PacketType.message_send) k h = h
  handle_packet-IsSound (Packet.status PacketType.keepalive_ack) k h = h
  handle_packet-IsSound (Packet.status PacketType.ack_server) k h = h
  handle_packet-IsSound (Packet.status PacketType.ack_client) k h = h
  handle_packet-IsSound (Packet.status (PacketType.other v)) k h = h
  handle_packet-IsSound (Packet.acknowledgement a) k h = h
  handle_packet-IsSound (Packet.keepalive a) k h = h

  -- A packet is taken from the queue.
  with_queue-IsSound :
      (queue : List (Packet f)) (k : Connection f)
      → IsSound k
      → IsSound (record k { session = record k.session { packet_queue = queue } })
  with_queue-IsSound queue k h = go k.state h
    where
      go :
          (t : State)
          → SoundIn t k.session k.session_socket k.input_handler_read k.input_handler_write
          → SoundIn t
              (record k.session { packet_queue = queue })
              k.session_socket
              k.input_handler_read
              k.input_handler_write
      go disconnected h = h
      go connecting h = h
      go authenticating h = h
      go connected h = h

  pub take_packets-IsSound :
      (fuel : ℕ) (k : Connection f) → IsSound k → IsSound (take_packets c f handler fuel k).1
  unfolding take_packets
  take_packets-IsSound zero k h = h
  take_packets-IsSound (suc fuel) k h =
      go k.session.packet_queue refl (λ k' x. take_packets-IsSound fuel k' x)
    where
      taken :
          (r : Result (Unit {0}) × Connection f)
          → IsSound r.1
          → ((k' : Connection f) → IsSound k' → IsSound (take_packets c f handler fuel k').1)
          → IsSound (follow r (λ _ k'. take_packets c f handler fuel k')).1
      taken (ok b, k') h ih = ih k' h
      taken (err e, k') h ih = h

      go :
          (queue : List (Packet f))
          → k.session.packet_queue ≡ queue
          → ((k' : Connection f) → IsSound k' → IsSound (take_packets c f handler fuel k').1)
          → IsSound (take_packets c f handler (suc fuel) k).1
      go [] e ih = rw e (with_queue-IsSound [] k h)
      go (p ∷ more) e ih = rw e (
          taken
            (handle_packet c f handler p
              (record k { session = record k.session { packet_queue = more } }))
            (handle_packet-IsSound p
              (record k { session = record k.session { packet_queue = more } })
              (with_queue-IsSound more k h))
            ih)

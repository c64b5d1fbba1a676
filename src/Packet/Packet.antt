-- ===== src/Packet/Packet.antt =====
-- Packet::fromPacket of src/protocol/packet/Packet.cpp, and the packets that it makes.
use ceema.Prelude.{
  ℕ, inl, inr, ◌⊎◌, ltb, Bool-cases, ◌<◌, ◌≤◌, ◌≡◌, ◌≢◌, List, length, arith, Result, ok, err,
  packet_type_exception, out_of_bounds, ◌>>=◌,
}
use ceema.Types.Iter.{letoh, letoh_ok, copy_iter}
use ceema.Packet.PacketType.{PacketType, of_code}
use ceema.Packet.KeepAlive.{KeepAlive}
use ceema.Packet.KeepAlive
use ceema.Packet.Acknowledgement.{Acknowledgement}
use ceema.Packet.Acknowledgement
use ceema.Packet.Message.{Message}
use ceema.Packet.Message
use ceema.Packet.Message.Safety.{from_packet_safe}
use ceema.Payload.MessagePayload.{Formats}

pub data Packet (f : Formats) : Type 0 where
  status : PacketType → Packet f
  acknowledgement : Acknowledgement → Packet f
  message : Message f → Packet f
  keepalive : KeepAlive → Packet f

-- `Packet::type`, of the base class.
abbrev pub type_of : {f : Formats} → Packet f → PacketType
type_of (Packet.status t) = t
type_of (Packet.acknowledgement a) = a.type
type_of (Packet.message m) = m.type
type_of (Packet.keepalive k) = k.type

module _ (f : Formats) where
  -- `std::make_unique<P>(P::fromPacket(type, data))`
  abbrev make : {P : Type 0} → (P → Packet f) → Result P → Result (Packet f)
  make into (ok p) = ok (into p)
  make into (err e) = err e

  unfoldable pub from_type : PacketType → List ℕ → Result (Packet f)
  from_type PacketType.connected packet = ok (status PacketType.connected)
  from_type PacketType.disconnected packet = ok (status PacketType.disconnected)
  from_type PacketType.ack_server packet =
      make acknowledgement (Acknowledgement.from_packet PacketType.ack_server packet)
  from_type PacketType.message_recv packet =
      make message (Message.from_packet f PacketType.message_recv packet)
  from_type PacketType.keepalive packet =
      make Packet.keepalive (KeepAlive.from_packet PacketType.keepalive packet)
  from_type PacketType.keepalive_ack packet =
      make Packet.keepalive (KeepAlive.from_packet PacketType.keepalive_ack packet)
  from_type PacketType.message_send packet = err packet_type_exception
  from_type PacketType.ack_client packet = err packet_type_exception
  from_type (PacketType.other v) packet = err packet_type_exception

  unfoldable pub from_packet : List ℕ → Result (Packet f)
  unfolding from_type
  from_packet packet = do (type, _) ← letoh 4 packet; from_type (of_code type) packet

  make_safe :
      {P : Type 0} (into : P → Packet f) (r : Result P)
      → r ≢ err out_of_bounds
      → make into r ≢ err out_of_bounds
  make_safe into (ok p) h e = cc
  make_safe into (err x) h e = ground arith

  ack_safe :
      (t : PacketType) (packet : List ℕ) → Acknowledgement.from_packet t packet ≢ err out_of_bounds
  ack_safe t packet = unfold Acknowledgement.from_packet copy_iter in ground arith

  from_type_safe :
      (t : PacketType) (packet : List ℕ)
      → 4 ≤ length packet
      → from_type t packet ≢ err out_of_bounds
  unfolding from_type
  from_type_safe PacketType.connected packet h = λ e. cc
  from_type_safe PacketType.disconnected packet h = λ e. cc
  from_type_safe PacketType.ack_server packet h =
      make_safe acknowledgement _ (ack_safe PacketType.ack_server packet)
  from_type_safe PacketType.message_recv packet h =
      make_safe message _ (from_packet_safe f PacketType.message_recv packet)
  from_type_safe PacketType.keepalive packet h =
      make_safe Packet.keepalive _ (unfold KeepAlive.from_packet in ground arith)
  from_type_safe PacketType.keepalive_ack packet h =
      make_safe Packet.keepalive _ (unfold KeepAlive.from_packet in ground arith)
  from_type_safe PacketType.message_send packet h = λ e. ground arith
  from_type_safe PacketType.ack_client packet h = λ e. ground arith
  from_type_safe (PacketType.other v) packet h = λ e. ground arith

  from_packet_inside :
      (packet : List ℕ) → 4 ≤ length packet → from_packet packet ≢ err out_of_bounds
  unfolding from_packet
  from_packet_inside packet h = rw (letoh_ok 4 packet h) (from_type_safe _ packet h)

  from_packet_short : (packet : List ℕ) → length packet < 4 → from_packet packet ≡ err out_of_bounds
  unfolding from_packet letoh
  from_packet_short packet h = ground arith

  -- Reading a packet leaves its buffer exactly if it is shorter than the four bytes of its type:
  -- all that follows is sorted, read or refused inside the buffer.
  pub from_packet_bounds :
      (packet : List ℕ)
      → ((length packet < 4) × (from_packet packet ≡ err out_of_bounds))
        ⊎ ((4 ≤ length packet) × (from_packet packet ≢ err out_of_bounds))
  from_packet_bounds packet = elim (Bool-cases (ltb (length packet) 4)) [
    | inl e ↦ let h : length packet < 4 = ground arith in inl (h, from_packet_short packet h)
    | inr e ↦ let h : 4 ≤ length packet = ground arith in inr (h, from_packet_inside packet h)
  ]

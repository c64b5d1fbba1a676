-- ===== src/Packet/Message.antt =====
-- Message of src/protocol/packet/Message.h and Message.cpp: a packet with an encrypted payload.
pub mod RoundTrip
pub mod New
pub mod Encryption
pub mod Safety
use ceema.Prelude.{
  ℕ, zero, suc, ◌+◌, ◌-◌, ◌≡◌, not, Bool, true, false, List, [], ◌∷◌, ◌++◌, ltb, leb, ◌==◌,
  if◌then◌else◌, length, take, drop, replicate, Result, ok, err, protocol_exception,
  message_exception, runtime_error, ◌>>=◌, ◌>>◌, throw_if,
}
use ceema.Types.Iter.{output, contents, copy, htole, copy_iter, letoh}
use ceema.Packet.PacketType.{PacketType, code}
use ceema.Payload.MessagePayload.{Formats, MessagePayload}

pub record Message (f : Formats) : Type 0 where
  pub type : PacketType
  pub sender : List ℕ
  pub recipient : List ℕ
  pub id : List ℕ
  pub time : ℕ
  pub flags : ℕ
  pub nick : List ℕ
  pub nonce : List ℕ
  pub payload_data : List ℕ
  pub payload : MessagePayload f

abbrev pub nickname_size : ℕ
nickname_size = 32

-- The packet type, two client ids, the message id, the time, the flags, the nickname, the nonce and the
-- authenticator of the payload.
abbrev pub payload_msg_header_size : ℕ
payload_msg_header_size = 4 + 8 + 8 + 8 + 4 + 4 + nickname_size + 24 + 16

abbrev pub is_message_recv : PacketType → Bool
is_message_recv PacketType.message_recv = true
is_message_recv t = false

-- `std::string(s, strnlen(s, n))`
unfoldable pub c_string : List ℕ → List ℕ
c_string [] = []
c_string (b ∷ bs) = if b == 0 then [] else b ∷ c_string bs

module _ (f : Formats) where
  unfoldable pub from_packet : PacketType → List ℕ → Result (Message f)
  from_packet type packet = do
    throw_if (not (is_message_recv type)) protocol_exception
    throw_if (ltb (length packet) payload_msg_header_size) protocol_exception
    let packet_iter = drop 4 packet
    (sender, packet_iter) ← copy_iter 8 packet_iter
    (recipient, packet_iter) ← copy_iter 8 packet_iter
    (id, packet_iter) ← copy_iter 8 packet_iter
    (time, packet_iter) ← letoh 4 packet_iter
    (flags, packet_iter) ← letoh 4 packet_iter
    (nick, packet_iter) ← copy_iter nickname_size packet_iter
    (nonce, packet_iter) ← copy_iter 24 packet_iter
    (payload_data, packet_iter) ←
        copy_iter (length packet - payload_msg_header_size + 16) packet_iter
    ok (record {
      type = PacketType.message_recv;
      sender = sender;
      recipient = recipient;
      id = id;
      time = time;
      flags = flags;
      nick = c_string nick;
      nonce = nonce;
      payload_data = payload_data;
      payload = MessagePayload.payload_none;
    })

  -- The nickname as it is written: cut to its place, or filled up with zeros.
  unfoldable pub nick_field : List ℕ → List ℕ
  nick_field nick =
      if leb nickname_size (length nick)
      then take nickname_size nick
      else nick ++ replicate (nickname_size - length nick) 0

  unfoldable pub to_packet : Message f → Result (List ℕ)
  to_packet m = do
    throw_if (length m.payload_data == 0) message_exception
    packet_iter ←
        htole 4 (code m.type) (output [] (payload_msg_header_size + length m.payload_data - 16))
    packet_iter ← copy m.sender packet_iter
    packet_iter ← copy m.recipient packet_iter
    packet_iter ← copy m.id packet_iter
    packet_iter ← htole 4 m.time packet_iter
    packet_iter ← htole 4 m.flags packet_iter
    packet_iter ← copy (nick_field m.nick) packet_iter
    packet_iter ← copy m.nonce packet_iter
    packet_iter ← copy m.payload_data packet_iter
    throw_if (not (length packet_iter.ahead == 0)) runtime_error
    ok (contents packet_iter)

-- ===== src/Packet/Acknowledgement.antt =====
-- Acknowledgement of src/protocol/packet/Acknowledgement.h and Acknowledgement.cpp. `from_packet` drops
-- the iterator that `copy_iter` returns, as the code does.
use ceema.Prelude.{
  ℕ, ◌+◌, ◌≡◌, not, Bool, true, false, List, [], ◌++◌, ◌==◌, length, length-append, drop,
  append-nil, append_assoc, arith, Result, ok, protocol_exception, ◌>>=◌, ◌>>◌, throw_if,
  drop-append,
}
use ceema.Types.Bytes.{le, length-le}
use ceema.Types.Iter.{
  output, contents, copy, htole, copy_iter, copy_iter-append, copy-output, htole-output,
}
use ceema.Packet.PacketType.{PacketType, code}

pub record Acknowledgement : Type 0 where
  pub type : PacketType
  pub sender : List ℕ
  pub message : List ℕ

abbrev pub payload_ack_size : ℕ
payload_ack_size = 4 + 8 + 8

-- The public constructor, of a packet for the server.
unfoldable pub create : List ℕ → List ℕ → Acknowledgement
create sender message = record { type = PacketType.ack_client; sender = sender; message = message }

abbrev is_ack_server : PacketType → Bool
is_ack_server PacketType.ack_server = true
is_ack_server t = false

unfoldable pub from_packet : PacketType → List ℕ → Result Acknowledgement
from_packet type packet = do
  throw_if (not (is_ack_server type)) protocol_exception
  throw_if (not (length packet == payload_ack_size)) protocol_exception
  let iter = drop 4 packet
  (sender, _) ← copy_iter 8 iter
  (message, _) ← copy_iter 8 iter
  ok (record { type = PacketType.ack_server; sender = sender; message = message })

unfoldable pub to_packet : Acknowledgement → Result (List ℕ)
to_packet ack = do
  packet_iter ← htole 4 (code ack.type) (output [] payload_ack_size)
  packet_iter ← copy ack.sender packet_iter
  packet_iter ← copy ack.message packet_iter
  ok (contents packet_iter)

-- An acknowledgement goes out as its type, the sender and the message that it is for.
pub to_packet_lem :
    (ack : Acknowledgement)
    → length ack.sender ≡ 8
    → length ack.message ≡ 8
    → to_packet ack ≡ ok (le 4 (code ack.type) ++ (ack.sender ++ ack.message))
unfolding to_packet
to_packet_lem ack s m = ground (
  arith,
  htole-output 4 (code ack.type) [] 20,
  copy-output ack.sender (le 4 (code ack.type)) 8 16,
  copy-output ack.message (le 4 (code ack.type) ++ ack.sender) 8 8,
  append-nil ((le 4 (code ack.type) ++ ack.sender) ++ ack.message),
  append_assoc (le 4 (code ack.type)) ack.sender ack.message,
)

-- An acknowledgement of the server over eight bytes of sender and eight of message is read with the
-- sender in the place of its message.
pub from_packet_loses_message :
    (sender message : List ℕ)
    → length sender ≡ 8
    → length message ≡ 8
    → from_packet PacketType.ack_server (le 4 0x81 ++ (sender ++ message))
      ≡ ok (record { type = PacketType.ack_server; sender = sender; message = sender })
unfolding from_packet
from_packet_loses_message sender message s m = ground (
  arith,
  length-le 4 0x81,
  length-append (le 4 0x81) (sender ++ message),
  length-append sender message,
  drop-append 4 (le 4 0x81) (sender ++ message),
  copy_iter-append 8 sender message,
)

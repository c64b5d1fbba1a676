-- ===== src/Packet/KeepAlive.antt =====
-- KeepAlive of src/protocol/packet/KeepAlive.h and KeepAlive.cpp.
use ceema.Prelude.{
  ℕ, ◌+◌, ◌-◌, ◌≤◌, ◌≡◌, ◌⊎◌, refl, not, Bool, true, false, List, [], ◌++◌, ltb, length,
  length-append, append-nil, drop, drop-append, arith, Result, ok, err, protocol_exception,
  out_of_bounds, ◌>>=◌, ◌>>◌, throw_if,
}
use ceema.Types.Bytes.{le, length-le}
use ceema.Types.Iter.{output, contents, copy, htole, copy-output, htole-output}
use ceema.Packet.PacketType.{PacketType, code}

pub record KeepAlive : Type 0 where
  pub type : PacketType
  pub payload : List ℕ

-- `KeepAlive::KeepAlive()`, given the random number that it draws.
unfoldable pub create : ℕ → KeepAlive
create val = record { type = PacketType.keepalive; payload = le 4 val }

abbrev pub is_keepalive_ack : PacketType → Bool
is_keepalive_ack PacketType.keepalive_ack = true
is_keepalive_ack t = false

unfoldable pub is_ack : KeepAlive → Bool
is_ack ka = is_keepalive_ack ka.type

unfoldable pub generate_ack : KeepAlive → Result KeepAlive
unfolding is_ack
generate_ack ka = do
  throw_if (is_ack ka) protocol_exception
  ok (record { type = PacketType.keepalive_ack; payload = ka.payload })

abbrev is_keepalive_type : PacketType → Bool
is_keepalive_type PacketType.keepalive = true
is_keepalive_type PacketType.keepalive_ack = true
is_keepalive_type t = false

-- A packet that is shorter than its type has no payload to copy: `resize` would be handed a size below
-- zero.
unfoldable pub from_packet : PacketType → List ℕ → Result KeepAlive
from_packet type packet = do
  throw_if (not (is_keepalive_type type)) protocol_exception
  throw_if (ltb (length packet) 4) out_of_bounds
  ok (record { type = type; payload = drop 4 packet })

unfoldable pub to_packet : KeepAlive → Result (List ℕ)
to_packet ka = do
  packet_iter ← htole 4 (code ka.type) (output [] (4 + length ka.payload))
  packet_iter ← copy ka.payload packet_iter
  ok (contents packet_iter)

-- The bytes of the packet are the type and the payload.
pub to_packet_lem : (ka : KeepAlive) → to_packet ka ≡ ok (le 4 (code ka.type) ++ ka.payload)
unfolding to_packet
to_packet_lem ka = ground (
  arith,
  htole-output 4 (code ka.type) [] (4 + length ka.payload),
  copy-output ka.payload (le 4 (code ka.type)) (length ka.payload) (4 + length ka.payload - 4) refl,
  (let e : 4 + length ka.payload - 4 - length ka.payload ≡ 0 = omega arith in e),
  append-nil (le 4 (code ka.type) ++ ka.payload),
)

from_packet-layout :
    (t : PacketType) (v : ℕ) (payload : List ℕ)
    → is_keepalive_type t ≡ true
    → from_packet t (le 4 v ++ payload) ≡ ok (record { type = t; payload = payload })
unfolding from_packet
from_packet-layout t v payload h =
    ground (arith, length-le 4 v, length-append (le 4 v) payload, drop-append 4 (le 4 v) payload)

-- A keep-alive, or the answer to one, is read back from its packet.
from_packet-to_packet_keepalive :
    (ka : KeepAlive)
    → (ka.type ≡ PacketType.keepalive) ⊎ (ka.type ≡ PacketType.keepalive_ack)
    → (d : List ℕ) × (to_packet ka ≡ ok d) × (from_packet ka.type d ≡ ok ka)
from_packet-to_packet_keepalive ka h = (
  le 4 (code ka.type) ++ ka.payload,
  to_packet_lem ka,
  from_packet-layout ka.type (code ka.type) ka.payload (ground arith),
)

-- A keep-alive packet of four bytes or more is answered with the payload that it carried under the
-- type KEEPALIVE_ACK, and an answer is never answered.
generate_ack-from_packet :
    (packet : List ℕ)
    → 4 ≤ length packet
    → ((from_packet PacketType.keepalive packet >>= generate_ack >>= to_packet)
        ≡ ok (le 4 0x80 ++ drop 4 packet))
      × ((from_packet PacketType.keepalive_ack packet >>= generate_ack) ≡ err protocol_exception)
unfolding from_packet generate_ack code
generate_ack-from_packet packet h = (
  ground
      (arith, to_packet_lem (record { type = PacketType.keepalive_ack; payload = drop 4 packet })),
  ground arith,
)

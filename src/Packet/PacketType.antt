-- ===== src/Packet/PacketType.antt =====
-- enum class PacketType of src/protocol/packet/Packet.h. The enum holds any 32-bit number: `other` is a
-- value that no enumerator names.
use ceema.Prelude.{ℕ, ◌≡◌, refl, ◌==◌, if◌then◌else◌}

pub data PacketType : Type 0 where
  keepalive message_send message_recv keepalive_ack ack_server ack_client : PacketType
  connected disconnected : PacketType
  other : ℕ → PacketType

abbrev pub IsNamed : PacketType → Type 0
IsNamed (other v) = ⊥
IsNamed t = Unit {0}

unfoldable pub code : PacketType → ℕ
code keepalive = 0x00
code message_send = 0x01
code message_recv = 0x02
code keepalive_ack = 0x80
code ack_server = 0x81
code ack_client = 0x82
code connected = 0xd0
code disconnected = 0xe0
code (other v) = v

-- `static_cast<PacketType>(v)`, sorted by the enumerators.
unfoldable pub of_code : ℕ → PacketType
of_code v =
    if v == 0x00
    then keepalive
    else if v == 0x01
    then message_send
    else if v == 0x02
    then message_recv
    else if v == 0x80
    then keepalive_ack
    else if v == 0x81
    then ack_server
    else if v == 0x82
    then ack_client
    else if v == 0xd0
    then connected
    else if v == 0xe0
    then disconnected
    else other v

pub of_code-code : (t : PacketType) → IsNamed t → of_code (code t) ≡ t
unfolding of_code code
of_code-code keepalive h = refl
of_code-code message_send h = refl
of_code-code message_recv h = refl
of_code-code keepalive_ack h = refl
of_code-code ack_server h = refl
of_code-code ack_client h = refl
of_code-code connected h = refl
of_code-code disconnected h = refl
of_code-code (other v) h = absurd h

-- ===== src/Tests/Packets.antt =====
-- Runs of the packets, and their theorems at concrete inputs.
use ceema.Prelude.{
  ◌≡◌, ◌≤◌, ◌⊎◌, ◌≢◌, refl, ℕ, List, [], ◌∷◌, ◌++◌, ◌<◌, length, replicate, arith, ok, err,
  out_of_bounds,
}
use ceema.Types.Bytes.{le}
use ceema.Contact.{contact, account}
use ceema.Payload.MessagePayload.{MessagePayload}
use ceema.Packet.Message.New.{counted, new_message, new_message_ids_differ}
use ceema.Packet.PacketType.{PacketType}
use ceema.Packet.KeepAlive.{KeepAlive}
use ceema.Packet.Acknowledgement.{Acknowledgement, from_packet_loses_message}
use ceema.Packet.Acknowledgement
use ceema.Packet.Message.{Message}
use ceema.Packet.Message
use ceema.Packet.Message.RoundTrip.{from_packet-to_packet_message}
use ceema.Packet.Message.Safety.{from_packet_total}
use ceema.Packet.Message.Encryption.{encrypt, decrypt, decrypt-encrypt}
use ceema.Packet.Packet.{from_packet, from_packet_bounds}
use ceema.Tests.Setup.{no_formats, plain_crypto, plain-IsCrypto, alice_id, bob_id, hello, letter}

abbrev ping : List ℕ
ping = 0 ∷ 0 ∷ 0 ∷ 0 ∷ 5 ∷ 6 ∷ []

abbrev pong : KeepAlive
pong = record { type = PacketType.keepalive_ack; payload = 5 ∷ 6 ∷ [] }

from_packet_loses_message_example :
    Acknowledgement.from_packet PacketType.ack_server (le 4 0x81 ++ (alice_id ++ replicate 8 7))
    ≡ ok (record { type = PacketType.ack_server; sender = alice_id; message = alice_id })
from_packet_loses_message_example = from_packet_loses_message alice_id (replicate 8 7) refl refl

abbrev sealed_letter : Message no_formats
sealed_letter = record letter { payload_data = replicate 40 1 }

from_packet-to_packet_message_example :
    (d : List ℕ) × (Message.to_packet no_formats sealed_letter ≡ ok d)
    × (Message.from_packet no_formats PacketType.message_recv d
        ≡ ok (record sealed_letter {
          type = PacketType.message_recv;
          payload = MessagePayload.payload_none;
        }))
from_packet-to_packet_message_example =
    from_packet-to_packet_message no_formats sealed_letter (record {
      sender_length = refl;
      recipient_length = refl;
      id_length = refl;
      time_fits = omega arith;
      flags_fits = omega arith;
      nick_fits = omega arith;
      nick_bytes = omega arith;
      nonce_length = refl;
      has_payload = omega arith;
    })

from_packet_total_example :
    (m : Message no_formats) × (Message.from_packet no_formats PacketType.message_recv
        (replicate 110 6)
      ≡ ok m)
    × (m.payload_data ≡ replicate 18 6)
    × (m.sender ≡ replicate 8 6)
    × (m.type ≡ PacketType.message_recv)
from_packet_total_example = from_packet_total no_formats (replicate 110 6) (omega arith)

text_there : ◌≢◌ {A = List ℕ} (0x68 ∷ 0x69 ∷ []) []
text_there e = ground arith

ids_differ : bob_id ≢ alice_id
ids_differ e = ground arith

decrypt-encrypt_example :
    (sealed : Message no_formats) × (encrypt plain_crypto no_formats 259
        (account plain_crypto alice_id (replicate 32 1))
        (contact bob_id (replicate 32 2))
        letter
      ≡ ok sealed)
    × (decrypt plain_crypto no_formats
          (contact alice_id (replicate 32 1))
          (account plain_crypto bob_id (replicate 32 2))
          sealed
        ≡ ok (record letter { payload_data = [] }))
decrypt-encrypt_example =
    decrypt-encrypt plain_crypto no_formats 259 alice_id (replicate 32 1) bob_id (replicate 32 2)
      letter plain-IsCrypto (λ t n pk sk. (replicate 16 7 ++ t, refl)) refl refl text_there

from_packet_bounds_example :
    ((length {A = ℕ} (0xd0 ∷ 0 ∷ []) < 4)
      × (from_packet no_formats (0xd0 ∷ 0 ∷ []) ≡ err out_of_bounds))
    ⊎ ((4 ≤ length {A = ℕ} (0xd0 ∷ 0 ∷ []))
        × (from_packet no_formats (0xd0 ∷ 0 ∷ []) ≢ err out_of_bounds))
from_packet_bounds_example = from_packet_bounds no_formats (0xd0 ∷ 0 ∷ [])

new_message_ids_differ_example :
    (new_message no_formats alice_id bob_id hello
      (replicate 6 1)
      1500000000
      (replicate 24 3)
      255).0.id
    ≢ (new_message no_formats alice_id bob_id hello (replicate 6 1) 1500000001 (replicate 24 4) (
        counted 1
          (new_message no_formats alice_id bob_id hello
            (replicate 6 1)
            1500000000
            (replicate 24 3)
            255).1)).0.id
new_message_ids_differ_example =
    new_message_ids_differ no_formats alice_id bob_id alice_id bob_id hello hello (replicate 6 1)
      (replicate 6 1) 1500000000 1500000001 (replicate 24 3) (replicate 24 4) 1 255 (omega arith)
      (omega arith)

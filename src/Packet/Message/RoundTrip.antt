-- ===== src/Packet/Message/RoundTrip.antt =====
-- Message::toPacket and Message::fromPacket of src/protocol/packet/Message.cpp, one after the other.
use ceema.Prelude.{
  ℕ, zero, suc, ◌+◌, ◌-◌, ◌<◌, ◌≤◌, ◌≡◌, ◌≢◌, ◌^◌, refl, List, [], ◌∷◌, ◌++◌, length, length-append,
  All, replicate, length-replicate, drop-append, length-take, take_all, append-nil, append_assoc,
  arith, ok,
}
use ceema.Types.Bytes.{le, length-le}
use ceema.Types.Iter.{copy-output, htole-output, copy_iter-append, copy_iter_whole, letoh-append}
use ceema.Packet.PacketType.{PacketType, code}
use ceema.Payload.MessagePayload.{Formats, MessagePayload}
use ceema.Packet.Message.{Message, from_packet, to_packet, c_string, nick_field}

-- The fields fit their places, the nickname is a C string, and the payload is encrypted.
pub record IsValid {f : Formats} (m : Message f) : Type 0 where
  pub sender_length : length m.sender ≡ 8
  pub recipient_length : length m.recipient ≡ 8
  pub id_length : length m.id ≡ 8
  pub time_fits : m.time < 2 ^ 32
  pub flags_fits : m.flags < 2 ^ 32
  pub nick_fits : length m.nick ≤ 32
  pub nick_bytes : All (λ b. b ≢ 0) m.nick
  pub nonce_length : length m.nonce ≡ 24
  pub has_payload : 16 ≤ length m.payload_data

c_string_zeros : (n : ℕ) → c_string (replicate n 0) ≡ []
unfolding c_string
c_string_zeros zero = refl
c_string_zeros (suc n) = refl

c_string-append_zeros :
    (s : List ℕ) (n : ℕ) → All (λ b. b ≢ 0) s → c_string (s ++ replicate n 0) ≡ s
unfolding c_string
c_string-append_zeros [] n h = c_string_zeros n
c_string-append_zeros (b ∷ s) n h = ground (arith, c_string-append_zeros s n h.1)

module _ (f : Formats) where
  nick_field_cases :
      (nick : List ℕ)
      → length nick ≤ 32
      → nick_field f nick ≡ nick ++ replicate (32 - length nick) 0
  unfolding nick_field
  nick_field_cases nick h =
      let e : 32 ≤ length nick → 32 - length nick ≡ 0 = λ k. omega arith in
      ground (arith, take_all 32 nick h, append-nil nick, e)

  c_string-nick_field :
      (nick : List ℕ)
      → length nick ≤ 32
      → All (λ b. b ≢ 0) nick
      → c_string (nick_field f nick) ≡ nick
  c_string-nick_field nick h z = rw (nick_field_cases nick h) (c_string-append_zeros nick _ z)

  length-nick_field : (nick : List ℕ) → length (nick_field f nick) ≡ 32
  unfolding nick_field
  length-nick_field nick = ground (
    arith,
    length-take 32 nick,
    length-append nick (replicate (32 - length nick) 0),
    length-replicate {A = ℕ} (32 - length nick) 0,
  )

  -- The bytes of the packet.
  abbrev pub layout : Message f → List ℕ
  layout m =
      le 4 (code m.type)
      ++ (m.sender
          ++ (m.recipient
              ++ (m.id
                  ++ (le 4 m.time
                      ++ (le 4 m.flags ++ (nick_field f m.nick ++ (m.nonce ++ m.payload_data)))))))

  nothing_left : (n : ℕ) → 108 + n - 16 - 4 - 8 - 8 - 8 - 4 - 4 - 32 - 24 - n ≡ 0
  nothing_left n = omega arith

  regroup :
      (m : Message f)
      → ((((((((le 4 (code m.type)) ++ m.sender) ++ m.recipient) ++ m.id) ++ le 4 m.time)
                ++ le 4 m.flags)
              ++ nick_field f m.nick)
            ++ m.nonce)
          ++ m.payload_data
        ≡ layout m
  regroup m = simp append_assoc

  to_packet-layout : (m : Message f) → IsValid m → to_packet f m ≡ ok (layout m)
  unfolding to_packet
  to_packet-layout m v = ground (
    arith,
    htole-output 4 (code m.type) [] (108 + length m.payload_data - 16),
    copy-output m.sender (le 4 (code m.type)) 8 (108 + length m.payload_data - 16 - 4),
    copy-output m.recipient ((le 4 (code m.type)) ++ m.sender) 8
        (108 + length m.payload_data - 16 - 4 - 8),
    copy-output m.id (((le 4 (code m.type)) ++ m.sender) ++ m.recipient) 8
        (108 + length m.payload_data - 16 - 4 - 8 - 8),
    htole-output 4 m.time ((((le 4 (code m.type)) ++ m.sender) ++ m.recipient) ++ m.id)
        (108 + length m.payload_data - 16 - 4 - 8 - 8 - 8),
    htole-output 4 m.flags
        (((((le 4 (code m.type)) ++ m.sender) ++ m.recipient) ++ m.id) ++ le 4 m.time)
        (108 + length m.payload_data - 16 - 4 - 8 - 8 - 8 - 4),
    copy-output (nick_field f m.nick)
        ((((((le 4 (code m.type)) ++ m.sender) ++ m.recipient) ++ m.id) ++ le 4 m.time)
          ++ le 4 m.flags)
        32 (108 + length m.payload_data - 16 - 4 - 8 - 8 - 8 - 4 - 4),
    copy-output m.nonce
        (((((((le 4 (code m.type)) ++ m.sender) ++ m.recipient) ++ m.id) ++ le 4 m.time)
            ++ le 4 m.flags)
          ++ nick_field f m.nick)
        24 (108 + length m.payload_data - 16 - 4 - 8 - 8 - 8 - 4 - 4 - 32),
    copy-output m.payload_data
        ((((((((le 4 (code m.type)) ++ m.sender) ++ m.recipient) ++ m.id) ++ le 4 m.time)
              ++ le 4 m.flags)
            ++ nick_field f m.nick)
          ++ m.nonce)
        (length m.payload_data) (108 + length m.payload_data - 16 - 4 - 8 - 8 - 8 - 4 - 4 - 32 - 24)
        refl,
    length-nick_field m.nick,
    nothing_left (length m.payload_data),
    append-nil (
        ((((((((le 4 (code m.type)) ++ m.sender) ++ m.recipient) ++ m.id) ++ le 4 m.time)
              ++ le 4 m.flags)
            ++ nick_field f m.nick)
          ++ m.nonce)
        ++ m.payload_data),
    regroup m,
  )

  length-layout : (m : Message f) → IsValid m → length (layout m) ≡ 92 + length m.payload_data
  length-layout m v = omega (
    arith,
    length-append {0},
    length-le 4 (code m.type),
    length-le 4 m.time,
    length-le 4 m.flags,
    length-nick_field m.nick,
    v.sender_length,
    v.recipient_length,
    v.id_length,
    v.nonce_length,
  )

  from_packet-layout :
      (m : Message f)
      → IsValid m
      → from_packet f PacketType.message_recv (layout m)
        ≡ ok (record m { type = PacketType.message_recv; payload = MessagePayload.payload_none })
  unfolding from_packet
  from_packet-layout m v =
      let e : length m.payload_data ≡ 92 + length m.payload_data - 108 + 16 =
        omega (arith, v.has_payload) in
      ground (
        arith,
        length-layout m v,
        drop-append 4 (le 4 (code m.type))
            (m.sender
              ++ (m.recipient
                  ++ (m.id
                      ++ (le 4 m.time
                          ++ (le 4 m.flags
                              ++ (nick_field f m.nick ++ (m.nonce ++ m.payload_data)))))))
            (length-le 4 (code m.type)),
        copy_iter-append 8 m.sender (
            m.recipient
            ++ (m.id
                ++ (le 4 m.time
                    ++ (le 4 m.flags ++ (nick_field f m.nick ++ (m.nonce ++ m.payload_data)))))),
        copy_iter-append 8 m.recipient (
            m.id
            ++ (le 4 m.time
                ++ (le 4 m.flags ++ (nick_field f m.nick ++ (m.nonce ++ m.payload_data))))),
        copy_iter-append 8 m.id
            (le 4 m.time ++ (le 4 m.flags ++ (nick_field f m.nick ++ (m.nonce ++ m.payload_data)))),
        letoh-append 4 m.time
            (le 4 m.flags ++ (nick_field f m.nick ++ (m.nonce ++ m.payload_data))),
        letoh-append 4 m.flags (nick_field f m.nick ++ (m.nonce ++ m.payload_data)),
        copy_iter-append 32 (nick_field f m.nick) (m.nonce ++ m.payload_data),
        copy_iter-append 24 m.nonce m.payload_data,
        length-nick_field m.nick,
        c_string-nick_field m.nick,
        copy_iter_whole (92 + length m.payload_data - 108 + 16) m.payload_data e,
      )

  -- A message is read back from its packet as a received one with its payload still encrypted, if
  -- its fields fit their places, its nickname has at most 32 bytes and no zero byte, and its
  -- encrypted payload has 16 bytes at least.
  pub from_packet-to_packet_message :
      (m : Message f)
      → IsValid m
      → (d : List ℕ) × (to_packet f m ≡ ok d)
        × (from_packet f PacketType.message_recv d
            ≡ ok (record m {
              type = PacketType.message_recv;
              payload = MessagePayload.payload_none;
            }))
  from_packet-to_packet_message m v = (layout m, to_packet-layout m v, from_packet-layout m v)

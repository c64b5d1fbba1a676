-- ===== src/Tests/Payloads.antt =====
-- Runs of the payloads, and their theorems at concrete inputs.
use ceema.Prelude.{
  true, ◌≡◌, ◌≢◌, refl, ℕ, List, [], ◌∷◌, ◌++◌, length, replicate, arith, ok, err, runtime_error,
  out_of_bounds, not, ◌&&◌, ◌||◌, ltb, leb,
}
use ceema.Types.Bytes.{le}
use ceema.Types.Iter.{copy, htole, next_byte}
use ceema.Encoding.Pkcs7
use ceema.Payload.MessageType.{code, of_code}
use ceema.Payload.MessagePayload.{MessagePayload, get_type, serialize, deserialize}
use ceema.Payload.MessagePayload.RoundTrip.{deserialize-serialize_payload, deserialize_payload_safe}
use ceema.Payload.Picture.{PayloadPicture}
use ceema.Payload.Picture
use ceema.Payload.GroupIcon.{PayloadGroupIcon, deserialize-serialize_fails}
use ceema.Payload.GroupIcon
use ceema.Payload.Typing.{PayloadTyping}
use ceema.Payload.Typing
use ceema.Types.Flags.{MessageFlag, isset, isnset, set, unset}
use ceema.Types.Flags.Sets.{same, flags_refine}
use ceema.Payload.MessagePayload.DefaultFlags.{default_flags, default_flags_by_type}
use ceema.Tests.Setup.{no_formats, hello}

abbrev picture : MessagePayload no_formats
picture = MessagePayload.picture (record { id = replicate 16 1; size = 70000; n = replicate 24 2 })

-- 70000 is 0x11170, lowest byte first.
picture_bytes :
    serialize no_formats picture
    ≡ ok (replicate 16 1 ++ (0x70 ∷ 0x11 ∷ 0x01 ∷ 0x00 ∷ replicate 24 2))
unfolding serialize Picture.serialize copy htole le
picture_bytes = refl

typing_read :
    deserialize no_formats (0x90 ∷ 5 ∷ [])
    ≡ ok (MessagePayload.client_typing (record { typing = true }))
unfolding deserialize next_byte of_code Typing.deserialize
typing_read = refl

deserialize-serialize_payload_example :
    (d : List ℕ) × (serialize no_formats picture ≡ ok d)
    × (deserialize no_formats (code (get_type no_formats picture) ∷ d) ≡ ok picture)
deserialize-serialize_payload_example =
    deserialize-serialize_payload no_formats picture
      (record { id_length = refl; size_fits = omega arith; n_length = refl })

deserialize_payload_safe_example : deserialize no_formats (0x02 ∷ 1 ∷ 2 ∷ []) ≢ err out_of_bounds
unfolding of_code
deserialize_payload_safe_example =
    deserialize_payload_safe no_formats 0x02 (1 ∷ 2 ∷ []) tt (omega arith)

abbrev video_bytes : List ℕ
video_bytes = replicate 74 8

abbrev group_icon : PayloadGroupIcon
group_icon = record { group = replicate 8 1; id = replicate 16 2; size = 300; key = replicate 32 3 }

deserialize-serialize_fails_example :
    (d : List ℕ) × (GroupIcon.serialize group_icon ≡ ok d)
    × (GroupIcon.deserialize d (length d) ≡ err runtime_error)
deserialize-serialize_fails_example =
    deserialize-serialize_fails group_icon
      (record { group_length = refl; id_length = refl; key_length = refl })

-- 259 draws three bytes of padding.
padded : Pkcs7.add_padding 259 (1 ∷ 2 ∷ []) ≡ 1 ∷ 2 ∷ 3 ∷ 3 ∷ 3 ∷ []
unfolding Pkcs7.add_padding
padded = refl

flags_refine_example :
    (isset (set 5 MessageFlag.notify) MessageFlag.push
      ≡ (same MessageFlag.notify MessageFlag.push || isset 5 MessageFlag.push))
    × (isset (unset 5 MessageFlag.notify) MessageFlag.push
        ≡ (not (same MessageFlag.notify MessageFlag.push) && isset 5 MessageFlag.push))
    × (isnset 5 MessageFlag.push ≡ not (isset 5 MessageFlag.push))
flags_refine_example = flags_refine 5 MessageFlag.notify MessageFlag.push

default_flags_by_type_example :
    (isset (default_flags no_formats hello) MessageFlag.group ≡ (
      leb 0x40 (code (get_type no_formats hello)) && ltb (code (get_type no_formats hello)) 0x80))
    × (isset (default_flags no_formats hello) MessageFlag.no_ack
        ≡ leb 0x90 (code (get_type no_formats hello)))
default_flags_by_type_example = default_flags_by_type no_formats hello

-- ===== src/Payload/MessagePayload/DefaultFlags.antt =====
-- `default_flags` of the payloads (src/protocol/packet/payloads) and of their union.
use ceema.Prelude.{ℕ, ◌≡◌, refl, ◌&&◌, [], ◌∷◌, ltb, leb}
use ceema.Types.Flags.{push, no_queue, no_ack, group, bits, flags_of, set, isset}
use ceema.Payload.MessageType.{code}
use ceema.Payload.MessagePayload.{Formats, MessagePayload, get_type}

-- `Payload::default_flags() | MessageFlag::GROUP`, of PayloadGroupBase.
unfoldable pub group_flags : ℕ → ℕ
unfolding set
group_flags flags = set flags group

module _ (f : Formats) where
  unfoldable pub default_flags : MessagePayload f → ℕ
  unfolding flags_of group_flags
  default_flags MessagePayload.payload_none = flags_of []
  default_flags (MessagePayload.text p) = flags_of (push ∷ [])
  default_flags (MessagePayload.picture p) = flags_of (push ∷ [])
  default_flags (MessagePayload.location p) = flags_of (push ∷ [])
  default_flags (MessagePayload.video p) = flags_of (push ∷ [])
  default_flags (MessagePayload.audio p) = flags_of (push ∷ [])
  default_flags (MessagePayload.poll p) = flags_of (push ∷ [])
  default_flags (MessagePayload.poll_vote p) = flags_of (push ∷ [])
  default_flags (MessagePayload.file p) = flags_of (push ∷ [])
  default_flags (MessagePayload.icon p) = flags_of []
  default_flags (MessagePayload.icon_clear p) = flags_of []
  default_flags (MessagePayload.group_text p) = group_flags (flags_of (push ∷ []))
  default_flags (MessagePayload.group_location p) = group_flags (flags_of (push ∷ []))
  default_flags (MessagePayload.group_picture p) = flags_of (push ∷ group ∷ [])
  default_flags (MessagePayload.group_video p) = group_flags (flags_of (push ∷ []))
  default_flags (MessagePayload.group_audio p) = group_flags (flags_of (push ∷ []))
  default_flags (MessagePayload.group_file p) = group_flags (flags_of (push ∷ []))
  default_flags (MessagePayload.group_members p) = flags_of (group ∷ [])
  default_flags (MessagePayload.group_title p) = flags_of (group ∷ [])
  default_flags (MessagePayload.group_leave p) = flags_of (group ∷ [])
  default_flags (MessagePayload.group_icon p) = flags_of (group ∷ [])
  default_flags (MessagePayload.group_sync p) = flags_of (group ∷ [])
  default_flags (MessagePayload.group_poll p) = group_flags (flags_of (push ∷ []))
  default_flags (MessagePayload.group_poll_vote p) = group_flags (flags_of (push ∷ []))
  default_flags (MessagePayload.message_status p) = flags_of []
  default_flags (MessagePayload.client_typing p) = flags_of (no_ack ∷ no_queue ∷ [])

  -- By default a payload is flagged as a group's exactly if its type byte is from 0x40 to 0x7f, and
  -- as not to be acknowledged exactly if it is 0x90 or more.
  pub default_flags_by_type :
      (p : MessagePayload f)
      → (isset (default_flags p) group
          ≡ (leb 0x40 (code (get_type f p)) && ltb (code (get_type f p)) 0x80))
        × (isset (default_flags p) no_ack ≡ leb 0x90 (code (get_type f p)))
  unfolding isset default_flags get_type code bits
  default_flags_by_type MessagePayload.payload_none = (refl, refl)
  default_flags_by_type (MessagePayload.text p) = (refl, refl)
  default_flags_by_type (MessagePayload.picture p) = (refl, refl)
  default_flags_by_type (MessagePayload.location p) = (refl, refl)
  default_flags_by_type (MessagePayload.video p) = (refl, refl)
  default_flags_by_type (MessagePayload.audio p) = (refl, refl)
  default_flags_by_type (MessagePayload.poll p) = (refl, refl)
  default_flags_by_type (MessagePayload.poll_vote p) = (refl, refl)
  default_flags_by_type (MessagePayload.file p) = (refl, refl)
  default_flags_by_type (MessagePayload.icon p) = (refl, refl)
  default_flags_by_type (MessagePayload.icon_clear p) = (refl, refl)
  default_flags_by_type (MessagePayload.group_text p) = (refl, refl)
  default_flags_by_type (MessagePayload.group_location p) = (refl, refl)
  default_flags_by_type (MessagePayload.group_picture p) = (refl, refl)
  default_flags_by_type (MessagePayload.group_video p) = (refl, refl)
  default_flags_by_type (MessagePayload.group_audio p) = (refl, refl)
  default_flags_by_type (MessagePayload.group_file p) = (refl, refl)
  default_flags_by_type (MessagePayload.group_members p) = (refl, refl)
  default_flags_by_type (MessagePayload.group_title p) = (refl, refl)
  default_flags_by_type (MessagePayload.group_leave p) = (refl, refl)
  default_flags_by_type (MessagePayload.group_icon p) = (refl, refl)
  default_flags_by_type (MessagePayload.group_sync p) = (refl, refl)
  default_flags_by_type (MessagePayload.group_poll p) = (refl, refl)
  default_flags_by_type (MessagePayload.group_poll_vote p) = (refl, refl)
  default_flags_by_type (MessagePayload.message_status p) = (refl, refl)
  default_flags_by_type (MessagePayload.client_typing p) = (refl, refl)

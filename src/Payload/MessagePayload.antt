-- ===== src/Payload/MessagePayload.antt =====
-- MessagePayload of src/protocol/packet/payloads/MessagePayload.h and MessagePayload.cpp: the union of
-- all payloads, its reader and its writer. The location, file and poll payloads, which are written
-- through iostreams and the JSON library, are parameters.
pub mod RoundTrip
pub mod DefaultFlags
use ceema.Prelude.{
  ℕ, ◌+◌, ◌-◌, ◌<◌, ◌≡◌, ◌≢◌, List, [], ◌∷◌, length, All, arith, Result, ok, err, runtime_error,
  logic_error, out_of_bounds, ◌>>=◌,
}
use ceema.Types.Bytes.{IsByte}
use ceema.Types.Iter.{Input, next_byte}
use ceema.Types.Ids.{IsId}
use ceema.Payload.MessageType.{MessageType, of_code, code}
use ceema.Payload.Group.{PayloadGroup}
use ceema.Payload.Group
use ceema.Payload.Text
use ceema.Payload.Text.{PayloadText}
use ceema.Payload.Picture
use ceema.Payload.Picture.{PayloadPicture}
use ceema.Payload.Video
use ceema.Payload.Video.{PayloadVideo}
use ceema.Payload.Audio
use ceema.Payload.Audio.{PayloadAudio}
use ceema.Payload.Icon
use ceema.Payload.Icon.{PayloadIcon}
use ceema.Payload.IconClear
use ceema.Payload.IconClear.{PayloadIconClear}
use ceema.Payload.GroupPicture
use ceema.Payload.GroupPicture.{PayloadGroupPicture}
use ceema.Payload.GroupMembers
use ceema.Payload.GroupMembers.{PayloadGroupMembers}
use ceema.Payload.GroupTitle
use ceema.Payload.GroupTitle.{PayloadGroupTitle}
use ceema.Payload.GroupLeave
use ceema.Payload.GroupLeave.{PayloadGroupLeave}
use ceema.Payload.GroupIcon
use ceema.Payload.GroupIcon.{PayloadGroupIcon}
use ceema.Payload.GroupSync
use ceema.Payload.GroupSync.{PayloadGroupSync}
use ceema.Payload.MessageStatus
use ceema.Payload.MessageStatus.{PayloadMessageStatus}
use ceema.Payload.Typing
use ceema.Payload.Typing.{PayloadTyping}

-- The payloads in the formats of other libraries, each with its reader and writer.
pub record Formats : Type 1 where
  pub Location : Type 0
  pub read_location : Input → ℕ → Result Location
  pub write_location : Location → Result (List ℕ)
  pub Poll : Type 0
  pub read_poll : Input → ℕ → Result Poll
  pub write_poll : Poll → Result (List ℕ)
  pub PollVote : Type 0
  pub read_poll_vote : Input → ℕ → Result PollVote
  pub write_poll_vote : PollVote → Result (List ℕ)
  pub File : Type 0
  pub read_file : Input → ℕ → Result File
  pub write_file : File → Result (List ℕ)

pub data MessagePayload (f : Formats) : Type 0 where
  payload_none : MessagePayload f
  text : PayloadText → MessagePayload f
  picture : PayloadPicture → MessagePayload f
  location : f.Location → MessagePayload f
  video : PayloadVideo → MessagePayload f
  audio : PayloadAudio → MessagePayload f
  poll : f.Poll → MessagePayload f
  poll_vote : f.PollVote → MessagePayload f
  file : f.File → MessagePayload f
  icon : PayloadIcon → MessagePayload f
  icon_clear : PayloadIconClear → MessagePayload f
  group_text : PayloadGroup PayloadText → MessagePayload f
  group_location : PayloadGroup f.Location → MessagePayload f
  group_picture : PayloadGroupPicture → MessagePayload f
  group_video : PayloadGroup PayloadVideo → MessagePayload f
  group_audio : PayloadGroup PayloadAudio → MessagePayload f
  group_file : PayloadGroup f.File → MessagePayload f
  group_members : PayloadGroupMembers → MessagePayload f
  group_title : PayloadGroupTitle → MessagePayload f
  group_leave : PayloadGroupLeave → MessagePayload f
  group_icon : PayloadGroupIcon → MessagePayload f
  group_sync : PayloadGroupSync → MessagePayload f
  group_poll : PayloadGroup f.Poll → MessagePayload f
  group_poll_vote : PayloadGroup f.PollVote → MessagePayload f
  message_status : PayloadMessageStatus → MessagePayload f
  client_typing : PayloadTyping → MessagePayload f

module _ (f : Formats) where
  unfoldable pub get_type : MessagePayload f → MessageType
  get_type payload_none = MessageType.type_none
  get_type (text p) = MessageType.text
  get_type (picture p) = MessageType.picture
  get_type (location p) = MessageType.location
  get_type (video p) = MessageType.video
  get_type (audio p) = MessageType.audio
  get_type (poll p) = MessageType.poll
  get_type (poll_vote p) = MessageType.poll_vote
  get_type (file p) = MessageType.file
  get_type (icon p) = MessageType.icon
  get_type (icon_clear p) = MessageType.icon_clear
  get_type (group_text p) = MessageType.group_text
  get_type (group_location p) = MessageType.group_location
  get_type (group_picture p) = MessageType.group_picture
  get_type (group_video p) = MessageType.group_video
  get_type (group_audio p) = MessageType.group_audio
  get_type (group_file p) = MessageType.group_file
  get_type (group_members p) = MessageType.group_members
  get_type (group_title p) = MessageType.group_title
  get_type (group_leave p) = MessageType.group_leave
  get_type (group_icon p) = MessageType.group_icon
  get_type (group_sync p) = MessageType.group_sync
  get_type (group_poll p) = MessageType.group_poll
  get_type (group_poll_vote p) = MessageType.group_poll_vote
  get_type (message_status p) = MessageType.message_status
  get_type (client_typing p) = MessageType.client_typing

  unfoldable pub serialize : MessagePayload f → Result (List ℕ)
  serialize payload_none = err logic_error
  serialize (text p) = Text.serialize p
  serialize (picture p) = Picture.serialize p
  serialize (location p) = f.write_location p
  serialize (video p) = Video.serialize p
  serialize (audio p) = Audio.serialize p
  serialize (poll p) = f.write_poll p
  serialize (poll_vote p) = f.write_poll_vote p
  serialize (file p) = f.write_file p
  serialize (icon p) = Icon.serialize p
  serialize (icon_clear p) = IconClear.serialize p
  serialize (group_text p) = Group.serialize Text.serialize p
  serialize (group_location p) = Group.serialize f.write_location p
  serialize (group_picture p) = GroupPicture.serialize p
  serialize (group_video p) = Group.serialize Video.serialize p
  serialize (group_audio p) = Group.serialize Audio.serialize p
  serialize (group_file p) = Group.serialize f.write_file p
  serialize (group_members p) = GroupMembers.serialize p
  serialize (group_title p) = GroupTitle.serialize p
  serialize (group_leave p) = GroupLeave.serialize p
  serialize (group_icon p) = GroupIcon.serialize p
  serialize (group_sync p) = GroupSync.serialize p
  serialize (group_poll p) = Group.serialize f.write_poll p
  serialize (group_poll_vote p) = Group.serialize f.write_poll_vote p
  serialize (message_status p) = MessageStatus.serialize p
  serialize (client_typing p) = Typing.serialize p

  -- `return MessagePayload(Payload::deserialize(payload_data, size));`
  abbrev pub wrap : {P : Type 0} → (P → MessagePayload f) → Result P → Result (MessagePayload f)
  wrap make (ok p) = ok (make p)
  wrap make (err e) = err e

  -- The cases of the switch over the type; PayloadNone::deserialize throws as well.
  unfoldable pub deserialize_as : MessageType → Input → ℕ → Result (MessagePayload f)
  deserialize_as MessageType.type_none payload_data size = err runtime_error
  deserialize_as MessageType.text payload_data size = wrap text (Text.deserialize payload_data size)
  deserialize_as MessageType.picture payload_data size =
      wrap picture (Picture.deserialize payload_data size)
  deserialize_as MessageType.location payload_data size =
      wrap location (f.read_location payload_data size)
  deserialize_as MessageType.video payload_data size =
      wrap video (Video.deserialize payload_data size)
  deserialize_as MessageType.audio payload_data size =
      wrap audio (Audio.deserialize payload_data size)
  deserialize_as MessageType.poll payload_data size = wrap poll (f.read_poll payload_data size)
  deserialize_as MessageType.poll_vote payload_data size =
      wrap poll_vote (f.read_poll_vote payload_data size)
  deserialize_as MessageType.file payload_data size = wrap file (f.read_file payload_data size)
  deserialize_as MessageType.icon payload_data size = wrap icon (Icon.deserialize payload_data size)
  deserialize_as MessageType.icon_clear payload_data size =
      wrap icon_clear (IconClear.deserialize payload_data size)
  deserialize_as MessageType.group_text payload_data size =
      wrap group_text (Group.deserialize Text.deserialize payload_data size)
  deserialize_as MessageType.group_location payload_data size =
      wrap group_location (Group.deserialize f.read_location payload_data size)
  deserialize_as MessageType.group_picture payload_data size =
      wrap group_picture (GroupPicture.deserialize payload_data size)
  deserialize_as MessageType.group_video payload_data size =
      wrap group_video (Group.deserialize Video.deserialize payload_data size)
  deserialize_as MessageType.group_audio payload_data size =
      wrap group_audio (Group.deserialize Audio.deserialize payload_data size)
  deserialize_as MessageType.group_file payload_data size =
      wrap group_file (Group.deserialize f.read_file payload_data size)
  deserialize_as MessageType.group_members payload_data size =
      wrap group_members (GroupMembers.deserialize payload_data size)
  deserialize_as MessageType.group_title payload_data size =
      wrap group_title (GroupTitle.deserialize payload_data size)
  deserialize_as MessageType.group_leave payload_data size =
      wrap group_leave (GroupLeave.deserialize payload_data size)
  deserialize_as MessageType.group_icon payload_data size =
      wrap group_icon (GroupIcon.deserialize payload_data size)
  deserialize_as MessageType.group_sync payload_data size =
      wrap group_sync (GroupSync.deserialize payload_data size)
  deserialize_as MessageType.group_poll payload_data size =
      wrap group_poll (Group.deserialize f.read_poll payload_data size)
  deserialize_as MessageType.group_poll_vote payload_data size =
      wrap group_poll_vote (Group.deserialize f.read_poll_vote payload_data size)
  deserialize_as MessageType.message_status payload_data size =
      wrap message_status (MessageStatus.deserialize payload_data size)
  deserialize_as MessageType.client_typing payload_data size =
      wrap client_typing (Typing.deserialize payload_data size)
  deserialize_as (MessageType.other b) payload_data size = err runtime_error

  unfoldable pub deserialize : List ℕ → Result (MessagePayload f)
  unfolding deserialize_as
  deserialize payload = do
    (type, payload_data) ← next_byte payload
    deserialize_as (of_code type) payload_data (length payload - 1)

-- ===== src/Payload/MessageType.antt =====
-- enum class MessageType of src/protocol/packet/messagetypes.h. The enum holds any byte: `other` is a
-- value that no enumerator names.
use ceema.Prelude.{ℕ, ◌≡◌, refl, ◌==◌, if◌then◌else◌, arith}

pub data MessageType : Type 0 where
  type_none text picture location video audio poll poll_vote file icon icon_clear : MessageType
  group_text group_location group_picture group_video group_audio group_file : MessageType
  group_members group_title group_leave group_icon group_sync group_poll group_poll_vote :
      MessageType
  message_status client_typing : MessageType
  other : ℕ → MessageType

abbrev pub IsNamed : MessageType → Type 0
IsNamed (other b) = ⊥
IsNamed t = Unit {0}

unfoldable pub code : MessageType → ℕ
code type_none = 0x00
code text = 0x01
code picture = 0x02
code location = 0x10
code video = 0x13
code audio = 0x14
code poll = 0x15
code poll_vote = 0x16
code file = 0x17
code icon = 0x18
code icon_clear = 0x19
code group_text = 0x41
code group_location = 0x42
code group_picture = 0x43
code group_video = 0x44
code group_audio = 0x45
code group_file = 0x46
code group_members = 0x4A
code group_title = 0x4B
code group_leave = 0x4C
code group_icon = 0x50
code group_sync = 0x51
code group_poll = 0x52
code group_poll_vote = 0x53
code message_status = 0x80
code client_typing = 0x90
code (other b) = b

-- `static_cast<MessageType>(b)`, sorted by the enumerators.
unfoldable pub of_code : ℕ → MessageType
of_code b =
    if b == 0x00
    then type_none
    else if b == 0x01
    then text
    else if b == 0x02
    then picture
    else if b == 0x10
    then location
    else if b == 0x13
    then video
    else if b == 0x14
    then audio
    else if b == 0x15
    then poll
    else if b == 0x16
    then poll_vote
    else if b == 0x17
    then file
    else if b == 0x18
    then icon
    else if b == 0x19
    then icon_clear
    else if b == 0x41
    then group_text
    else if b == 0x42
    then group_location
    else if b == 0x43
    then group_picture
    else if b == 0x44
    then group_video
    else if b == 0x45
    then group_audio
    else if b == 0x46
    then group_file
    else if b == 0x4A
    then group_members
    else if b == 0x4B
    then group_title
    else if b == 0x4C
    then group_leave
    else if b == 0x50
    then group_icon
    else if b == 0x51
    then group_sync
    else if b == 0x52
    then group_poll
    else if b == 0x53
    then group_poll_vote
    else if b == 0x80
    then message_status
    else if b == 0x90
    then client_typing
    else other b

-- Every enumerator is read back from its byte.
pub of_code-code : (t : MessageType) → IsNamed t → of_code (code t) ≡ t
unfolding of_code code
of_code-code type_none h = refl
of_code-code text h = refl
of_code-code picture h = refl
of_code-code location h = refl
of_code-code video h = refl
of_code-code audio h = refl
of_code-code poll h = refl
of_code-code poll_vote h = refl
of_code-code file h = refl
of_code-code icon h = refl
of_code-code icon_clear h = refl
of_code-code group_text h = refl
of_code-code group_location h = refl
of_code-code group_picture h = refl
of_code-code group_video h = refl
of_code-code group_audio h = refl
of_code-code group_file h = refl
of_code-code group_members h = refl
of_code-code group_title h = refl
of_code-code group_leave h = refl
of_code-code group_icon h = refl
of_code-code group_sync h = refl
of_code-code group_poll h = refl
of_code-code group_poll_vote h = refl
of_code-code message_status h = refl
of_code-code client_typing h = refl
of_code-code (other b) h = absurd h

-- Every byte is kept by the enum that it is read as.
pub code-of_code : (b : ℕ) → code (of_code b) ≡ b
unfolding of_code code
code-of_code b = ground arith

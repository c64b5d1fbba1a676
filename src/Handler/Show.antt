-- ===== src/Handler/Show.antt =====
-- The handlers of ThreeplMessageHandler that show a message to the user and send nothing. Each gives
-- whether the message is answered with its status. The texts that are shown are arguments of the
-- notices; the HTML of a location is left to the notice, and the callbacks of the transfers are left out.
use ceema.Prelude.{
  Bool, true, false, none, some, List, [], ◌∷◌, ◌++◌, ◌==◌, if◌then◌else◌, ok, err, out_of_bounds,
}
use ceema.Prelude.Stateful.{M}
use ceema.Contacts.{Fetch, fetch_contact}
use ceema.Groups.{Group}
use ceema.Payload.MessageStatus.{PayloadMessageStatus, agreed, disagreed}
use ceema.Payload.Typing.{PayloadTyping}
use ceema.Payload.Text.{PayloadText}
use ceema.Payload.Picture.{PayloadPicture}
use ceema.Payload.Video.{PayloadVideo}
use ceema.Payload.Audio.{PayloadAudio}
use ceema.Payload.Icon.{PayloadIcon}
use ceema.Payload.GroupPicture.{PayloadGroupPicture}
use ceema.Payload.GroupIcon.{PayloadGroupIcon}
use ceema.Payload.MessagePayload.{Formats}
use ceema.Packet.Message.{Message}
use ceema.Handler.{MessageHandler, Notice, tell}

module _ {f : Formats} (msg : Message f) where
  -- A statement that shows something, and the result of the handler.
  abbrev shown : List (Notice f) → Bool → M (MessageHandler f) Bool
  shown notices ack h = (ok ack, tell notices h)

  unfoldable pub on_msg_text : PayloadText → M (MessageHandler f) Bool
  on_msg_text payload h =
      shown (Notice.got_im msg.sender payload.text msg.time ∷ []) true
        (record h { last_agreeable = msg.id })

  unfoldable pub on_msg_location : f.Location → M (MessageHandler f) Bool
  on_msg_location payload = shown (Notice.got_location msg.sender payload msg.time ∷ []) true

  unfoldable pub on_msg_audio : PayloadAudio → Bool → M (MessageHandler f) Bool
  on_msg_audio payload del = shown (Notice.audio_transfer msg.sender payload del ∷ []) true

  unfoldable pub on_msg_video : PayloadVideo → Bool → M (MessageHandler f) Bool
  on_msg_video payload del = shown (Notice.video_transfer msg.sender payload del ∷ []) true

  unfoldable pub on_msg_file : f.File → Bool → M (MessageHandler f) Bool
  on_msg_file payload del = shown (Notice.file_transfer msg.sender payload del ∷ []) true

  -- The transfer of a picture needs the contact. One that is there is used at once, and it must not be
  -- the null pointer.
  unfoldable pub on_msg_picture : PayloadPicture → M (MessageHandler f) Bool
  unfolding fetch_contact
  on_msg_picture payload h = elim (fetch_contact msg.sender h.contacts) [
    | Fetch.ready c ↦ elim c [
      | none ↦ (err out_of_bounds, h)
      | some contact ↦ shown (Notice.picture_transfer contact.id payload ∷ []) true h
    ]
    | Fetch.asked ↦ (ok true, record h { asked = h.asked ++ (msg.sender ∷ []) })
  ]

  unfoldable pub on_msg_icon : PayloadIcon → M (MessageHandler f) Bool
  on_msg_icon payload = shown (Notice.icon_transfer msg.sender payload ∷ []) false

  unfoldable pub on_msg_icon_clear : M (MessageHandler f) Bool
  on_msg_icon_clear = shown (Notice.icon_cleared msg.sender ∷ []) false

  unfoldable pub on_msg_status : PayloadMessageStatus → M (MessageHandler f) Bool
  on_msg_status payload =
      if payload.status == agreed
      then shown (Notice.agreement msg.sender msg.time ∷ []) false
      else if payload.status == disagreed
      then shown (Notice.disagreement msg.sender msg.time ∷ []) false
      else shown [] false

  unfoldable pub on_msg_typing : PayloadTyping → M (MessageHandler f) Bool
  on_msg_typing payload =
      if payload.typing
      then shown (Notice.typing msg.sender ∷ []) false
      else shown (Notice.typing_stopped msg.sender ∷ []) false

  unfoldable pub on_msg_group_text : Group → PayloadText → M (MessageHandler f) Bool
  on_msg_group_text group payload =
      shown
        (Notice.conversation group.id
          ∷ Notice.chat_text group.id msg.sender payload.text msg.time
          ∷ [])
        true

  unfoldable pub on_msg_group_location : Group → f.Location → M (MessageHandler f) Bool
  on_msg_group_location group payload =
      shown
        (Notice.conversation group.id
          ∷ Notice.chat_location group.id msg.sender payload msg.time
          ∷ [])
        true

  unfoldable pub on_msg_group_picture : PayloadGroupPicture → M (MessageHandler f) Bool
  on_msg_group_picture payload = shown (Notice.group_picture_transfer msg.sender payload ∷ []) true

  -- Given whether the buddy list has a chat of the group.
  unfoldable pub on_msg_group_icon : Bool → Group → PayloadGroupIcon → M (MessageHandler f) Bool
  on_msg_group_icon has_chat group payload =
      if has_chat
      then shown (Notice.group_icon_transfer group.id payload ∷ []) false
      else shown [] false

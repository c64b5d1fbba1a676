-- ===== src/Handler.antt =====
-- ThreeplMessageHandler (src/threepl/MessageHandler.h and MessageHandler.cpp): the messages that wait
-- for a contact, the promises of those that are sent, the groups, and what libpurple is told. A failed
-- assertion, which ends the program, is given as `out_of_bounds`: no catch clause catches it.
pub mod Send
pub mod Show
pub mod Groups
pub mod Receive
pub mod Deliver
pub mod Queue
pub mod Delivery
pub mod Sending
pub mod Opened
pub mod Silence
pub mod Receipts
pub mod Answers
pub mod Authority
use ceema.Prelude.{ℕ, ◌+◌, Bool, Option, List, ◌∷◌, [], ◌++◌, Result}
use ceema.Prelude.Stateful.{M, change}
use ceema.Encoding.Crypto.{Crypto}
use ceema.Contact.{Account}
use ceema.Contacts.{Contacts}
use ceema.Groups.{Group}
use ceema.Groups.Store.{Store}
use ceema.Payload.MessageType.{MessageType}
use ceema.Payload.Picture.{PayloadPicture}
use ceema.Payload.Video.{PayloadVideo}
use ceema.Payload.Audio.{PayloadAudio}
use ceema.Payload.Icon.{PayloadIcon}
use ceema.Payload.GroupPicture.{PayloadGroupPicture}
use ceema.Payload.GroupIcon.{PayloadGroupIcon}
use ceema.Payload.MessagePayload.{Formats}
use ceema.Packet.Message.{Message}

-- What libpurple or a transfer is told, in the order of the calls. `sender` is a client, `number` the
-- number of a group. The flag of a transfer is whether the blob is deleted when it is done.
pub data Notice (f : Formats) : Type 0 where
  alias : (sender nick : List ℕ) → Notice f
  unable_to_decrypt decrypt_error : (sender : List ℕ) → Notice f
  unsupported : (sender : List ℕ) → MessageType → (time : ℕ) → Notice f
  got_im : (sender text : List ℕ) → (time : ℕ) → Notice f
  got_location : (sender : List ℕ) → f.Location → (time : ℕ) → Notice f
  agreement disagreement : (sender : List ℕ) → (time : ℕ) → Notice f
  typing typing_stopped : (sender : List ℕ) → Notice f
  icon_transfer : (sender : List ℕ) → PayloadIcon → Notice f
  icon_cleared : (sender : List ℕ) → Notice f
  picture_transfer : (sender : List ℕ) → PayloadPicture → Notice f
  audio_transfer : (sender : List ℕ) → PayloadAudio → Bool → Notice f
  video_transfer : (sender : List ℕ) → PayloadVideo → Bool → Notice f
  file_transfer : (sender : List ℕ) → f.File → Bool → Notice f
  group_picture_transfer : (sender : List ℕ) → PayloadGroupPicture → Notice f
  group_icon_transfer : (number : ℕ) → PayloadGroupIcon → Notice f
  joined_chat : Group → Notice f
  chat_added : Group → Notice f
  chat_updated : Group → Notice f
  conversation : (number : ℕ) → Notice f
  chat_text : (number : ℕ) → (sender text : List ℕ) → (time : ℕ) → Notice f
  chat_location : (number : ℕ) → (sender : List ℕ) → f.Location → (time : ℕ) → Notice f

-- The messages that wait for a contact, each with its promise. One that is moved away is `none`.
pub record Waiting (f : Formats) : Type 0 where
  pub id : List ℕ
  pub messages : List (Option (Message f) × ℕ)

-- A promise is a number; `outcomes` are those that are settled. (The message that a promise hands on is
-- left out.) `outbox` are the messages given to ThreeplConnection::send_packet, whose answer is ignored,
-- `asked` the ids that the identity server is asked for, and `draws` and `counter` what the random
-- numbers and the message ids are drawn by.
pub record MessageHandler (f : Formats) : Type 0 where
  pub contacts : Contacts
  pub groups : Store
  pub packet_queue : List (Waiting f)
  pub last_agreeable : List ℕ
  pub promises : ℕ
  pub outcomes : List (ℕ × Result (Unit {0}))
  pub outbox : List (Message f)
  pub asked : List (List ℕ)
  pub notices : List (Notice f)
  pub draws : ℕ
  pub counter : ℕ

-- The random numbers and the time of a draw.
pub record Draw : Type 0 where
  pub random : List ℕ
  pub time : ℕ
  pub nonce : List ℕ
  pub padding : ℕ

-- What the handler gets from its connection, from the setting "status-seen", from the generators, and
-- from the buddy list: whether it has a chat of a group, behind so many notices.
pub record Context : Type 0 where
  pub crypto : Crypto
  pub self : Account
  pub draw : ℕ → Draw
  pub status_seen : Bool
  pub has_chat : ℕ → Group → Bool

module _ {f : Formats} where
  abbrev pub tell : List (Notice f) → MessageHandler f → MessageHandler f
  tell notices h = record h { notices = h.notices ++ notices }

  abbrev pub notify : List (Notice f) → M (MessageHandler f) (Unit {0})
  notify notices = change (tell notices)

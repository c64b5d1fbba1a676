-- ===== src/Handler/Receive.antt =====
-- ThreeplMessageHandler::recv: a message is decrypted, handled by its payload, and answered with its
-- status.
use ceema.Prelude.{
  ℕ, Bool, true, false, not, ◌&&◌, Option, none, some, List, [], ◌∷◌, ◌==◌, if◌then◌else◌, length,
  Result, ok, err, out_of_bounds, runtime_error,
}
use ceema.Prelude.Stateful.{M, pure, throw, bind, ◌>>=◌, ◌>>◌}
use ceema.Types.Flags.{MessageFlag, isset}
use ceema.Contact.{Contact}
use ceema.Contacts.{get_contact}
use ceema.Groups.{make_group_uid}
use ceema.Payload.MessageStatus.{seen, received}
use ceema.Payload.MessagePayload.{Formats, MessagePayload, get_type}
use ceema.Packet.Message.{Message}
use ceema.Packet.Message.Encryption.{decrypt}
use ceema.Handler.{MessageHandler, Context, Notice, notify, tell}
use ceema.Handler.Send.{send_payload}
use ceema.Handler.Show.{
  on_msg_text, on_msg_location, on_msg_audio, on_msg_video, on_msg_file, on_msg_picture,
  on_msg_icon, on_msg_icon_clear, on_msg_status, on_msg_typing, on_msg_group_text,
  on_msg_group_location, on_msg_group_picture, on_msg_group_icon,
}
use ceema.Handler.Groups.{
  with_group, find_group_uid, find_or_create_group, request_sync, on_msg_group_title,
  on_msg_group_members, on_msg_group_sync, on_msg_group_leave,
}

module _ (f : Formats) (x : Context) where
  -- The try block: the message with its payload, or what the user is told of an exception.
  unfoldable pub opened : Message f → Result (Message f) → M (MessageHandler f) (Message f)
  opened msg (ok m) h = (ok m, h)
  opened msg (err out_of_bounds) h = (err out_of_bounds, h)
  opened msg (err e) h =
      (ok msg, tell (Notice.unable_to_decrypt msg.sender ∷ Notice.decrypt_error msg.sender ∷ []) h)

  unfoldable pub decrypt_from : Result (Option Contact) → Message f → Result (Message f)
  decrypt_from (err e) msg = err e
  decrypt_from (ok none) msg = err runtime_error
  decrypt_from (ok (some contact)) msg = decrypt x.crypto f contact x.self msg

  -- A group message for a group that is found or added, and for one that is lost.
  unfoldable pub in_group :
      Message f
      → List ℕ
      → (ℕ → M (MessageHandler f) Bool)
      → M (MessageHandler f) Bool
      → M (MessageHandler f) Bool
  in_group msg uid known lost = do
    group ← find_or_create_group f x uid true
    elim group [ some i ↦ known i | none ↦ do ack ← lost; request_sync f x msg uid >> pure ack ]

  -- One whose group is only looked for.
  unfoldable pub in_known_group :
      List ℕ
      → (ℕ → M (MessageHandler f) Bool)
      → M (MessageHandler f) Bool
      → M (MessageHandler f) Bool
  unfolding find_group_uid
  in_known_group uid known lost = do
    group ← find_group_uid uid
    elim group [ some i ↦ known i | none ↦ lost ]

  abbrev pub or_sync : Message f → List ℕ → M (MessageHandler f) Bool
  or_sync msg uid = request_sync f x msg uid >> pure false

  unfoldable pub unsupported : Message f → MessagePayload f → M (MessageHandler f) Bool
  unsupported msg payload =
      notify (Notice.unsupported msg.sender (get_type f payload) msg.time ∷ []) >> pure false

  -- The switch over the payload.
  unfoldable pub on_payload : Message f → MessagePayload f → M (MessageHandler f) Bool
  on_payload msg (MessagePayload.text p) = on_msg_text msg p
  on_payload msg (MessagePayload.picture p) = on_msg_picture msg p
  on_payload msg (MessagePayload.location p) = on_msg_location msg p
  on_payload msg (MessagePayload.video p) = on_msg_video msg p true
  on_payload msg (MessagePayload.audio p) = on_msg_audio msg p true
  on_payload msg (MessagePayload.file p) = on_msg_file msg p true
  on_payload msg (MessagePayload.icon p) = on_msg_icon msg p
  on_payload msg (MessagePayload.icon_clear p) = on_msg_icon_clear msg
  on_payload msg (MessagePayload.group_text p) =
      in_group msg p.group (λ i. with_group i (λ group. on_msg_group_text msg group p.payload))
        (on_msg_text msg p.payload)
  on_payload msg (MessagePayload.group_location p) =
      in_group msg p.group (λ i. with_group i (λ group. on_msg_group_location msg group p.payload))
        (on_msg_location msg p.payload)
  on_payload msg (MessagePayload.group_picture p) =
      in_group msg p.group (λ i. on_msg_group_picture msg p) (on_msg_group_picture msg p)
  on_payload msg (MessagePayload.group_video p) =
      in_group msg p.group (λ i. on_msg_video msg p.payload false)
        (on_msg_video msg p.payload false)
  on_payload msg (MessagePayload.group_audio p) =
      in_group msg p.group (λ i. on_msg_audio msg p.payload false)
        (on_msg_audio msg p.payload false)
  on_payload msg (MessagePayload.group_file p) =
      in_group msg p.group (λ i. on_msg_file msg p.payload false) (on_msg_file msg p.payload false)
  on_payload msg (MessagePayload.group_members p) = do
    group ← find_or_create_group f x (make_group_uid msg.sender p.group) true
    elim group [ some i ↦ on_msg_group_members i p | none ↦ throw out_of_bounds ]
  on_payload msg (MessagePayload.group_title p) =
      let uid : List ℕ = make_group_uid msg.sender p.group in
      in_known_group uid (λ i. on_msg_group_title i p) (or_sync msg uid)
  on_payload msg (MessagePayload.group_leave p) =
      in_known_group p.group (on_msg_group_leave f x msg) (pure false)
  on_payload msg (MessagePayload.group_icon p) =
      let uid : List ℕ = make_group_uid msg.sender p.group in
      in_known_group uid
        (λ i.
          with_group i
            (λ group h. on_msg_group_icon msg (x.has_chat (length h.notices) group) group p h))
        (or_sync msg uid)
  on_payload msg (MessagePayload.group_sync p) =
      let uid : List ℕ = make_group_uid msg.recipient p.group in
      (find_or_create_group f x uid false >>= λ group. elim group [
        | some i ↦ on_msg_group_sync f x msg i
        | none ↦ or_sync msg uid
      ])
  on_payload msg (MessagePayload.message_status p) = on_msg_status msg p
  on_payload msg (MessagePayload.client_typing p) = on_msg_typing msg p
  on_payload msg payload = unsupported msg payload

  unfoldable pub status_of : Message f → MessagePayload f
  status_of msg =
      MessagePayload.message_status
        (record { status = if x.status_seen then seen else received; ids = msg.id ∷ [] })

  -- The end of `recv`.
  unfoldable pub answer : Message f → Bool → M (MessageHandler f) (Unit {0})
  unfolding isset status_of
  answer msg ack = elim (ack && not (isset msg.flags MessageFlag.group)) [
    | true ↦ send_payload f x msg.sender (status_of msg) >> pure tt
    | false ↦ pure tt
  ]

  -- The new nickname that a message brings; that of a buddy is stored by libpurple.
  unfoldable pub nickname : Message f → M (MessageHandler f) (Unit {0})
  nickname msg =
      if length msg.nick == 0 then pure tt else notify (Notice.alias msg.sender msg.nick ∷ [])

  unfoldable pub handle : Message f → M (MessageHandler f) (Unit {0})
  unfolding answer
  handle m = on_payload m m.payload >>= answer m

  unfoldable pub recv : Message f → M (MessageHandler f) (Unit {0})
  unfolding nickname decrypt_from get_contact opened
  recv msg h =
      bind (nickname msg h) (λ _ h'.
        bind (opened msg (decrypt_from (get_contact msg.sender h'.contacts) msg) h') handle)

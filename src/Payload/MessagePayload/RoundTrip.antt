-- ===== src/Payload/MessagePayload/RoundTrip.antt =====
-- The readers and writers of src/protocol/packet/payloads together, through the union MessagePayload.
use ceema.Prelude.{
  ℕ, suc, ◌-◌, ◌≡◌, ◌≢◌, List, [], ◌∷◌, ◌++◌, length, All, append-nil, arith, Result, ok, err,
  out_of_bounds,
}
use ceema.Types.Bytes.{IsByte}
use ceema.Types.Iter.{next_byte}
use ceema.Types.Ids.{IsId}
use ceema.Payload.MessageType.{MessageType, IsNamed, of_code, code, of_code-code}
use ceema.Payload.Group.{PayloadGroup}
use ceema.Payload.Group
use ceema.Payload.Text
use ceema.Payload.Picture
use ceema.Payload.Video
use ceema.Payload.Audio
use ceema.Payload.Icon
use ceema.Payload.IconClear
use ceema.Payload.GroupPicture
use ceema.Payload.GroupMembers
use ceema.Payload.GroupTitle
use ceema.Payload.GroupLeave
use ceema.Payload.GroupSync
use ceema.Payload.MessageStatus
use ceema.Payload.Typing
use ceema.Payload.MessagePayload.{
  Formats, MessagePayload, get_type, serialize, deserialize, deserialize_as, wrap,
}

-- The payloads whose fields fit their places. The formats of other libraries, PayloadNone and the group
-- icon are left out.
abbrev pub IsWritable : {f : Formats} → MessagePayload f → Type 0
IsWritable MessagePayload.payload_none = ⊥
IsWritable (MessagePayload.text p) = p.text ≢ []
IsWritable (MessagePayload.picture p) = Picture.IsValid p
IsWritable (MessagePayload.location p) = ⊥
IsWritable (MessagePayload.video p) = Video.IsValid p
IsWritable (MessagePayload.audio p) = Audio.IsValid p
IsWritable (MessagePayload.poll p) = ⊥
IsWritable (MessagePayload.poll_vote p) = ⊥
IsWritable (MessagePayload.file p) = ⊥
IsWritable (MessagePayload.icon p) = Icon.IsValid p
IsWritable (MessagePayload.icon_clear p) = Unit {0}
IsWritable (MessagePayload.group_text p) = (length p.group ≡ 16) × (p.payload.text ≢ [])
IsWritable (MessagePayload.group_location p) = ⊥
IsWritable (MessagePayload.group_picture p) = GroupPicture.IsValid p
IsWritable (MessagePayload.group_video p) = (length p.group ≡ 16) × (Video.IsValid p.payload)
IsWritable (MessagePayload.group_audio p) = (length p.group ≡ 16) × (Audio.IsValid p.payload)
IsWritable (MessagePayload.group_file p) = ⊥
IsWritable (MessagePayload.group_members p) = GroupMembers.IsValid p
IsWritable (MessagePayload.group_title p) = length p.group ≡ 8
IsWritable (MessagePayload.group_leave p) = length p.group ≡ 16
IsWritable (MessagePayload.group_icon p) = ⊥
IsWritable (MessagePayload.group_sync p) = length p.group ≡ 8
IsWritable (MessagePayload.group_poll p) = ⊥
IsWritable (MessagePayload.group_poll_vote p) = ⊥
IsWritable (MessagePayload.message_status p) = All IsId p.ids
IsWritable (MessagePayload.client_typing p) = Unit {0}

-- The types whose readers are modelled and take what their writers make.
abbrev pub IsRead : MessageType → Type 0
IsRead MessageType.location = ⊥
IsRead MessageType.poll = ⊥
IsRead MessageType.poll_vote = ⊥
IsRead MessageType.file = ⊥
IsRead MessageType.group_location = ⊥
IsRead MessageType.group_file = ⊥
IsRead MessageType.group_poll = ⊥
IsRead MessageType.group_poll_vote = ⊥
IsRead MessageType.group_icon = ⊥
IsRead t = Unit {0}

module _ (f : Formats) where
  typed :
      (t : MessageType) (d : List ℕ) (m : MessagePayload f)
      → IsNamed t
      → deserialize_as f t d (length d) ≡ ok m
      → deserialize f (code t ∷ d) ≡ ok m
  unfolding next_byte deserialize
  typed t d m n h =
      let e : suc (length d) - 1 ≡ length d = omega arith in rw (of_code-code t n, e) h

  -- Every payload in a format of the program's own, other than PayloadNone and a group icon, is
  -- read back from its type byte and the bytes that it is written to, if its fields fit their
  -- places; an empty text does not.
  pub deserialize-serialize_payload :
      (m : MessagePayload f)
      → IsWritable m
      → (d : List ℕ) × (serialize f m ≡ ok d) × (deserialize f (code (get_type f m) ∷ d) ≡ ok m)
  unfolding serialize get_type deserialize_as
  deserialize-serialize_payload MessagePayload.payload_none h = absurd h
  deserialize-serialize_payload (MessagePayload.text p) h =
      let (d, s, r) = Text.deserialize-serialize p h in (d, s, typed MessageType.text d _ tt (rw r))
  deserialize-serialize_payload (MessagePayload.picture p) h =
      let (d, s, r) = Picture.deserialize-serialize p h in
      (d, s, typed MessageType.picture d _ tt (rw r))
  deserialize-serialize_payload (MessagePayload.location p) h = absurd h
  deserialize-serialize_payload (MessagePayload.video p) h =
      let (d, s, r) = Video.deserialize-serialize p h in
      (d, s, typed MessageType.video d _ tt (rw r))
  deserialize-serialize_payload (MessagePayload.audio p) h =
      let (d, s, r) = Audio.deserialize-serialize p h in
      (d, s, typed MessageType.audio d _ tt (rw r))
  deserialize-serialize_payload (MessagePayload.poll p) h = absurd h
  deserialize-serialize_payload (MessagePayload.poll_vote p) h = absurd h
  deserialize-serialize_payload (MessagePayload.file p) h = absurd h
  deserialize-serialize_payload (MessagePayload.icon p) h =
      let (d, s, r) = Icon.deserialize-serialize p h in (d, s, typed MessageType.icon d _ tt (rw r))
  deserialize-serialize_payload (MessagePayload.icon_clear p) h =
      let (d, s, r) = IconClear.deserialize-serialize p in
      (d, s, typed MessageType.icon_clear d _ tt (rw r))
  deserialize-serialize_payload (MessagePayload.group_text p) h =
      let (d, s, r) = Text.deserialize-serialize p.payload h.1 in
      let (s', r') = Group.deserialize-serialize Text.deserialize Text.serialize p d h.0 s r in
      (p.group ++ d, s', typed MessageType.group_text (p.group ++ d) _ tt (rw r'))
  deserialize-serialize_payload (MessagePayload.group_location p) h = absurd h
  deserialize-serialize_payload (MessagePayload.group_picture p) h =
      let (d, s, r) = GroupPicture.deserialize-serialize p h in
      (d, s, typed MessageType.group_picture d _ tt (rw r))
  deserialize-serialize_payload (MessagePayload.group_video p) h =
      let (d, s, r) = Video.deserialize-serialize p.payload h.1 in
      let (s', r') = Group.deserialize-serialize Video.deserialize Video.serialize p d h.0 s r in
      (p.group ++ d, s', typed MessageType.group_video (p.group ++ d) _ tt (rw r'))
  deserialize-serialize_payload (MessagePayload.group_audio p) h =
      let (d, s, r) = Audio.deserialize-serialize p.payload h.1 in
      let (s', r') = Group.deserialize-serialize Audio.deserialize Audio.serialize p d h.0 s r in
      (p.group ++ d, s', typed MessageType.group_audio (p.group ++ d) _ tt (rw r'))
  deserialize-serialize_payload (MessagePayload.group_file p) h = absurd h
  deserialize-serialize_payload (MessagePayload.group_members p) h =
      let (d, s, r) = GroupMembers.deserialize-serialize p h in
      (d, s, typed MessageType.group_members d _ tt (rw r))
  deserialize-serialize_payload (MessagePayload.group_title p) h =
      let (d, s, r) = GroupTitle.deserialize-serialize p h in
      (d, s, typed MessageType.group_title d _ tt (rw r))
  deserialize-serialize_payload (MessagePayload.group_leave p) h =
      let (d, s, r) = GroupLeave.deserialize-serialize p [] h in
      (d, s, typed MessageType.group_leave d _ tt (rw (rw append-nil at r)))
  deserialize-serialize_payload (MessagePayload.group_icon p) h = absurd h
  deserialize-serialize_payload (MessagePayload.group_sync p) h =
      let (d, s, r) = GroupSync.deserialize-serialize p h in
      (d, s, typed MessageType.group_sync d _ tt (rw r))
  deserialize-serialize_payload (MessagePayload.group_poll p) h = absurd h
  deserialize-serialize_payload (MessagePayload.group_poll_vote p) h = absurd h
  deserialize-serialize_payload (MessagePayload.message_status p) h =
      let (d, s, r) = MessageStatus.deserialize-serialize p h in
      (d, s, typed MessageType.message_status d _ tt (rw r))
  deserialize-serialize_payload (MessagePayload.client_typing p) h =
      let (d, s, r) = Typing.deserialize-serialize p in
      (d, s, typed MessageType.client_typing d _ tt (rw r))

  wrap_safe :
      {P : Type 0} (make : P → MessagePayload f) (r : Result P)
      → r ≢ err out_of_bounds
      → wrap f make r ≢ err out_of_bounds
  wrap_safe make (ok p) h e = cc
  wrap_safe make (err x) h e = ground arith

  deserialize_as_safe :
      (t : MessageType) (it : List ℕ)
      → IsRead t
      → All IsByte it
      → deserialize_as f t it (length it) ≢ err out_of_bounds
  unfolding deserialize_as
  deserialize_as_safe MessageType.type_none it h b = λ e. cc
  deserialize_as_safe MessageType.text it h b = wrap_safe _ _ (Text.deserialize_safe it)
  deserialize_as_safe MessageType.picture it h b = wrap_safe _ _ (Picture.deserialize_safe it b)
  deserialize_as_safe MessageType.location it h b = absurd h
  deserialize_as_safe MessageType.video it h b = wrap_safe _ _ (Video.deserialize_safe it b)
  deserialize_as_safe MessageType.audio it h b = wrap_safe _ _ (Audio.deserialize_safe it b)
  deserialize_as_safe MessageType.poll it h b = absurd h
  deserialize_as_safe MessageType.poll_vote it h b = absurd h
  deserialize_as_safe MessageType.file it h b = absurd h
  deserialize_as_safe MessageType.icon it h b = wrap_safe _ _ (Icon.deserialize_safe it b)
  deserialize_as_safe MessageType.icon_clear it h b = wrap_safe _ _ (IconClear.deserialize_safe it)
  deserialize_as_safe MessageType.group_text it h b =
      wrap_safe _ _ (
        Group.deserialize_safe Text.deserialize Text.serialize (λ d _. Text.deserialize_safe d) it
          b)
  deserialize_as_safe MessageType.group_location it h b = absurd h
  deserialize_as_safe MessageType.group_picture it h b =
      wrap_safe _ _ (GroupPicture.deserialize_safe it b)
  deserialize_as_safe MessageType.group_video it h b =
      wrap_safe _ _
        (Group.deserialize_safe Video.deserialize Video.serialize Video.deserialize_safe it b)
  deserialize_as_safe MessageType.group_audio it h b =
      wrap_safe _ _
        (Group.deserialize_safe Audio.deserialize Audio.serialize Audio.deserialize_safe it b)
  deserialize_as_safe MessageType.group_file it h b = absurd h
  deserialize_as_safe MessageType.group_members it h b =
      wrap_safe _ _ (GroupMembers.deserialize_safe it b)
  deserialize_as_safe MessageType.group_title it h b =
      wrap_safe _ _ (GroupTitle.deserialize_safe it b)
  deserialize_as_safe MessageType.group_leave it h b =
      wrap_safe _ _ (GroupLeave.deserialize_safe it)
  deserialize_as_safe MessageType.group_icon it h b = absurd h
  deserialize_as_safe MessageType.group_sync it h b = wrap_safe _ _ (GroupSync.deserialize_safe it)
  deserialize_as_safe MessageType.group_poll it h b = absurd h
  deserialize_as_safe MessageType.group_poll_vote it h b = absurd h
  deserialize_as_safe MessageType.message_status it h b =
      wrap_safe _ _ (MessageStatus.deserialize_safe it b)
  deserialize_as_safe MessageType.client_typing it h b = wrap_safe _ _ (Typing.deserialize_safe it)
  deserialize_as_safe (MessageType.other c) it h b = λ e. cc

  -- Reading a decrypted payload of at least a byte never leaves its buffer, unless its type byte is
  -- that of a group icon or of a location, file, poll or poll vote.
  pub deserialize_payload_safe :
      (b : ℕ) (it : List ℕ)
      → IsRead (of_code b)
      → All IsByte it
      → deserialize f (b ∷ it) ≢ err out_of_bounds
  unfolding deserialize next_byte
  deserialize_payload_safe b it h v =
      let e : suc (length it) - 1 ≡ length it = omega arith in
      rw e (deserialize_as_safe (of_code b) it h v)

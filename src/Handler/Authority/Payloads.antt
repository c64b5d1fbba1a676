-- ===== src/Handler/Authority/Payloads.antt =====
-- The groups of ThreeplMessageHandler behind the switch of `recv` (src/threepl/MessageHandler.cpp).
use ceema.Prelude.{
  ℕ, inl, inr, ◌≡◌, refl, sym, ◌∙◌, Bool, true, false, none, some, List, [], ◌∷◌, ◌++◌, length,
  take-append, ◌==◌, Bool-cases, Option-cases,
}
use ceema.Prelude.Stateful.{M, bind_keeps}
use ceema.Contacts.{Fetch, fetch_contact}
use ceema.Groups.{Group, uid_cid, uid_gid, make_group_uid, set_name, set_members}
use ceema.Groups.Store.{search}
use ceema.Payload.MessageStatus.{PayloadMessageStatus, agreed, disagreed}
use ceema.Payload.Typing.{PayloadTyping}
use ceema.Payload.GroupIcon.{PayloadGroupIcon}
use ceema.Payload.Picture.{PayloadPicture}
use ceema.Payload.MessagePayload.{Formats, MessagePayload}
use ceema.Packet.Message.{Message}
use ceema.Handler.{MessageHandler, Context}
use ceema.Handler.Show.{
  on_msg_text, on_msg_location, on_msg_audio, on_msg_video, on_msg_file, on_msg_picture,
  on_msg_icon, on_msg_icon_clear, on_msg_status, on_msg_typing, on_msg_group_text,
  on_msg_group_location, on_msg_group_picture, on_msg_group_icon,
}
use ceema.Handler.Groups.{
  group_at, with_group, find_group_uid, request_sync, on_msg_group_title, on_msg_group_members,
  on_msg_group_sync, on_msg_group_leave, members_of, title_of,
}
use ceema.Handler.Receive.{in_group, in_known_group, or_sync, unsupported, on_payload}
use ceema.Handler.Sending.{request_sync-Kept, two}
use ceema.Handler.Authority.{Allowed, Follows, Follows-append, Follows-refl}
use ceema.Handler.Authority.Places.{find_uid_lem, search_owner}
use ceema.Handler.Authority.Received.{
  find_or_create_group-Found, bind-Found, with_group-Follows, with_group_last-Follows,
  on_msg_group_leave-Follows,
}

-- A statement that leaves the groups as they are.
abbrev pub Leaves : {f : Formats} {A : Type 0} → M (MessageHandler f) A → Type 0
Leaves {f} m = (h : MessageHandler f) → (m h).1.groups ≡ h.groups

-- The owner in the uid of a sender's group is the sender.
uid_cid-make_group_uid :
    (sender gid : List ℕ) → length sender ≡ 8 → uid_cid (make_group_uid sender gid) ≡ sender
unfolding uid_cid make_group_uid
uid_cid-make_group_uid sender gid e = take-append 8 sender gid e

module _ {f : Formats} where
  with_group-Leaves :
      {A : Type 0} (i : ℕ) (method : Group → M (MessageHandler f) A)
      → ((g : Group) → Leaves (method g))
      → Leaves (with_group i method)
  unfolding with_group
  with_group-Leaves i method l h = elim (Option-cases (group_at i h.groups)) [
    | inl e ↦ rw (e, with_group) refl
    | inr (g, e) ↦ rw (e, with_group) (l g h)
  ]

  on_msg_status-Leaves : (msg : Message f) (p : PayloadMessageStatus) → Leaves (on_msg_status msg p)
  unfolding on_msg_status
  on_msg_status-Leaves msg p h = elim (Bool-cases (p.status == agreed)) [
    | inl e ↦ rw (e, on_msg_status) refl
    | inr e ↦ elim (Bool-cases (p.status == disagreed)) [
      | inl e' ↦ rw (e, e', on_msg_status) refl
      | inr e' ↦ rw (e, e', on_msg_status) refl
    ]
  ]

  on_msg_typing-Leaves : (msg : Message f) (p : PayloadTyping) → Leaves (on_msg_typing msg p)
  unfolding on_msg_typing
  on_msg_typing-Leaves msg p h = elim (Bool-cases p.typing) [
    | inl e ↦ rw (e, on_msg_typing) refl
    | inr e ↦ rw (e, on_msg_typing) refl
  ]

  on_msg_group_icon-Leaves :
      (msg : Message f) (b : Bool) (g : Group) (p : PayloadGroupIcon)
      → Leaves (on_msg_group_icon msg b g p)
  unfolding on_msg_group_icon
  on_msg_group_icon-Leaves msg true g p h = refl
  on_msg_group_icon-Leaves msg false g p h = refl

  on_msg_picture-Leaves : (msg : Message f) (p : PayloadPicture) → Leaves (on_msg_picture msg p)
  unfolding on_msg_picture
  on_msg_picture-Leaves msg p h = go (fetch_contact msg.sender h.contacts) refl
    where
      go :
          (o : Fetch)
          → fetch_contact msg.sender h.contacts ≡ o
          → (on_msg_picture msg p h).1.groups ≡ h.groups
      go (Fetch.ready none) e = rw (e, on_msg_picture) refl
      go (Fetch.ready (some c)) e = rw (e, on_msg_picture) refl
      go Fetch.asked e = rw (e, on_msg_picture) refl

module _ (f : Formats) (x : Context) where
  in_group-Follows :
      (msg : Message f) (uid : List ℕ) (known : ℕ → M (MessageHandler f) Bool)
      (lost : M (MessageHandler f) Bool) (h : MessageHandler f)
      → ((i : ℕ) → Leaves (known i))
      → Leaves lost
      → Follows msg.sender h.groups (in_group f x msg uid known lost h).1.groups
  unfolding in_group
  in_group-Follows msg uid known lost h k l =
      bind-Found f x msg.sender uid h _ (find_or_create_group-Found f x uid true h)
        (λ i e. rw (k i h) (Follows-refl msg.sender h.groups))
        (bind_keeps (λ (s : MessageHandler f). Follows msg.sender h.groups s.groups) (lost h) _
          (rw (l h) (Follows-refl msg.sender h.groups))
          λ ack s w.
            bind_keeps (λ (s : MessageHandler f). Follows msg.sender h.groups s.groups)
              (request_sync f x msg uid s) _ (rw (request_sync-Kept f x msg uid s).groups w)
              λ _ s' w'. w')
        (λ g notices. rw (k (length h.groups) _) (Follows-append msg.sender h.groups (g ∷ [])))

  or_sync-Leaves : (msg : Message f) (uid : List ℕ) → Leaves (or_sync f x msg uid)
  or_sync-Leaves msg uid h =
      bind_keeps (λ (s : MessageHandler f). s.groups ≡ h.groups) (request_sync f x msg uid h) _
        (request_sync-Kept f x msg uid h).groups λ _ s w. w

  on_msg_group_sync-Leaves : (msg : Message f) (i : ℕ) → Leaves (on_msg_group_sync f x msg i)
  unfolding on_msg_group_sync
  on_msg_group_sync-Leaves msg i =
      with_group-Leaves i _
        λ g h. (two f x msg.sender (members_of f x g) (title_of f x g) h false).groups

  in_known_group-Follows :
      (msg : Message f) (uid : List ℕ) (known : ℕ → M (MessageHandler f) Bool)
      (lost : M (MessageHandler f) Bool) (h : MessageHandler f)
      → ((i : ℕ) (g : Group)
          → group_at i h.groups ≡ some g
          → g.owner ≡ uid_cid uid
          → Follows msg.sender h.groups (known i h).1.groups)
      → Leaves lost
      → Follows msg.sender h.groups (in_known_group f x uid known lost h).1.groups
  unfolding in_known_group find_group_uid
  in_known_group-Follows msg uid known lost h k l =
      elim (Option-cases (search (uid_cid uid) (uid_gid uid) h.groups)) [
        | inl e ↦
            rw (find_uid_lem uid h.groups, find_group_uid, e)
              (rw (l h) (Follows-refl msg.sender h.groups))
        | inr (i, e) ↦
            let (g, at, owned) = search_owner (uid_cid uid) (uid_gid uid) h.groups i e in
            rw (find_uid_lem uid h.groups, find_group_uid, e) (k i g at owned)
      ]

  -- What the handlers of a payload make of the groups.
  pub on_payload-Follows :
      (msg : Message f) (p : MessagePayload f) (h : MessageHandler f)
      → length msg.sender ≡ 8
      → Follows msg.sender h.groups (on_payload f x msg p h).1.groups
  unfolding on_payload on_msg_text on_msg_location on_msg_audio on_msg_video on_msg_file on_msg_icon
      on_msg_icon_clear on_msg_group_text on_msg_group_location on_msg_group_picture unsupported
      on_msg_group_title on_msg_group_members on_msg_group_sync
  on_payload-Follows msg MessagePayload.payload_none h n = Follows-refl msg.sender h.groups
  on_payload-Follows msg (MessagePayload.text p) h n = Follows-refl msg.sender h.groups
  on_payload-Follows msg (MessagePayload.picture p) h n =
      rw (on_msg_picture-Leaves msg p h) (Follows-refl msg.sender h.groups)
  on_payload-Follows msg (MessagePayload.location p) h n = Follows-refl msg.sender h.groups
  on_payload-Follows msg (MessagePayload.video p) h n = Follows-refl msg.sender h.groups
  on_payload-Follows msg (MessagePayload.audio p) h n = Follows-refl msg.sender h.groups
  on_payload-Follows msg (MessagePayload.poll p) h n = Follows-refl msg.sender h.groups
  on_payload-Follows msg (MessagePayload.poll_vote p) h n = Follows-refl msg.sender h.groups
  on_payload-Follows msg (MessagePayload.file p) h n = Follows-refl msg.sender h.groups
  on_payload-Follows msg (MessagePayload.icon p) h n = Follows-refl msg.sender h.groups
  on_payload-Follows msg (MessagePayload.icon_clear p) h n = Follows-refl msg.sender h.groups
  on_payload-Follows msg (MessagePayload.group_text p) h n =
      in_group-Follows msg p.group (λ i. with_group i (λ g. on_msg_group_text msg g p.payload))
        (on_msg_text msg p.payload) h
        (λ i. with_group-Leaves i (λ g. on_msg_group_text msg g p.payload) (λ g k. refl))
        (λ k. refl)
  on_payload-Follows msg (MessagePayload.group_location p) h n =
      in_group-Follows msg p.group (λ i. with_group i (λ g. on_msg_group_location msg g p.payload))
        (on_msg_location msg p.payload) h
        (λ i. with_group-Leaves i (λ g. on_msg_group_location msg g p.payload) (λ g k. refl))
        (λ k. refl)
  on_payload-Follows msg (MessagePayload.group_picture p) h n =
      in_group-Follows msg p.group _ (on_msg_group_picture msg p) h (λ i k. refl) (λ k. refl)
  on_payload-Follows msg (MessagePayload.group_video p) h n =
      in_group-Follows msg p.group _ (on_msg_video msg p.payload false) h (λ i k. refl) (λ k. refl)
  on_payload-Follows msg (MessagePayload.group_audio p) h n =
      in_group-Follows msg p.group _ (on_msg_audio msg p.payload false) h (λ i k. refl) (λ k. refl)
  on_payload-Follows msg (MessagePayload.group_file p) h n =
      in_group-Follows msg p.group _ (on_msg_file msg p.payload false) h (λ i k. refl) (λ k. refl)
  on_payload-Follows msg (MessagePayload.group_members p) h n =
      let uid : List ℕ = make_group_uid msg.sender p.group in
      let own : uid_cid uid ≡ msg.sender = uid_cid-make_group_uid msg.sender p.group n in
      bind-Found f x msg.sender uid h _ (find_or_create_group-Found f x uid true h)
        (λ i e.
          let (g, at, owned) = search_owner (uid_cid uid) (uid_gid uid) h.groups i e in
          with_group-Follows f x msg.sender i (set_members p.members) h g at
            (Allowed.listed (sym own ∙ sym owned) p.members))
        (Follows-refl msg.sender h.groups)
        (λ g notices. with_group_last-Follows f x msg.sender (set_members p.members) h g notices)
  on_payload-Follows msg (MessagePayload.group_title p) h n =
      let uid : List ℕ = make_group_uid msg.sender p.group in
      let own : uid_cid uid ≡ msg.sender = uid_cid-make_group_uid msg.sender p.group n in
      in_known_group-Follows msg uid (λ i. on_msg_group_title i p) (or_sync f x msg uid) h
        (λ i g at owned.
          with_group-Follows f x msg.sender i (set_name p.title) h g at
            (Allowed.named (sym own ∙ sym owned) p.title))
        (or_sync-Leaves msg uid)
  on_payload-Follows msg (MessagePayload.group_leave p) h n =
      in_known_group-Follows msg p.group (on_msg_group_leave f x msg) _ h
        (λ i g at owned. on_msg_group_leave-Follows f x msg i h g at) (λ k. refl)
  on_payload-Follows msg (MessagePayload.group_icon p) h n =
      let uid : List ℕ = make_group_uid msg.sender p.group in
      in_known_group-Follows msg uid _ (or_sync f x msg uid) h
        (λ i g at owned.
          rw
            (with_group-Leaves i
              (λ g k. on_msg_group_icon msg (x.has_chat (length k.notices) g) g p k)
              (λ g k. on_msg_group_icon-Leaves msg (x.has_chat (length k.notices) g) g p k) h)
            (Follows-refl msg.sender h.groups))
        (or_sync-Leaves msg uid)
  on_payload-Follows msg (MessagePayload.group_sync p) h n =
      let uid : List ℕ = make_group_uid msg.recipient p.group in
      bind-Found f x msg.sender uid h _ (find_or_create_group-Found f x uid false h)
        (λ i e. rw (on_msg_group_sync-Leaves msg i h) (Follows-refl msg.sender h.groups))
        (rw (or_sync-Leaves msg uid h) (Follows-refl msg.sender h.groups))
        (λ g notices.
          rw
            (on_msg_group_sync-Leaves msg (length h.groups)
              (record h { groups = h.groups ++ (g ∷ []); notices = notices }))
            (Follows-append msg.sender h.groups (g ∷ [])))
  on_payload-Follows msg (MessagePayload.group_poll p) h n = Follows-refl msg.sender h.groups
  on_payload-Follows msg (MessagePayload.group_poll_vote p) h n = Follows-refl msg.sender h.groups
  on_payload-Follows msg (MessagePayload.message_status p) h n =
      rw (on_msg_status-Leaves msg p h) (Follows-refl msg.sender h.groups)
  on_payload-Follows msg (MessagePayload.client_typing p) h n =
      rw (on_msg_typing-Leaves msg p h) (Follows-refl msg.sender h.groups)

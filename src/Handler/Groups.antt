-- ===== src/Handler/Groups.antt =====
-- What ThreeplMessageHandler does with its groups. A group is given by its place in the store.
use ceema.Prelude.{
  ℕ, zero, suc, Bool, true, false, Option, none, some, List, [], ◌∷◌, if◌then◌else◌, ok, err,
  out_of_bounds,
}
use ceema.Prelude.Stateful.{M, pure, bind, ◌>>◌}
use ceema.Groups.{Group, uid_cid, uid_gid, set_name, set_members, remove_member}
use ceema.Groups.Store.{Store, find_uid, add_group}
use ceema.Payload.GroupMembers.{PayloadGroupMembers}
use ceema.Payload.GroupTitle.{PayloadGroupTitle}
use ceema.Payload.MessagePayload.{Formats, MessagePayload}
use ceema.Packet.Message.{Message}
use ceema.Handler.{MessageHandler, Context, Notice, tell}
use ceema.Handler.Send.{is_owner, send_payload, send_group}

-- The group at a place; `none` never happens for the places that are found.
unfoldable pub group_at : ℕ → Store → Option Group
group_at i [] = none
group_at zero (group ∷ groups) = some group
group_at (suc i) (group ∷ groups) = group_at i groups

-- What a method does to the group at a place.
unfoldable pub put_group : ℕ → Group → Store → Store
put_group i g [] = []
put_group zero g (group ∷ groups) = g ∷ groups
put_group (suc i) g (group ∷ groups) = group ∷ put_group i g groups

module _ {f : Formats} where
  -- A method call on the group behind a pointer.
  unfoldable pub with_group :
      {A : Type 0} → ℕ → (Group → M (MessageHandler f) A) → M (MessageHandler f) A
  unfolding group_at
  with_group i method h = elim (group_at i h.groups) [
    | none ↦ (err out_of_bounds, h)
    | some group ↦ method group h
  ]

  -- The chat that a new group gets.
  abbrev pub chat_notices : Group → List (Notice f)
  chat_notices group =
      Notice.joined_chat group ∷ Notice.chat_updated group ∷ Notice.chat_added group ∷ []

  -- `find_group(uid)`
  unfoldable pub find_group_uid : List ℕ → M (MessageHandler f) (Option ℕ)
  unfolding find_uid
  find_group_uid uid h = (ok (find_uid uid false h.groups).0, h)

  -- The group changed, and the buddy list told.
  unfoldable pub updated : ℕ → Group → M (MessageHandler f) Bool
  unfolding put_group
  updated i group h = (
    ok false,
    tell (Notice.chat_updated group ∷ []) (record h { groups = put_group i group h.groups }),
  )

  unfoldable pub on_msg_group_title : ℕ → PayloadGroupTitle → M (MessageHandler f) Bool
  unfolding with_group updated set_name
  on_msg_group_title i payload = with_group i (λ group. updated i (set_name payload.title group))

  unfoldable pub on_msg_group_members : ℕ → PayloadGroupMembers → M (MessageHandler f) Bool
  unfolding with_group updated set_members
  on_msg_group_members i payload =
      with_group i (λ group. updated i (set_members payload.members group))

module _ (f : Formats) (x : Context) where
  -- A missing group is added, unless this client owns it.
  unfoldable pub create_group : List ℕ → Bool → M (MessageHandler f) (Option ℕ)
  unfolding is_owner add_group with_group
  create_group uid add_chat h =
      if is_owner f x uid
      then (ok none, h)
      else (let (i, groups) = add_group (uid_cid uid) (uid_gid uid) h.groups in
          let h' = record h { groups = groups } in
          if add_chat
          then with_group i (λ group. λ k. (ok (some i), tell (chat_notices group) k)) h'
          else (ok (some i), h'))

  -- `find_or_create_group`, given what `find_group` returns.
  unfoldable pub found_or_created : Option ℕ → List ℕ → Bool → M (MessageHandler f) (Option ℕ)
  unfolding create_group
  found_or_created (some i) uid add_chat h = (ok (some i), h)
  found_or_created none uid add_chat h = create_group uid add_chat h

  unfoldable pub find_or_create_group : List ℕ → Bool → M (MessageHandler f) (Option ℕ)
  unfolding found_or_created find_uid
  find_or_create_group uid add_chat h =
      found_or_created (find_uid uid false h.groups).0 uid add_chat h

  unfoldable pub request_sync : Message f → List ℕ → M (MessageHandler f) (Unit {0})
  unfolding is_owner
  request_sync msg uid = elim (is_owner f x uid) [
    | true ↦
        send_payload f x msg.sender
          (MessagePayload.group_members (record { group = uid_gid uid; members = x.self.id ∷ [] }))
        >> send_payload f x msg.sender (MessagePayload.group_leave (record { group = uid }))
        >> pure tt
    | false ↦
        send_payload f x (uid_cid uid) (MessagePayload.group_sync (record { group = uid_gid uid }))
        >> pure tt
  ]

  abbrev pub members_of : Group → MessagePayload f
  members_of group =
      MessagePayload.group_members (record { group = group.groupid; members = group.members })

  abbrev pub title_of : Group → MessagePayload f
  title_of group = MessagePayload.group_title (record { group = group.groupid; title = group.name })

  unfoldable pub on_msg_group_sync : Message f → ℕ → M (MessageHandler f) Bool
  unfolding with_group
  on_msg_group_sync msg i = with_group i (λ group.
      send_payload f x msg.sender (members_of group)
      >> send_payload f x msg.sender (title_of group)
      >> pure false)

  -- What follows `remove_member`.
  unfoldable pub member_removed : ℕ → Bool × Group → M (MessageHandler f) Bool
  unfolding put_group
  member_removed i (false, group) h = (ok false, h)
  member_removed i (true, group) h =
      bind
        (send_group f x group (members_of group) (record h { groups = put_group i group h.groups }))
        (λ _. pure false)

  unfoldable pub on_msg_group_leave : Message f → ℕ → M (MessageHandler f) Bool
  unfolding with_group member_removed remove_member
  on_msg_group_leave msg i =
      with_group i (λ group. member_removed i (remove_member msg.sender group))

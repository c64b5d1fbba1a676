-- ===== src/Handler/Authority/Received.antt =====
-- The groups of ThreeplMessageHandler behind `find_or_create_group` and its handlers of members, titles
-- and leaves (src/threepl/MessageHandler.cpp).
use ceema.Prelude.{
  ℕ, ◌+◌, inl, inr, ◌≡◌, refl, Bool, true, false, Option, none, some, List, [], ◌∷◌, ◌++◌, length,
  Result, ok, Bool-cases, if◌then◌else◌,
}
use ceema.Prelude.Stateful.{M, bind, bind_keeps}
use ceema.Groups.{Group, new_group, uid_cid, uid_gid, is_member, erase, remove_member}
use ceema.Groups.Store.{search, add_group}
use ceema.Payload.MessagePayload.{Formats}
use ceema.Packet.Message.{Message}
use ceema.Handler.{MessageHandler, Context, Notice, tell}
use ceema.Handler.Send.{is_owner, send_group}
use ceema.Handler.Groups.{
  group_at, put_group, with_group, chat_notices, create_group, found_or_created,
  find_or_create_group, updated, member_removed, on_msg_group_leave, members_of,
}
use ceema.Handler.Sending.{Kept, send_members-Kept}
use ceema.Handler.Authority.{Allowed, Follows, Follows-append, Follows-refl, Follows-put_group}
use ceema.Handler.Authority.Places.{find_uid_lem, group_at_last, put_group_last}

-- How `find_or_create_group` ends.
pub data Found {f : Formats} (uid : List ℕ) (h : MessageHandler f)
    : Result (Option ℕ) × MessageHandler f → Type 0 where
  present :
      (i : ℕ) → search (uid_cid uid) (uid_gid uid) h.groups ≡ some i → Found uid h (ok (some i), h)
  lost : Found uid h (ok none, h)
  created :
      (g : Group) (notices : List (Notice f))
      → Found uid h (
        ok (some (length h.groups)),
        record h { groups = h.groups ++ (g ∷ []); notices = notices },
      )

module _ (f : Formats) (x : Context) where
  create_group-Found :
      (uid : List ℕ) (add_chat : Bool) (h : MessageHandler f)
      → Found uid h (create_group f x uid add_chat h)
  unfolding create_group add_group with_group new_group
  create_group-Found uid add_chat h = elim (Bool-cases (is_owner f x uid)) [
    | inl e ↦ rw (e, create_group) Found.lost
    | inr e ↦ rw (e, create_group) (go add_chat)
  ]
    where
      g : Group
      g = new_group (uid_cid uid) (uid_gid uid) (length h.groups + 1)

      added : MessageHandler f
      added = record h { groups = h.groups ++ (g ∷ []) }

      show : Group → M (MessageHandler f) (Option ℕ)
      show group k = (ok (some (length h.groups)), tell (chat_notices group) k)

      go :
          (b : Bool)
          → Found uid h (
              if◌then◌else◌ {A = Result (Option ℕ) × MessageHandler f} b
                (with_group (length h.groups) show added)
                (ok (some (length h.groups)), added))
      go true = rw (group_at_last h.groups g, with_group) (Found.created g _)
      go false = Found.created g h.notices

  pub find_or_create_group-Found :
      (uid : List ℕ) (add_chat : Bool) (h : MessageHandler f)
      → Found uid h (find_or_create_group f x uid add_chat h)
  unfolding find_or_create_group found_or_created
  find_or_create_group-Found uid add_chat h =
      rw (find_uid_lem uid h.groups, find_or_create_group)
        (go (search (uid_cid uid) (uid_gid uid) h.groups) refl)
    where
      go :
          (o : Option ℕ)
          → search (uid_cid uid) (uid_gid uid) h.groups ≡ o
          → Found uid h (found_or_created f x o uid add_chat h)
      go (some i) e = Found.present i e
      go none e = create_group-Found uid add_chat h

  -- The three ways on from there.
  pub bind-Found :
      (sender uid : List ℕ) {A : Type 0} (h : MessageHandler f)
      (k : Option ℕ → M (MessageHandler f) A) {r : Result (Option ℕ) × MessageHandler f}
      → Found uid h r
      → ((i : ℕ)
          → search (uid_cid uid) (uid_gid uid) h.groups ≡ some i
          → Follows sender h.groups (k (some i) h).1.groups)
      → Follows sender h.groups (k none h).1.groups
      → ((g : Group) (notices : List (Notice f))
          → Follows sender h.groups
              (k
                (some (length h.groups))
                (record h { groups = h.groups ++ (g ∷ []); notices = notices })).1.groups)
      → Follows sender h.groups (bind r k).1.groups
  bind-Found sender uid h k (Found.present i e) p q r = p i e
  bind-Found sender uid h k Found.lost p q r = q
  bind-Found sender uid h k (Found.created g notices) p q r = r g notices

  -- A change of the group at a place, which the buddy list is told of.
  pub with_group-Follows :
      (sender : List ℕ) (i : ℕ) (change : Group → Group) (h : MessageHandler f) (g : Group)
      → group_at i h.groups ≡ some g
      → Allowed sender g (change g)
      → Follows sender h.groups (with_group i (λ group. updated i (change group)) h).1.groups
  unfolding with_group updated
  with_group-Follows sender i change h g e a =
      rw (e, with_group) (Follows-put_group sender i g (change g) h.groups e a)

  -- The same for the group behind the others.
  pub with_group_last-Follows :
      (sender : List ℕ) (change : Group → Group) (h : MessageHandler f) (g : Group)
      (notices : List (Notice f))
      → Follows sender h.groups
          (with_group
            (length h.groups)
            (λ group. updated (length h.groups) (change group))
            (record h { groups = h.groups ++ (g ∷ []); notices = notices })).1.groups
  unfolding with_group updated
  with_group_last-Follows sender change h g notices =
      rw (group_at_last h.groups g, with_group, put_group_last h.groups g (change g))
        (Follows-append sender h.groups (change g ∷ []))

  -- A leave takes the sender out, and tells the others.
  pub on_msg_group_leave-Follows :
      (msg : Message f) (i : ℕ) (h : MessageHandler f) (g : Group)
      → group_at i h.groups ≡ some g
      → Follows msg.sender h.groups (on_msg_group_leave f x msg i h).1.groups
  unfolding on_msg_group_leave with_group member_removed remove_member send_group
  on_msg_group_leave-Follows msg i h g e = elim (Bool-cases (is_member msg.sender g.members)) [
    | inl q ↦
        let g' : Group = record g { members = erase msg.sender g.members } in
        let h' : MessageHandler f = record h { groups = put_group i g' h.groups } in
        let k : Kept h' (send_group f x g' (members_of f x g') h').1 =
          send_members-Kept f x g'.members (members_of f x g') h' in
        rw (e, with_group, q, remove_member)
          (bind_keeps (λ (s : MessageHandler f). Follows msg.sender h.groups s.groups)
            (send_group f x g' (members_of f x g') h') _
            (rw k.groups (Follows-put_group msg.sender i g g' h.groups e Allowed.left)) λ _ s w. w)
    | inr q ↦ rw (e, with_group, q, remove_member) (Follows-refl msg.sender h.groups)
  ]

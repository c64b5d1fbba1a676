-- ===== src/Groups.antt =====
-- ThreeplGroup (src/threepl/GroupStore.h and GroupStore.cpp) without its conversations and chats, and
-- the identifiers that it uses (src/protocol/data). A text is the list of its bytes.
pub mod Members
pub mod Store
pub mod Unique
pub mod Names
use ceema.Prelude.{
  ℕ, ◌+◌, ◌-◌, Bool, true, false, not, ◌&&◌, List, [], ◌∷◌, ◌++◌, map, ltb, leb, ◌==◌,
  if◌then◌else◌, length, list_eq, take, drop, Result, ok, err, runtime_error, throw_if, ◌>>=◌, ◌>>◌,
}
use ceema.Encoding.Hex.{hex_encode}

-- `toupper` of the C locale.
abbrev pub toupper : ℕ → ℕ
toupper ch = if leb 0x61 ch && leb ch 0x7a then ch - 32 else ch

-- `client_id::fromString`
unfoldable pub from_string : List ℕ → Result (List ℕ)
from_string str = throw_if (not (length str == 8)) runtime_error >> ok (map toupper str)

unfoldable pub make_group_uid : List ℕ → List ℕ → List ℕ
make_group_uid cid gid = cid ++ gid

-- `group_uid::cid` and `group_uid::gid`
unfoldable pub uid_cid : List ℕ → List ℕ
uid_cid uid = take 8 uid

unfoldable pub uid_gid : List ℕ → List ℕ
uid_gid uid = take 8 (drop 8 uid)

pub record Group : Type 0 where
  pub owner : List ℕ
  pub groupid : List ℕ
  pub groupuid : List ℕ
  pub name : List ℕ
  pub members : List (List ℕ)
  pub id : ℕ

-- " owned by "
abbrev pub owned_by : List ℕ
owned_by = 0x20 ∷ 0x6f ∷ 0x77 ∷ 0x6e ∷ 0x65 ∷ 0x64 ∷ 0x20 ∷ 0x62 ∷ 0x79 ∷ 0x20 ∷ []

unfoldable pub default_name : List ℕ → List ℕ → List ℕ
default_name owner gid = (hex_encode gid ++ owned_by) ++ owner

-- The constructor: the owner is the first member.
unfoldable pub new_group : List ℕ → List ℕ → ℕ → Group
unfolding make_group_uid default_name
new_group owner gid id = record {
  owner = owner;
  groupid = gid;
  groupuid = make_group_uid owner gid;
  name = default_name owner gid;
  members = owner ∷ [];
  id = id;
}

unfoldable pub set_name : List ℕ → Group → Group
unfolding default_name
set_name [] group = record group { name = default_name group.owner group.groupid }
set_name (ch ∷ name) group = record group { name = ch ∷ name }

-- `chat_name(gid, cid)`
unfoldable pub chat_name : List ℕ → List ℕ → List ℕ
chat_name gid cid = hex_encode gid ++ (0x40 ∷ cid)

-- Whether a loop over the members meets one.
unfoldable pub is_member : List ℕ → List (List ℕ) → Bool
is_member member [] = false
is_member member (cid ∷ members) =
    let rest = is_member member members in if list_eq cid member then true else rest

-- `add_member`, with whether it was new.
unfoldable pub add_member : List ℕ → Group → Bool × Group
unfolding is_member
add_member member group =
    if is_member member group.members
    then (false, group)
    else (true, record group { members = group.members ++ (member ∷ []) })

-- `m_members.erase(iter)`, at the first that is equal.
unfoldable pub erase : List ℕ → List (List ℕ) → List (List ℕ)
erase member [] = []
erase member (cid ∷ members) =
    let rest = erase member members in if list_eq cid member then members else cid ∷ rest

unfoldable pub remove_member : List ℕ → Group → Bool × Group
unfolding is_member erase
remove_member member group =
    if is_member member group.members
    then (true, record group { members = erase member group.members })
    else (false, group)

unfoldable pub set_members : List (List ℕ) → Group → Group
set_members members group = record group { members = members }

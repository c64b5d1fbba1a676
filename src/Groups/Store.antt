-- ===== src/Groups/Store.antt =====
-- GroupStore of src/threepl/GroupStore.h and GroupStore.cpp: the vector of groups. A pointer to a group
-- is its place in the vector; only `add_group` changes the places, and it adds at the end.
use ceema.Prelude.{
  ℕ, zero, suc, ◌+◌, ◌%◌, ◌/◌, Bool, true, not, ◌&&◌, Option, none, some, List, [], ◌∷◌, ◌++◌, ◌==◌,
  if◌then◌else◌, length, list_eq, take, drop, Result, ok, runtime_error, throw_if, ◌>>=◌, ◌>>◌,
}
use ceema.Encoding.Hex.{hex_decode}
use ceema.Groups.{Group, new_group, set_name, add_member, from_string, uid_cid, uid_gid}

abbrev pub Store : Type 0
Store = List Group

abbrev pub shift : Option ℕ → Option ℕ
shift none = none
shift (some i) = some (suc i)

abbrev pub is_group : List ℕ → List ℕ → Group → Bool
is_group owner gid group = list_eq group.groupid gid && list_eq group.owner owner

-- The loop of `find_group(owner, gid, …)`.
unfoldable pub search : List ℕ → List ℕ → Store → Option ℕ
search owner gid [] = none
search owner gid (group ∷ groups) =
    let rest = search owner gid groups in if is_group owner gid group then some 0 else shift rest

-- `add_group(owner, id)`
unfoldable pub add_group : List ℕ → List ℕ → Store → ℕ × Store
unfolding new_group
add_group owner gid groups =
    (length groups, groups ++ (new_group owner gid (length groups + 1) ∷ []))

-- `find_group(owner, gid, add_if_new)`; `none` is the null pointer.
unfoldable pub find_group : List ℕ → List ℕ → Bool → Store → Option ℕ × Store
unfolding search add_group
find_group owner gid add_if_new groups = elim (search owner gid groups) [
  | some i ↦ (some i, groups)
  | none ↦
      if add_if_new
      then (some (add_group owner gid groups).0, (add_group owner gid groups).1)
      else (none, groups)
]

-- `find_group(uid, add_if_new)`
unfoldable pub find_uid : List ℕ → Bool → Store → Option ℕ × Store
unfolding find_group uid_cid uid_gid
find_uid uid add_if_new groups = find_group (uid_cid uid) (uid_gid uid) add_if_new groups

-- `find_group(id)`
unfoldable pub find_id : ℕ → Store → Option ℕ
find_id id [] = none
find_id id (group ∷ groups) =
    let rest = find_id id groups in if group.id == id then some 0 else shift rest

-- `hex_decode(text, gid)`, which refuses a text that does not fill the array.
unfoldable pub decode_gid : List ℕ → Result (List ℕ)
decode_gid text = do
  throw_if (not (length text % 2 == 0)) runtime_error
  throw_if (not (length text == 16)) runtime_error
  hex_decode text

-- `find_or_create`, given the strings of the components. These are C strings, here without the NUL byte
-- that ends them.
unfoldable pub find_or_create : List ℕ → List ℕ → Store → Result (Option ℕ × Store)
unfolding find_group from_string decode_gid
find_or_create owner id groups = do
  owner_id ← from_string owner
  gid ← decode_gid id
  ok (find_group owner_id gid true groups)

-- A chat of the account in the buddy list; `members` and `name` are the strings that are stored with
-- it, if any.
pub record Chat : Type 0 where
  pub id : List ℕ
  pub owner : List ℕ
  pub members : Option (List ℕ)
  pub name : Option (List ℕ)

abbrev pub named : Option (List ℕ) → Group → Group
named none group = group
named (some name) group = if length name == 0 then group else set_name name group

-- The loop over a string of members, of 8 bytes each.
unfoldable pub add_members : ℕ → List ℕ → Group → Result Group
unfolding from_string add_member
add_members zero text group = ok group
add_members (suc count) text group = do
  member ← from_string (take 8 text)
  add_members count (drop 8 text) (add_member member group).1

unfoldable pub with_members : Option (List ℕ) → Group → Result Group
unfolding add_members
with_members none group = ok group
with_members (some text) group =
    if length text % 8 == 0 then add_members (length text / 8) text group else ok group

-- `load_chats`, given the chats of the account. An exception in the middle leaves the groups before,
-- and the new one with the members before, in the store; what it leaves is not kept here.
unfoldable pub load_chats : List Chat → Store → Result Store
unfolding decode_gid from_string new_group with_members
load_chats [] groups = ok groups
load_chats (chat ∷ chats) groups = do
  gid ← decode_gid chat.id
  owner_id ← from_string chat.owner
  group ← with_members chat.members (named chat.name (new_group owner_id gid (length groups + 1)))
  load_chats chats (groups ++ (group ∷ []))

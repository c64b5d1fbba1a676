-- ===== src/Tests/Groups.antt =====
-- Runs of the groups of the plugin, and their theorems at concrete inputs.
use ceema.Prelude.{
  arith, ℕ, ◌+◌, ◌≡◌, ◌⊎◌, refl, List, [], ◌∷◌, ◌++◌, length, replicate, Bool, true, not, ◌&&◌,
  ◌||◌, list_eq, some, none, ok, runtime_error, err,
}
use ceema.Groups.{
  Group, new_group, make_group_uid, is_member, add_member, remove_member, from_string,
}
use ceema.Groups.Members.{Distinct, members_refine}
use ceema.Groups.Store.{
  Store, Chat, find_group, find_uid, find_or_create, search, find_id, load_chats,
}
use ceema.Groups.Unique.{IsKept, find_group_finds}
use ceema.Encoding.Hex.{hex_encode, hex_decode}
use ceema.Groups.Names.{find_or_create-hex_encode}
use ceema.Tests.Setup.{alice_id, bob_id}

-- A client id is made upper case, and refused if it has another length than eight.
from_string_run : from_string (0x2a ∷ replicate 7 0x61) ≡ ok (0x2a ∷ replicate 7 0x41)
unfolding from_string
from_string_run = refl

from_string_short : from_string (replicate 7 0x61) ≡ err runtime_error
unfolding from_string
from_string_short = refl

abbrev pair : Group
pair = record {
  owner = alice_id;
  groupid = replicate 8 1;
  groupuid = alice_id ++ replicate 8 1;
  name = [];
  members = alice_id ∷ bob_id ∷ [];
  id = 1;
}

pair-Distinct : Distinct (alice_id ∷ bob_id ∷ [])
unfolding is_member
pair-Distinct = (refl, (refl, tt))

members_refine_example :
    (Distinct (add_member bob_id pair).1.members
      × ((add_member bob_id pair).0 ≡ not (is_member bob_id pair.members))
      × ((m : List ℕ)
          → is_member m (add_member bob_id pair).1.members
            ≡ (list_eq bob_id m || is_member m pair.members)))
    × (Distinct (remove_member bob_id pair).1.members
        × ((remove_member bob_id pair).0 ≡ is_member bob_id pair.members)
        × ((m : List ℕ)
            → is_member m (remove_member bob_id pair).1.members
              ≡ (not (list_eq bob_id m) && is_member m pair.members)))
members_refine_example = members_refine bob_id pair pair-Distinct

one_group-IsKept : IsKept (pair ∷ [])
unfolding search
one_group-IsKept = ((refl, tt), (refl, tt))

find_group_finds_example :
    (i : ℕ) × (groups' : Store) × (find_group bob_id (replicate 8 1) true (pair ∷ [])
      ≡ (some i, groups'))
    × ((b : Bool) → find_group bob_id (replicate 8 1) b groups' ≡ (some i, groups'))
    × (find_id (1 + i) groups' ≡ some i)
    × ((groups' ≡ pair ∷ [])
        ⊎ (groups'
            ≡ (pair ∷ []) ++ (new_group bob_id (replicate 8 1) (length (pair ∷ []) + 1) ∷ [])))
find_group_finds_example = find_group_finds bob_id (replicate 8 1) (pair ∷ []) one_group-IsKept

-- A chat that the buddy list holds twice is loaded as two groups.
abbrev chat : Chat
chat = record {
  id = replicate 16 0x30;
  owner = replicate 8 0x41;
  members = some (replicate 8 0x42);
  name = none;
}

load_chats_twice :
    load_chats (chat ∷ chat ∷ []) []
    ≡ ok (
        record (new_group alice_id (replicate 8 0) 1) { members = alice_id ∷ bob_id ∷ [] }
        ∷ record (new_group alice_id (replicate 8 0) 2) { members = alice_id ∷ bob_id ∷ [] }
        ∷ [])
unfolding load_chats new_group hex_decode
load_chats_twice = refl

find_or_create-hex_encode_example :
    (find_uid (make_group_uid alice_id (replicate 8 1)) true []
      ≡ find_group alice_id (replicate 8 1) true [])
    × (find_or_create alice_id (hex_encode (replicate 8 1)) []
        ≡ ok (find_group alice_id (replicate 8 1) true []))
find_or_create-hex_encode_example =
    find_or_create-hex_encode alice_id (replicate 8 1) true [] refl refl
      (
        omega arith,
        (
          omega arith,
          (
            omega arith,
            (omega arith, (omega arith, (omega arith, (omega arith, (omega arith, tt))))),
          ),
        ),
      )
      refl

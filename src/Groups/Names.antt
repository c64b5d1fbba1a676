-- ===== src/Groups/Names.antt =====
-- The three names of a group (src/protocol/data/Group.h and src/threepl/GroupStore.cpp): its owner and
-- id, its uid, and the strings that the buddy list keeps.
use ceema.Prelude.{
  ℕ, ◌≡◌, refl, Bool, true, List, map, length, take-append, drop-append, take_all, All, arith, ok,
}
use ceema.Types.Bytes.{IsByte}
use ceema.Encoding.Hex.{hex_encode, hex_decode-hex_encode, length-hex_encode}
use ceema.Groups.{toupper, from_string, make_group_uid, uid_cid, uid_gid}
use ceema.Groups.Store.{Store, find_group, find_uid, decode_gid, find_or_create}

decode_gid-hex_encode :
    (gid : List ℕ) → All IsByte gid → length gid ≡ 8 → decode_gid (hex_encode gid) ≡ ok gid
unfolding decode_gid
decode_gid-hex_encode gid h e =
    let n : length (hex_encode gid) ≡ 16 = omega (arith, length-hex_encode gid) in
    rw n (hex_decode-hex_encode gid h (omega arith))

uid_cid-make_group_uid :
    (cid gid : List ℕ) → length cid ≡ 8 → uid_cid (make_group_uid cid gid) ≡ cid
unfolding uid_cid make_group_uid
uid_cid-make_group_uid cid gid e = take-append 8 cid gid e

uid_gid-make_group_uid :
    (cid gid : List ℕ) → length cid ≡ 8 → length gid ≡ 8 → uid_gid (make_group_uid cid gid) ≡ gid
unfolding uid_gid make_group_uid
uid_gid-make_group_uid cid gid e h = rw (drop-append 8 cid gid e) (take_all 8 gid (omega arith))

-- Looking for a group by its uid, or by the strings that the buddy list keeps of it, is looking for
-- it by its owner and id, where both have 8 bytes and the owner is in upper case.
pub find_or_create-hex_encode :
    (owner gid : List ℕ) (add_if_new : Bool) (groups : Store)
    → length owner ≡ 8
    → map toupper owner ≡ owner
    → All IsByte gid
    → length gid ≡ 8
    → (find_uid (make_group_uid owner gid) add_if_new groups
        ≡ find_group owner gid add_if_new groups)
      × (find_or_create owner (hex_encode gid) groups ≡ ok (find_group owner gid true groups))
unfolding find_uid find_or_create from_string
find_or_create-hex_encode owner gid b groups e u h k = (
  rw (uid_cid-make_group_uid owner gid e, uid_gid-make_group_uid owner gid e k) refl,
  rw (e, u, decode_gid-hex_encode gid h k) refl,
)

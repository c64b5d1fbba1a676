-- ===== src/Handler/Authority.antt =====
-- What a message may make of the groups of ThreeplMessageHandler
-- (src/threepl/MessageHandler.cpp), as a relation on the vector of groups.
pub mod Places
pub mod Received
pub mod Payloads
pub mod Recv
use ceema.Prelude.{
  ℕ, zero, suc, ◌+◌, inl, inr, ◌⊎◌, ◌≡◌, refl, ap, sym, ◌∙◌, Bool, true, false, Option, none, some,
  List, [], ◌∷◌, ◌++◌, list_eq, list_eq→eq, length, Result, Error, ok, err, arith, Bool-cases,
  Option-cases, if◌then◌else◌,
}
use ceema.Groups.{Group, new_group, set_name, set_members, erase, uid_cid, uid_gid}
use ceema.Groups.Store.{Store, shift, is_group, search, add_group, find_group, find_uid}
use ceema.Handler.Groups.{group_at, put_group}

-- What a sender's message makes of a group.
pub data Allowed (sender : List ℕ) (g : Group) : Group → Type 0 where
  same : Allowed sender g g
  named : sender ≡ g.owner → (name : List ℕ) → Allowed sender g (set_name name g)
  listed : sender ≡ g.owner → (members : List (List ℕ)) → Allowed sender g (set_members members g)
  left : Allowed sender g (record g { members = erase sender g.members })

-- Every group is what the sender may make of it, and others may follow behind.
abbrev pub Follows : List ℕ → Store → Store → Type 0
Follows sender [] groups' = Unit {0}
Follows sender (g ∷ groups) [] = ⊥
Follows sender (g ∷ groups) (g' ∷ groups') = Allowed sender g g' × Follows sender groups groups'

module _ (sender : List ℕ) where
  pub Follows-append : (groups more : Store) → Follows sender groups (groups ++ more)
  Follows-append [] more = tt
  Follows-append (g ∷ groups) more = (Allowed.same, Follows-append groups more)

  pub Follows-refl : (groups : Store) → Follows sender groups groups
  Follows-refl [] = tt
  Follows-refl (g ∷ groups) = (Allowed.same, Follows-refl groups)

  pub Follows-put_group :
      (i : ℕ) (g g' : Group) (groups : Store)
      → group_at i groups ≡ some g
      → Allowed sender g g'
      → Follows sender groups (put_group i g' groups)
  unfolding group_at put_group
  Follows-put_group i g g' [] e a = tt
  Follows-put_group zero g g' (k ∷ groups) e a =
      let w : k ≡ g = ground arith in (rw w a, Follows-refl groups)
  Follows-put_group (suc i) g g' (k ∷ groups) e a =
      (Allowed.same, Follows-put_group i g g' groups e a)

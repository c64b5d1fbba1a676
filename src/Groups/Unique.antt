-- ===== src/Groups/Unique.antt =====
-- GroupStore::find_group (src/threepl/GroupStore.h): a group is found by its owner and id and by its
-- number, and is added once.
use ceema.Prelude.{
  ℕ, zero, suc, ◌+◌, ◌<◌, ◌≡◌, ◌⊎◌, refl, ap, ◌∙◌, inl, inr, Bool, true, false, Option, none, some,
  if◌then◌else◌, Option-cases, List, [], ◌∷◌, ◌++◌, length, length-append, ◌==◌, list_eq_self,
  list_eq_comm, Bool-cases, arith,
}
use ceema.Groups.{Group, new_group}
use ceema.Groups.Store.{Store, shift, is_group, search, add_group, find_group, find_id}

-- The groups count up from a number.
abbrev pub NumberedFrom : ℕ → Store → Type 0
NumberedFrom n [] = Unit {0}
NumberedFrom n (group ∷ groups) = (group.id ≡ n) × NumberedFrom (suc n) groups

-- No two groups have the same owner and id.
abbrev pub Apart : Store → Type 0
Apart [] = Unit {0}
Apart (group ∷ groups) = (search group.owner group.groupid groups ≡ none) × Apart groups

-- What `add_group` keeps if the group is new.
abbrev pub IsKept : Store → Type 0
IsKept groups = NumberedFrom 1 groups × Apart groups

shift-none : (o : Option ℕ) → shift o ≡ none → o ≡ none
shift-none none e = refl
shift-none (some i) e = absurd (ground arith)

is_group-new : (owner gid : List ℕ) (id : ℕ) → is_group owner gid (new_group owner gid id) ≡ true
unfolding new_group
is_group-new owner gid id = rw (list_eq_self gid, list_eq_self owner) refl

search-append :
    (owner gid : List ℕ) (groups : Store) (group : Group)
    → search owner gid groups ≡ none
    → is_group owner gid group ≡ true
    → search owner gid (groups ++ (group ∷ [])) ≡ some (length groups)
unfolding search
search-append owner gid [] group h e = rw e refl
search-append owner gid (g ∷ groups) group h e = elim (Bool-cases (is_group owner gid g)) [
  | inl q ↦ absurd (let w : some 0 ≡ none = rw q at h in ground arith)
  | inr q ↦
      let w : search owner gid groups ≡ none = shift-none (search owner gid groups) (rw q at h) in
      rw (q, search-append owner gid groups group w e) refl
]

search-append_other :
    (owner gid : List ℕ) (groups : Store) (group : Group)
    → search owner gid groups ≡ none
    → is_group owner gid group ≡ false
    → search owner gid (groups ++ (group ∷ [])) ≡ none
unfolding search
search-append_other owner gid [] group h e = rw e refl
search-append_other owner gid (g ∷ groups) group h e = elim (Bool-cases (is_group owner gid g)) [
  | inl q ↦ absurd (let w : some 0 ≡ none = rw q at h in ground arith)
  | inr q ↦
      let w : search owner gid groups ≡ none = shift-none (search owner gid groups) (rw q at h) in
      rw (q, search-append_other owner gid groups group w e) refl
]

NumberedFrom-append :
    (n : ℕ) (groups : Store) (group : Group)
    → NumberedFrom n groups
    → group.id ≡ n + length groups
    → NumberedFrom n (groups ++ (group ∷ []))
NumberedFrom-append n [] group h e = (omega arith, tt)
NumberedFrom-append n (g ∷ groups) group (p, h) e =
    (p, NumberedFrom-append (suc n) groups group h (omega arith))

find_id-NumberedFrom :
    (n i : ℕ) (groups : Store)
    → NumberedFrom n groups
    → i < length groups
    → find_id (n + i) groups ≡ some i
unfolding find_id
find_id-NumberedFrom n i [] h k = absurd (omega arith)
find_id-NumberedFrom n zero (g ∷ groups) (p, h) k =
    let w : (g.id == n + 0) ≡ true = ground arith in rw w refl
find_id-NumberedFrom n (suc i) (g ∷ groups) (p, h) k =
    let w : (g.id == n + suc i) ≡ false = ground arith in
    let e : n + suc i ≡ suc n + i = omega arith in
    rw w (
      ap (λ m. shift (find_id m groups)) e
      ∙ ap shift (find_id-NumberedFrom (suc n) i groups h (omega arith)))

search-lt :
    (owner gid : List ℕ) (groups : Store) (i : ℕ)
    → search owner gid groups ≡ some i
    → i < length groups
unfolding search
search-lt owner gid [] i e = absurd (ground arith)
search-lt owner gid (g ∷ groups) i e = elim (Bool-cases (is_group owner gid g)) [
  | inl q ↦ let w : some 0 ≡ some i = rw q at e in ground arith
  | inr q ↦ elim (Option-cases (search owner gid groups)) [
    | inl r ↦ absurd (let w : none ≡ some i = rw (q, r) at e in ground arith)
    | inr (j, r) ↦
        let w : some (suc j) ≡ some i = rw (q, r) at e in
        let k = search-lt owner gid groups j r in ground arith
  ]
]

is_group-other :
    (owner gid : List ℕ) (g : Group) (id : ℕ)
    → is_group owner gid g ≡ false
    → is_group g.owner g.groupid (new_group owner gid id) ≡ false
unfolding new_group
is_group-other owner gid g id e = rw (list_eq_comm gid g.groupid, list_eq_comm owner g.owner) e

Apart-append :
    (owner gid : List ℕ) (id : ℕ) (groups : Store)
    → Apart groups
    → search owner gid groups ≡ none
    → Apart (groups ++ (new_group owner gid id ∷ []))
unfolding search
Apart-append owner gid id [] a h = (refl, tt)
Apart-append owner gid id (g ∷ groups) (n, a) h = elim (Bool-cases (is_group owner gid g)) [
  | inl q ↦ absurd (let w : some 0 ≡ none = rw q at h in ground arith)
  | inr q ↦
      let w : search owner gid groups ≡ none = shift-none (search owner gid groups) (rw q at h) in
      (
        search-append_other g.owner g.groupid groups (new_group owner gid id) n
            (is_group-other owner gid g id q),
        Apart-append owner gid id groups a w,
      )
]

add_group-IsKept :
    (owner gid : List ℕ) (groups : Store)
    → IsKept groups
    → search owner gid groups ≡ none
    → IsKept (add_group owner gid groups).1
unfolding add_group
add_group-IsKept owner gid groups (p, a) h = (
  NumberedFrom-append 1 groups (new_group owner gid (length groups + 1)) p
      (unfold new_group in omega arith),
  Apart-append owner gid (length groups + 1) groups a h,
)

-- Looking for a group, whether it is then added or not, keeps a store whose groups count up from
-- one and differ in owner or id such a store.
find_group-IsKept :
    (owner gid : List ℕ) (add_if_new : Bool) (groups : Store)
    → IsKept groups
    → IsKept (find_group owner gid add_if_new groups).1
unfolding find_group
find_group-IsKept owner gid b groups h = elim (Option-cases (search owner gid groups)) [
  | inl e ↦ rw (e, find_group) (go b (add_group-IsKept owner gid groups h e))
  | inr (i, e) ↦ rw (e, find_group) h
]
  where
    go :
        (b : Bool)
        → IsKept (add_group owner gid groups).1
        → IsKept
            (if◌then◌else◌ {A = Option ℕ × Store} b
              (some (add_group owner gid groups).0, (add_group owner gid groups).1)
              (none, groups)).1
    go true x = x
    go false x = h

found :
    (owner gid : List ℕ) (b : Bool) (groups : Store) (i : ℕ)
    → search owner gid groups ≡ some i
    → find_group owner gid b groups ≡ (some i, groups)
unfolding find_group
found owner gid b groups i e = rw (e, find_group) refl

-- Asked to add a missing group, a store whose groups count up from one and differ in owner or id
-- gives a place where the same owner and id, whether asked to add or not, and the number of that
-- place, are found again; it keeps its groups, and adds at most the one that it was asked for.
pub find_group_finds :
    (owner gid : List ℕ) (groups : Store)
    → IsKept groups
    → (i : ℕ) × (groups' : Store) × (find_group owner gid true groups ≡ (some i, groups'))
      × ((b : Bool) → find_group owner gid b groups' ≡ (some i, groups'))
      × (find_id (1 + i) groups' ≡ some i)
      × ((groups' ≡ groups) ⊎ (groups' ≡ groups ++ (new_group owner gid (length groups + 1) ∷ [])))
unfolding find_group add_group
find_group_finds owner gid groups h = elim (Option-cases (search owner gid groups)) [
  | inl e ↦
      let group : Group = new_group owner gid (length groups + 1) in
      let k : IsKept (groups ++ (group ∷ [])) = add_group-IsKept owner gid groups h e in
      (
        length groups,
        groups ++ (group ∷ []),
        rw (e, find_group) refl,
        λ b.
            found owner gid b (groups ++ (group ∷ [])) (length groups)
              (search-append owner gid groups group e (is_group-new owner gid (length groups + 1))),
        find_id-NumberedFrom 1 (length groups) (groups ++ (group ∷ [])) k.0
            (omega (arith, length-append groups (group ∷ []))),
        inr refl,
      )
  | inr (i, e) ↦ (
    i,
    groups,
    found owner gid true groups i e,
    λ b. found owner gid b groups i e,
    find_id-NumberedFrom 1 i groups h.0 (search-lt owner gid groups i e),
    inl refl,
  )
]

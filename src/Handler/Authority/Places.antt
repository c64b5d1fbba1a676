-- ===== src/Handler/Authority/Places.antt =====
-- The places of groups in the store of ThreeplMessageHandler.
use ceema.Prelude.{
  ℕ, suc, inl, inr, ◌≡◌, refl, ap, sym, false, Option, none, some, List, [], ◌∷◌, ◌++◌, list_eq→eq,
  length, arith, Bool-cases, Option-cases,
}
use ceema.Groups.{Group, uid_cid, uid_gid}
use ceema.Groups.Store.{Store, is_group, search, find_group, find_uid}
use ceema.Handler.Groups.{group_at, put_group}

pub find_uid_lem :
    (uid : List ℕ) (groups : Store)
    → (find_uid uid false groups).0 ≡ search (uid_cid uid) (uid_gid uid) groups
unfolding find_uid find_group
find_uid_lem uid groups = go (search (uid_cid uid) (uid_gid uid) groups) refl
  where
    go :
        (o : Option ℕ)
        → search (uid_cid uid) (uid_gid uid) groups ≡ o
        → (find_group (uid_cid uid) (uid_gid uid) false groups).0 ≡ o
    go none e = rw (e, find_group) refl
    go (some i) e = rw (e, find_group) refl

-- A group that is found has the owner that was looked for.
pub search_owner :
    (owner gid : List ℕ) (groups : Store) (i : ℕ)
    → search owner gid groups ≡ some i
    → (g : Group) × (group_at i groups ≡ some g) × (g.owner ≡ owner)
unfolding search group_at
search_owner owner gid [] i e = absurd (ground arith)
search_owner owner gid (g ∷ groups) i e = elim (Bool-cases (is_group owner gid g)) [
  | inl q ↦
      let w : some 0 ≡ some i = rw q at e in
      let z : 0 ≡ i = ground arith in (g, rw (sym z) refl, list_eq→eq g.owner owner (ground arith))
  | inr q ↦ elim (Option-cases (search owner gid groups)) [
    | inl r ↦ absurd (let w : none ≡ some i = rw (q, r) at e in ground arith)
    | inr (j, r) ↦
        let w : some (suc j) ≡ some i = rw (q, r) at e in
        let z : suc j ≡ i = ground arith in
        let (k, at, owned) = search_owner owner gid groups j r in (k, rw (sym z) at, owned)
  ]
]

pub group_at_last :
    (groups : Store) (g : Group) → group_at (length groups) (groups ++ (g ∷ [])) ≡ some g
unfolding group_at
group_at_last [] g = refl
group_at_last (k ∷ groups) g = group_at_last groups g

pub put_group_last :
    (groups : Store) (g g' : Group)
    → put_group (length groups) g' (groups ++ (g ∷ [])) ≡ groups ++ (g' ∷ [])
unfolding put_group
put_group_last [] g g' = refl
put_group_last (k ∷ groups) g g' = ap (λ gs. k ∷ gs) (put_group_last groups g g')

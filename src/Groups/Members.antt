-- ===== src/Groups/Members.antt =====
-- The members of a ThreeplGroup as a set: the order of the vector is forgotten.
use ceema.Prelude.{
  ◌≡◌, refl, ◌∙◌, inl, inr, ℕ, Bool, true, false, not, ◌&&◌, ◌||◌, List, [], ◌∷◌, ◌++◌, list_eq,
  list_eq_self, list_eq→eq, list_eq_comm, Bool-cases, arith,
}
use ceema.Groups.{Group, is_member, add_member, erase, remove_member}

-- No member twice.
abbrev pub Distinct : List (List ℕ) → Type 0
Distinct [] = Unit {0}
Distinct (x ∷ xs) = (is_member x xs ≡ false) × Distinct xs

is_member-append :
    (m y : List ℕ) (xs : List (List ℕ))
    → is_member m (xs ++ (y ∷ [])) ≡ (is_member m xs || list_eq y m)
unfolding is_member
is_member-append m y [] = ground arith
is_member-append m y (x ∷ xs) = elim (Bool-cases (list_eq x m)) [
  | inl e ↦ rw e refl
  | inr e ↦ rw e (is_member-append m y xs)
]

is_member-erase :
    (m y : List ℕ) (xs : List (List ℕ))
    → Distinct xs
    → is_member m (erase y xs) ≡ (not (list_eq y m) && is_member m xs)
unfolding is_member erase
is_member-erase m y [] d = ground arith
is_member-erase m y (x ∷ xs) (n, d) = elim (Bool-cases (list_eq x y)) [
  | inl e ↦
      let s : x ≡ y = list_eq→eq x y e in
      elim (Bool-cases (list_eq y m)) [
        | inl q ↦
            let t : y ≡ m = list_eq→eq y m q in
            let w : is_member m xs ≡ false = rw (s, t) at n in rw (e, q) w
        | inr q ↦ let w : list_eq x m ≡ false = rw s q in rw (e, q, w) refl
      ]
  | inr e ↦ elim (Bool-cases (list_eq x m)) [
    | inl q ↦
        let t : x ≡ m = list_eq→eq x m q in
        elim (Bool-cases (list_eq y m)) [
          | inl r ↦
              let u : y ≡ m = list_eq→eq y m r in
              absurd (
                let w : list_eq m m ≡ false = rw (t, u) at e in
                (let v = list_eq_self m in ground arith))
          | inr r ↦ rw (e, q, r) refl
        ]
    | inr q ↦ rw (e, q) (is_member-erase m y xs d)
  ]
]

add_member-Distinct :
    (y : List ℕ) (xs : List (List ℕ))
    → is_member y xs ≡ false
    → Distinct xs
    → Distinct (xs ++ (y ∷ []))
unfolding is_member
add_member-Distinct y [] n d = (refl, tt)
add_member-Distinct y (x ∷ xs) n (a, d) = elim (Bool-cases (list_eq x y)) [
  | inl e ↦ absurd (let w : true ≡ false = rw e at n in ground arith)
  | inr e ↦
      let u : list_eq y x ≡ false = list_eq_comm y x ∙ e in
      (rw (is_member-append x y xs, a, u) refl, add_member-Distinct y xs (rw e at n) d)
]

erase-Distinct : (y : List ℕ) (xs : List (List ℕ)) → Distinct xs → Distinct (erase y xs)
unfolding erase
erase-Distinct y [] d = tt
erase-Distinct y (x ∷ xs) (n, d) = elim (Bool-cases (list_eq x y)) [
  | inl e ↦ rw e d
  | inr e ↦ rw e (rw (is_member-erase x y xs d, n) (ground arith), erase-Distinct y xs d)
]

-- Where no member occurs twice, adding and removing a member are those of a set, return whether the
-- set has changed, and let no member occur twice.
pub members_refine :
    (member : List ℕ) (group : Group)
    → Distinct group.members
    → (Distinct (add_member member group).1.members
        × ((add_member member group).0 ≡ not (is_member member group.members))
        × ((m : List ℕ)
            → is_member m (add_member member group).1.members
              ≡ (list_eq member m || is_member m group.members)))
      × (Distinct (remove_member member group).1.members
          × ((remove_member member group).0 ≡ is_member member group.members)
          × ((m : List ℕ)
              → is_member m (remove_member member group).1.members
                ≡ (not (list_eq member m) && is_member m group.members)))
unfolding add_member remove_member
members_refine member group d = elim (Bool-cases (is_member member group.members)) [
  | inl e ↦ (
    rw (e, add_member) (d, refl, λ m. present m e),
    rw (e, remove_member)
        (
          erase-Distinct member group.members d,
          refl,
          λ m. is_member-erase m member group.members d,
        ),
  )
  | inr e ↦ (
    rw (e, add_member)
        (
          add_member-Distinct member group.members e d,
          refl,
          λ m.
              is_member-append m member group.members
              ∙ swap (is_member m group.members) (list_eq member m),
        ),
    rw (e, remove_member) (d, refl, λ m. missing m e),
  )
]
  where
    swap : (a b : Bool) → (a || b) ≡ (b || a)
    swap a b = ground arith

    present :
        (m : List ℕ)
        → is_member member group.members ≡ true
        → is_member m group.members ≡ (list_eq member m || is_member m group.members)
    present m e = elim (Bool-cases (list_eq member m)) [
      | inl q ↦
          let s : member ≡ m = list_eq→eq member m q in
          let w : is_member m group.members ≡ true = rw s at e in rw (q, w) refl
      | inr q ↦ rw q refl
    ]

    missing :
        (m : List ℕ)
        → is_member member group.members ≡ false
        → is_member m group.members ≡ (not (list_eq member m) && is_member m group.members)
    missing m e = elim (Bool-cases (list_eq member m)) [
      | inl q ↦
          let s : member ≡ m = list_eq→eq member m q in
          let w : is_member m group.members ≡ false = rw s at e in rw (q, w) refl
      | inr q ↦ rw q refl
    ]

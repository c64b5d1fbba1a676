-- ===== src/Types/Ids.antt =====
-- The loops that read and write a vector of 8-byte identifiers (message_id, client_id), one
-- identifier a round.
use ceema.Prelude.{
  ℕ, zero, suc, ◌-◌, ◌*◌, ◌≤◌, ◌≡◌, ◌∙◌, refl, ap, List, [], ◌∷◌, ◌++◌, length, All, length-append,
  append_assoc, append-nil, arith, Result, ok, ◌>>=◌,
}
use ceema.Types.Bytes.{IsByte}
use ceema.Types.Iter.{
  Input, Output, output, copy_iter, copy, copy-output, copy_iter-append, copy_iter-Reads,
}

abbrev pub IsId : List ℕ → Type 0
IsId id = length id ≡ 8

abbrev pub concat : List (List ℕ) → List ℕ
concat [] = []
concat (x ∷ xs) = x ++ concat xs

-- `for (auto& id : ids) iter = copy_iter(iter, id);` for a vector of `count` identifiers.
unfoldable pub read_ids : ℕ → Input → Result (List (List ℕ) × Input)
read_ids zero it = ok ([], it)
read_ids (suc count) it = do
  (id, it) ← copy_iter 8 it
  (ids, it) ← read_ids count it
  ok (id ∷ ids, it)

-- `for (auto const& id : ids) iter = std::copy(id.begin(), id.end(), iter);`
unfoldable pub copy_ids : List (List ℕ) → Output → Result Output
copy_ids [] iter = ok iter
copy_ids (id ∷ ids) iter = do iter ← copy id iter; copy_ids ids iter

pub length-concat : (ids : List (List ℕ)) → All IsId ids → length (concat ids) ≡ 8 * length ids
length-concat [] h = refl
length-concat (x ∷ xs) h = omega (arith, h.0, length-append x (concat xs), length-concat xs h.1)

pub read_ids-concat :
    (ids : List (List ℕ)) (ys : List ℕ)
    → All IsId ids
    → read_ids (length ids) (concat ids ++ ys) ≡ ok (ids, ys)
unfolding read_ids
read_ids-concat [] ys h = refl
read_ids-concat (x ∷ xs) ys h = ground (
  arith,
  append_assoc x (concat xs) ys,
  copy_iter-append 8 x (concat xs ++ ys) h.0,
  read_ids-concat xs ys h.1,
)

pub copy_ids-output :
    (ids : List (List ℕ)) (before : List ℕ) (n : ℕ)
    → All IsId ids
    → 8 * length ids ≤ n
    → copy_ids ids (output before n) ≡ ok (output (before ++ concat ids) (n - 8 * length ids))
unfolding copy_ids
copy_ids-output [] before n h fits = rw append-nil (ap (λ m. ok (output before m)) e)
  where
    e : n ≡ n - 8 * 0
    e = omega arith
copy_ids-output (x ∷ xs) before n h fits = ground (
  arith,
  copy-output x before 8 n h.0,
  copy_ids-output xs (before ++ x) (n - 8) h.1,
  append_assoc before x (concat xs),
)

-- With `8 * count` bytes ahead the loop ends, with `count` identifiers that it split off.
pub read_ids_ok :
    (count : ℕ) (it : Input)
    → 8 * count ≤ length it
    → All IsByte it
    → (ids : List (List ℕ)) × (rest : Input) × (read_ids count it ≡ ok (ids, rest))
      × (concat ids ++ rest ≡ it)
      × (length ids ≡ count)
      × All IsId ids
unfolding read_ids
read_ids_ok zero it h b = ([], it, refl, refl, refl, tt)
read_ids_ok (suc count) it h b =
    let r = copy_iter-Reads 8 it (omega arith) b in
    let (ids, rest, e, s, l, v) =
      read_ids_ok count r.rest (omega (arith, r.rest_size)) r.rest_bytes in
    (
      r.value ∷ ids,
      rest,
      ground (arith, r.reads, e),
      append_assoc r.value (concat ids) rest ∙ ap (λ t. r.value ++ t) s ∙ r.split,
      ap suc l,
      (r.value_size, v),
    )

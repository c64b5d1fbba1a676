-- ===== src/Types/Iter.antt =====
-- The two ways the code walks over a buffer: `copy_iter` and `letoh` through an input iterator
-- (src/types/iter.h, src/protocol/protocol.h), `std::copy` and `htole` through an output iterator.
-- An iterator that would leave its buffer is `out_of_bounds`.
use ceema.Prelude.{
  All-take, All-drop, take-append-drop, ℕ, ◌+◌, ◌-◌, ◌^◌, ◌≤◌, ◌<◌, ◌≡◌, sym, ap, ◌∙◌, List, [],
  ◌++◌, ◌∷◌, append-nil, arith, ltb, if◌then◌else◌, length, take, drop, replicate, All, take-append,
  drop-append, length-append, length-take, length-drop, length-replicate, drop-replicate, Result,
  ok, err, out_of_bounds,
}
use ceema.Types.Bytes.{IsByte, le, of_le, length-le, of_le-le, le-of_le, of_le-lt}

-- An input iterator is the bytes that are still ahead of it.
abbrev pub Input : Type 0
Input = List ℕ

-- `copy_iter(input, output)` for an output of `n` bytes: the bytes read, and the advanced iterator.
unfoldable pub copy_iter : ℕ → Input → Result (List ℕ × Input)
copy_iter n it = if ltb (length it) n then err out_of_bounds else ok (take n it, drop n it)

-- `letoh(value, &*it); it += sizeof(value);` for a value of `w` bytes.
unfoldable pub letoh : ℕ → Input → Result (ℕ × Input)
letoh w it = if ltb (length it) w then err out_of_bounds else ok (of_le (take w it), drop w it)

-- `value = *it; ++it;`
unfoldable pub next_byte : Input → Result (ℕ × Input)
next_byte [] = err out_of_bounds
next_byte (b ∷ it) = ok (b, it)

-- An output iterator: what the buffer holds before it, and what it holds from there on.
pub record Output : Type 0 where
  pub before : List ℕ
  pub ahead : List ℕ

-- An iterator behind `before` in a buffer whose other `n` bytes are still zero; `resize(n)` and
-- `begin()` give `output [] n`.
abbrev pub output : List ℕ → ℕ → Output
output before n = record { before = before; ahead = replicate n 0 }

-- The whole buffer.
abbrev pub contents : Output → List ℕ
contents o = o.before ++ o.ahead

-- `o = std::copy(src.begin(), src.end(), o)`.
unfoldable pub copy : List ℕ → Output → Result Output
copy src o =
    if ltb (length o.ahead) (length src)
    then err out_of_bounds
    else ok (record { before = o.before ++ src; ahead = drop (length src) o.ahead })

-- `htole(value, &*o)` for a value of `w` bytes: the iterator stays where it is.
unfoldable pub poke : ℕ → ℕ → Output → Result Output
poke w v o =
    if ltb (length o.ahead) w
    then err out_of_bounds
    else ok (record { before = o.before; ahead = le w v ++ drop w o.ahead })

-- `htole(value, &*o); o += sizeof(value);`
unfoldable pub htole : ℕ → ℕ → Output → Result Output
htole w v o = copy (le w v) o

pub copy_iter-append :
    (n : ℕ) (xs ys : List ℕ) → length xs ≡ n → copy_iter n (xs ++ ys) ≡ ok (xs, ys)
unfolding copy_iter
copy_iter-append n xs ys h =
    ground (arith, length-append xs ys, take-append n xs ys h, drop-append n xs ys h)

pub copy_iter_whole : (n : ℕ) (xs : List ℕ) → length xs ≡ n → copy_iter n xs ≡ ok (xs, [])
copy_iter_whole n xs h = rw append-nil at (copy_iter-append n xs [] h)

pub letoh-append : (w v : ℕ) (ys : List ℕ) → v < 256 ^ w → letoh w (le w v ++ ys) ≡ ok (v, ys)
unfolding letoh
letoh-append w v ys h = ground (
  arith,
  length-le w v,
  length-append (le w v) ys,
  take-append w (le w v) ys,
  drop-append w (le w v) ys,
  of_le-le w v h,
)

pub copy_iter_ok :
    (n : ℕ) (it : List ℕ) → n ≤ length it → copy_iter n it ≡ ok (take n it, drop n it)
unfolding copy_iter
copy_iter_ok n it h = ground arith

pub letoh_ok :
    (w : ℕ) (it : List ℕ) → w ≤ length it → letoh w it ≡ ok (of_le (take w it), drop w it)
unfolding letoh
letoh_ok w it h = ground arith

pub copy-output :
    (src before : List ℕ) (k n : ℕ)
    → length src ≡ k
    → k ≤ n
    → copy src (output before n) ≡ ok (output (before ++ src) (n - k))
unfolding copy
copy-output src before k n h fits =
    ground (arith, length-replicate {A = ℕ} n 0, drop-replicate {A = ℕ} k n 0)

pub htole-output :
    (w v : ℕ) (before : List ℕ) (n : ℕ)
    → w ≤ n
    → htole w v (output before n) ≡ ok (output (before ++ le w v) (n - w))
unfolding htole
htole-output w v before n fits = copy-output (le w v) before w n (length-le w v) fits

-- What a successful read of `n` bytes did to the bytes ahead.
pub record Reads {ℓ} {A : Type ℓ} (bytes : A → List ℕ) (n : ℕ) (it : Input) (r : Result (A × Input))
    : Type ℓ where
  pub value : A
  pub rest : Input
  pub reads : r ≡ ok (value, rest)
  pub split : bytes value ++ rest ≡ it
  pub value_size : length (bytes value) ≡ n
  pub rest_size : length rest + n ≡ length it
  pub rest_bytes : All IsByte rest

pub copy_iter-Reads :
    (n : ℕ) (it : Input) → n ≤ length it → All IsByte it → Reads (λ xs. xs) n it (copy_iter n it)
copy_iter-Reads n it h b = record {
  value = take n it;
  rest = drop n it;
  reads = copy_iter_ok n it h;
  split = take-append-drop n it;
  value_size = omega (arith, length-take n it);
  rest_size = omega (arith, length-drop n it);
  rest_bytes = All-drop IsByte n it b;
}

le-of_le-take :
    (w : ℕ) (it : Input) → w ≤ length it → All IsByte it → le w (of_le (take w it)) ≡ take w it
le-of_le-take w it h b =
    let e : length (take w it) ≡ w = omega (arith, length-take w it) in
    ap (λ k. le k (of_le (take w it))) (sym e) ∙ le-of_le (take w it) (All-take IsByte w it b)

pub letoh-Reads :
    (w : ℕ) (it : Input) → w ≤ length it → All IsByte it → Reads (le w) w it (letoh w it)
letoh-Reads w it h b = record {
  value = of_le (take w it);
  rest = drop w it;
  reads = letoh_ok w it h;
  split = ap (λ xs. xs ++ drop w it) (le-of_le-take w it h b) ∙ take-append-drop w it;
  value_size = length-le w _;
  rest_size = omega (arith, length-drop w it);
  rest_bytes = All-drop IsByte w it b;
}

pub letoh-lt :
    (w : ℕ) (it : Input) {v : ℕ} {rest : Input}
    → All IsByte it
    → letoh w it ≡ ok (v, rest)
    → v < 256 ^ w
unfolding letoh
letoh-lt w it b e = ground (arith, length-take w it, of_le-lt (take w it) (All-take IsByte w it b))

-- ===== src/Contact/Backup/RoundTrip.antt =====
-- What src/contact/backup.cpp writes, it reads.
use ceema.Prelude.{
  ℕ, suc, zero, ◌≡◌, ◌≤◌, refl, some, List, [], ◌∷◌, ◌++◌, ltb, list_eq_self, length, take, drop,
  replicate, All, All-append, All-take, arith, ok, ◌>>=◌, take-append, drop-append, length-append,
  length-take, take-append-drop, append_assoc, append-nil, sym, ap, ◌∙◌, Bool-cases, inl, inr,
}
use ceema.Types.Bytes.{IsByte}
use ceema.Types.Iter.{copy-output}
use ceema.Encoding.Crypto.{Crypto}
use ceema.Encoding.Base32.{base32_encode, base32_decode, feed, Decoder, finish}
use ceema.Encoding.Base32.RoundTrip.{base32_decode-base32_encode, base32_encode-length, feed-skip}
use ceema.Contact.{account}
use ceema.Contact.Backup.{
  Hashes, IsHashes, pbkdf_iter, hyphen, insert, hyphenate, make_backup, open_backup, decrypt_backup,
}

-- A text that the decoder takes for another.
abbrev Alike : List ℕ → List ℕ → Type 0
Alike text text' = (len : ℕ) (d : Decoder) → feed len text' d ≡ feed len text d

insert-Alike : (i : ℕ) (text : List ℕ) → Alike text (insert i hyphen text)
insert-Alike i text len d =
    feed-skip len hyphen (take i text) (drop i text) d refl
    ∙ ap (λ t. feed len t d) (take-append-drop i text)

-- The hyphens do not change what is read.
hyphenate-Alike :
    (i : ℕ) (text : List ℕ)
    → 4 ≤ i
    → (text' : List ℕ) × (hyphenate i text ≡ ok text') × Alike text text'
unfolding hyphenate
hyphenate-Alike (suc (suc (suc (suc i)))) text h = elim (Bool-cases (ltb 3 i)) [
  | inl e ↦
      let (text', r, same) = hyphenate-Alike i (insert i hyphen text) (ground arith) in
      (text', rw (e, hyphenate) r, λ len d. same len d ∙ insert-Alike i text len d)
  | inr e ↦ (text, rw (e, hyphenate) refl, λ len d. refl)
]
hyphenate-Alike zero text h = absurd (omega arith)
hyphenate-Alike (suc zero) text h = absurd (omega arith)
hyphenate-Alike (suc (suc zero)) text h = absurd (omega arith)
hyphenate-Alike (suc (suc (suc zero))) text h = absurd (omega arith)

base32_decode-Alike :
    (text text' : List ℕ) (len : ℕ)
    → Alike text text'
    → base32_decode text' len ≡ base32_decode text len
unfolding base32_decode
base32_decode-Alike text text' len same =
    ap (λ r. r >>= λ d. ok (finish d)) (same len (record { written = []; bits = 0; value = 0 }))

-- The parts of the buffer before it is encrypted.
front :
    (salt id sk tail : List ℕ)
    → length salt ≡ 8
    → length id ≡ 8
    → length sk ≡ 32
    → take 40 (drop 8 (((salt ++ id) ++ sk) ++ tail)) ≡ id ++ sk
front salt id sk tail hs hi hk =
    let e : ((salt ++ id) ++ sk) ++ tail ≡ salt ++ ((id ++ sk) ++ tail) =
      append_assoc (salt ++ id) sk tail
      ∙ append_assoc salt id (sk ++ tail)
      ∙ ap (λ t. salt ++ t) (sym (append_assoc id sk tail)) in
    rw (e, drop-append 8 salt ((id ++ sk) ++ tail) hs)
      (take-append 40 (id ++ sk) tail (omega (arith, length-append id sk)))

module _ (c : Crypto) (h : Hashes) where
  -- What a backup holds: the salt, and the id, the key and the hash's first bytes under the cipher.
  abbrev plain_of : List ℕ → List ℕ → List ℕ
  plain_of id sk = (id ++ sk) ++ take 2 (h.sha256 (id ++ sk))

  abbrev sealed_of : List ℕ → List ℕ → List ℕ → List ℕ → List ℕ
  sealed_of salt id sk password =
      h.stream (plain_of id sk) (replicate 24 0) (h.pbkdf2 password salt pbkdf_iter)

  length-plain_of :
      (id sk : List ℕ) → IsHashes h → length id ≡ 8 → length sk ≡ 32 → length (plain_of id sk) ≡ 42
  length-plain_of id sk laws hi hk = omega (
    arith,
    length-append (id ++ sk) (take 2 (h.sha256 (id ++ sk))),
    length-append id sk,
    length-take 2 (h.sha256 (id ++ sk)),
    laws.sha256_length (id ++ sk),
  )

  make_backup_text :
      (salt id sk password : List ℕ)
      → IsHashes h
      → length salt ≡ 8
      → length id ≡ 8
      → length sk ≡ 32
      → make_backup c h salt (account c id sk) password
        ≡ (base32_encode (salt ++ sealed_of salt id sk password) >>= λ t. hyphenate (length t) t)
  unfolding make_backup
  make_backup_text salt id sk password laws hs hi hk =
      let hash : List ℕ = take 2 (h.sha256 (id ++ sk)) in
      let n : length hash ≡ 2 =
        omega (arith, length-take 2 (h.sha256 (id ++ sk)), laws.sha256_length (id ++ sk)) in
      let e : (((salt ++ id) ++ sk) ++ hash) ++ [] ≡ salt ++ plain_of id sk =
        append-nil (((salt ++ id) ++ sk) ++ hash)
        ∙ append_assoc (salt ++ id) sk hash
        ∙ append_assoc salt id (sk ++ hash)
        ∙ ap (λ t. salt ++ t) (sym (append_assoc id sk hash)) in
      rw
        (
          copy-output id salt 8 42 hi (omega arith),
          copy-output sk (salt ++ id) 32 34 hk (omega arith),
          front salt id sk (0 ∷ 0 ∷ []) hs hi hk,
          copy-output hash ((salt ++ id) ++ sk) 2 2 n (omega arith),
          e,
          take-append 8 salt (plain_of id sk) hs,
          drop-append 8 salt (plain_of id sk) hs,
        )
        refl

  open_backup_lem :
      (salt id sk password : List ℕ)
      → IsHashes h
      → length salt ≡ 8
      → length id ≡ 8
      → length sk ≡ 32
      → open_backup c h password (salt ++ sealed_of salt id sk password) ≡ ok (account c id sk)
  unfolding open_backup
  open_backup_lem salt id sk password laws hs hi hk =
      let hash : List ℕ = take 2 (h.sha256 (id ++ sk)) in
      let key : List ℕ = h.pbkdf2 password salt pbkdf_iter in
      let n : length (id ++ sk) ≡ 40 = omega (arith, length-append id sk) in
      rw
        (
          take-append 8 salt (sealed_of salt id sk password) hs,
          drop-append 8 salt (sealed_of salt id sk password) hs,
          laws.stream_twice (plain_of id sk) (replicate 24 0) key,
          take-append 40 (id ++ sk) hash n,
          drop-append 40 (id ++ sk) hash n,
          list_eq_self hash,
          append_assoc id sk hash,
          take-append 8 id (sk ++ hash) hi,
          drop-append 8 id (sk ++ hash) hi,
          take-append 32 sk hash hk,
        )
        refl

  -- An identity whose id and key have their lengths is written to a backup, whatever the salt and
  -- the password, and the same password reads it back, where the hash has 32 bytes and the stream
  -- cipher undoes itself.
  pub decrypt_backup-make_backup :
      (salt id sk password : List ℕ)
      → IsHashes h
      → All IsByte salt
      → All IsByte id
      → All IsByte sk
      → length salt ≡ 8
      → length id ≡ 8
      → length sk ≡ 32
      → (text : List ℕ) × (make_backup c h salt (account c id sk) password ≡ ok text)
        × (decrypt_backup c h text password ≡ ok (account c id sk))
  unfolding decrypt_backup
  decrypt_backup-make_backup salt id sk password laws bs bi bk hs hi hk =
      let plain : List ℕ = plain_of id sk in
      let sealed : List ℕ = sealed_of salt id sk password in
      let key : List ℕ = h.pbkdf2 password salt pbkdf_iter in
      let n : length sealed ≡ 42 =
        laws.stream_length plain (replicate 24 0) key ∙ length-plain_of id sk laws hi hk in
      let size : length (salt ++ sealed) ≡ 50 = omega (arith, length-append salt sealed) in
      let bytes : All IsByte (salt ++ sealed) = All-append IsByte salt sealed bs (
        laws.stream_bytes plain (replicate 24 0) key (
          All-append IsByte (id ++ sk) (take 2 (h.sha256 (id ++ sk)))
            (All-append IsByte id sk bi bk)
            (All-take IsByte 2 (h.sha256 (id ++ sk)) (laws.sha256_bytes (id ++ sk))))) in
      let (t, enc, dec) = base32_decode-base32_encode 9 (salt ++ sealed) bytes size in
      let long : 4 ≤ length t = base32_encode-length (salt ++ sealed) t (omega arith) enc in
      let (text, hyp, same) = hyphenate-Alike (length t) t long in
      let dec' : base32_decode t 50 ≡ ok (some (salt ++ sealed)) = rw size at dec in
      (
        text,
        rw (make_backup_text salt id sk password laws hs hi hk, enc) hyp,
        rw (base32_decode-Alike t text 50 same, dec', size)
            (open_backup_lem salt id sk password laws hs hi hk),
      )

-- ===== src/Contact/Backup.antt =====
-- src/contact/backup.cpp: an identity as a text that a password opens. The hash, the derivation of the
-- key and the stream cipher are libsodium's and a third party's, so they are parameters.
pub mod RoundTrip
use ceema.Prelude.{
  ℕ, suc, ◌+◌, ◌-◌, ◌≡◌, ◌≤◌, ◌<◌, refl, Bool, true, false, not, Option, none, some, List, [], ◌∷◌,
  ◌++◌, ltb, ◌==◌, list_eq, list_eq_self, length, take, drop, replicate, All, All-append, All-take,
  arith, Result, ok, err, runtime_error, logic_error, throw_if, ◌>>=◌, ◌>>◌, take-append,
  drop-append, length-append, length-take, take-append-drop, append_assoc, append-nil, sym, ap, ◌∙◌,
  Bool-cases, inl, inr, take_all, drop_all,
}
use ceema.Types.Bytes.{IsByte}
use ceema.Types.Iter.{Output, output, contents, copy, copy-output}
use ceema.Encoding.Crypto.{Crypto}
use ceema.Encoding.Base32.{base32_encode, base32_decode, is_skipped, feed, Decoder, finish}
use ceema.Encoding.Base32.RoundTrip.{base32_decode-base32_encode, feed-skip}
use ceema.Contact.{Account, account}

-- `stream` is crypto_stream_xor on the text, the nonce and the key; `pbkdf2` takes the password, the
-- salt and the number of rounds.
pub record Hashes : Type 0 where
  pub sha256 : List ℕ → List ℕ
  pub pbkdf2 : List ℕ → List ℕ → ℕ → List ℕ
  pub stream : List ℕ → List ℕ → List ℕ → List ℕ

-- What is documented of them: bytes out of bytes, the size of the hash, and a cipher that undoes itself.
pub record IsHashes (h : Hashes) : Type 0 where
  pub sha256_length : (m : List ℕ) → length (h.sha256 m) ≡ 32
  pub sha256_bytes : (m : List ℕ) → All IsByte (h.sha256 m)
  pub stream_length : (m n k : List ℕ) → length (h.stream m n k) ≡ length m
  pub stream_bytes : (m n k : List ℕ) → All IsByte m → All IsByte (h.stream m n k)
  pub stream_twice : (m n k : List ℕ) → h.stream (h.stream m n k) n k ≡ m

abbrev pub hash_len : ℕ
hash_len = 2

abbrev pub salt_len : ℕ
salt_len = 8

abbrev pub pbkdf_iter : ℕ
pbkdf_iter = 100000

-- '-'
abbrev pub hyphen : ℕ
hyphen = 0x2d

abbrev pub insert : ℕ → ℕ → List ℕ → List ℕ
insert i ch text = take i text ++ (ch ∷ drop i text)

-- `for(size_t i = …; (i -= 4) > 3;) text.insert(i, 1, '-');`. Below four, `i` wraps around, and
-- `insert` throws std::out_of_range.
unfoldable pub hyphenate : ℕ → List ℕ → Result (List ℕ)
hyphenate (suc (suc (suc (suc i)))) text = elim (ltb 3 i) [
  | true ↦ hyphenate i (insert i hyphen text)
  | false ↦ ok text
]
hyphenate _ text = err logic_error

module _ (c : Crypto) (h : Hashes) where
  -- The random salt is an argument.
  unfoldable pub make_backup : List ℕ → Account → List ℕ → Result (List ℕ)
  unfolding hyphenate
  make_backup salt client password = do
    iter ← copy client.id (output salt (8 + 32 + hash_len))
    iter ← copy client.sk iter
    let hash = h.sha256 (take 40 (drop salt_len (contents iter)))
    iter ← copy (take 2 hash) iter
    let enckey = h.pbkdf2 password (take salt_len (contents iter)) pbkdf_iter
    let sealed = h.stream (drop salt_len (contents iter)) (replicate 24 0) enckey
    text ← base32_encode (take salt_len (contents iter) ++ sealed)
    hyphenate (length text) text

  -- `base32_decode(…) != backup.size()`, with what the buffer then holds.
  abbrev pub of_size : ℕ → Option (List ℕ) → Result (List ℕ)
  of_size size none = err runtime_error
  of_size size (some bytes) = throw_if (not (length bytes == size)) runtime_error >> ok bytes

  unfoldable pub open_backup : List ℕ → List ℕ → Result Account
  open_backup password backup =
      let enckey = h.pbkdf2 password (take salt_len backup) pbkdf_iter in
      let plain = h.stream (drop salt_len backup) (replicate 24 0) enckey in
      let hash = h.sha256 (take 40 plain) in
      throw_if (not (list_eq (drop 40 plain) (take hash_len hash))) runtime_error
      >> ok (account c (take 8 plain) (take 32 (drop 8 plain)))

  unfoldable pub decrypt_backup : List ℕ → List ℕ → Result Account
  unfolding open_backup
  decrypt_backup text password = do
    decoded ← base32_decode text (salt_len + 8 + 32 + hash_len)
    backup ← of_size (salt_len + 8 + 32 + hash_len) decoded
    open_backup password backup

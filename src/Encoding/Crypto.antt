-- ===== src/Encoding/Crypto.antt =====
-- The wrappers of src/encoding/crypto.h round libsodium's boxes, which are parameters: `box` for
-- crypto_box_easy, `box_open` for crypto_box_open_easy, `derive` for crypto_scalarmult_base. Each wrapper
-- writes what libsodium returns over the front of the buffer.
use ceema.Prelude.{
  ℕ, ◌+◌, ◌-◌, ◌≡◌, List, ◌++◌, Option, none, some, ltb, not, ◌==◌, length, take, drop, drop_all,
  append-nil, take-append, length-append, arith, Result, ok, crypto_error, ◌>>◌, throw_if,
}

-- crypto_box_MACBYTES
abbrev pub mac_bytes : ℕ
mac_bytes = 16

-- crypto_box_NONCEBYTES
abbrev pub nonce_bytes : ℕ
nonce_bytes = 24

-- crypto_box_PUBLICKEYBYTES and crypto_box_SECRETKEYBYTES
abbrev pub key_bytes : ℕ
key_bytes = 32

-- Each function takes the text, the nonce, the other side's public key and the own secret key.
pub record Crypto : Type 0 where
  pub box : List ℕ → List ℕ → List ℕ → List ℕ → Option (List ℕ)
  pub box_open : List ℕ → List ℕ → List ℕ → List ℕ → Option (List ℕ)
  pub derive : List ℕ → List ℕ

-- What libsodium documents of them.
pub record IsCrypto (c : Crypto) : Type 0 where
  pub box_length :
      (m n pk sk : List ℕ) (r : List ℕ) → c.box m n pk sk ≡ some r → length r ≡ length m + 16
  pub open_length :
      (m n pk sk : List ℕ) (r : List ℕ) → c.box_open m n pk sk ≡ some r → length m ≡ length r + 16
  pub open-box :
      (m n sk sk' : List ℕ) (r : List ℕ)
      → c.box m n (c.derive sk') sk ≡ some r
      → c.box_open r n (c.derive sk) sk' ≡ some m

-- What a call that writes `r` to the front of `buffer` leaves in it.
abbrev pub write_front : List ℕ → List ℕ → List ℕ
write_front r buffer = r ++ drop (length r) buffer

-- A wrapper's answer: `none` where libsodium refused, and the wrapper returned false.
abbrev pub over : List ℕ → Option (List ℕ) → Option (List ℕ)
over buffer none = none
over buffer (some r) = some (write_front r buffer)

module _ (c : Crypto) where
  unfoldable pub encrypt_inplace : List ℕ → List ℕ → List ℕ → List ℕ → Result (Option (List ℕ))
  encrypt_inplace buffer n pk sk = do
    throw_if (ltb (length buffer) mac_bytes) crypto_error
    ok (over buffer (c.box (take (length buffer - mac_bytes) buffer) n pk sk))

  unfoldable pub decrypt_inplace : List ℕ → List ℕ → List ℕ → List ℕ → Result (Option (List ℕ))
  decrypt_inplace buffer n pk sk = do
    throw_if (ltb (length buffer) mac_bytes) crypto_error
    ok (over buffer (c.box_open buffer n pk sk))

  -- `encrypt(result, input, …)` for a zeroed result of `result_size` bytes.
  unfoldable pub encrypt : ℕ → List ℕ → List ℕ → List ℕ → List ℕ → Result (Option (List ℕ))
  encrypt result_size input n pk sk = do
    throw_if (not (result_size == length input + mac_bytes)) crypto_error
    ok (c.box input n pk sk)

  pub encrypt_inplace_ok :
      (m tail n pk sk r : List ℕ)
      → IsCrypto c
      → length tail ≡ 16
      → c.box m n pk sk ≡ some r
      → encrypt_inplace (m ++ tail) n pk sk ≡ ok (some r)
  unfolding encrypt_inplace
  encrypt_inplace_ok m tail n pk sk r laws t e =
      let l : length (m ++ tail) ≡ length m + 16 = omega (arith, length-append m tail) in
      let k : length m ≡ length m + 16 - 16 = omega arith in
      let w : length r ≡ length m + 16 = laws.box_length m n pk sk r e in
      ground (
        arith,
        l,
        e,
        take-append (length m + 16 - 16) m tail k,
        drop_all (length r) (m ++ tail) (omega arith),
        append-nil r,
      )

  pub decrypt_inplace_ok :
      (m n pk sk r : List ℕ)
      → IsCrypto c
      → c.box_open r n pk sk ≡ some m
      → decrypt_inplace r n pk sk ≡ ok (some (m ++ drop (length m) r))
  unfolding decrypt_inplace
  decrypt_inplace_ok m n pk sk r laws e =
      let w : length r ≡ length m + 16 = laws.open_length r n pk sk m e in ground (arith, e)

-- ===== src/Packet/Message/Encryption.antt =====
-- Message::encrypt and Message::decrypt: the end-to-end encryption of the payload between two clients.
use ceema.Prelude.{
  ℕ, false, ◌⊎◌, list_eq→eq, length-drop, ◌+◌, ◌-◌, ◌≡◌, ◌≢◌, not, refl, ◌||◌, Option, none, some,
  List, [], ◌∷◌, ◌++◌, ◌==◌, list_eq, list_eq_self, length, length-append, replicate, take,
  take-append, drop, arith, Result, ok, err, runtime_error, ◌>>=◌, ◌>>◌, throw_if,
}
use ceema.Encoding.Crypto.{
  Crypto, IsCrypto, mac_bytes, encrypt_inplace, decrypt_inplace, encrypt_inplace_ok,
  decrypt_inplace_ok,
}
use ceema.Encoding.Pkcs7.{add_padding, strip_padding, strip_padding-add_padding}
use ceema.Contact.{Contact, Account, account, contact}
use ceema.Payload.MessageType.{code}
use ceema.Payload.MessagePayload.{Formats, MessagePayload, get_type, serialize, deserialize}
use ceema.Payload.MessagePayload.RoundTrip.{IsWritable, deserialize-serialize_payload}
use ceema.Packet.Message.{Message}

-- `if (!box(…)) throw std::runtime_error`
abbrev pub or_throw : Option (List ℕ) → Result (List ℕ)
or_throw none = err runtime_error
or_throw (some r) = ok r

not_empty : (xs : List ℕ) (n : ℕ) → length xs ≡ n + 16 → (length xs == 0) ≡ false
not_empty xs n h = ground arith

-- The authenticator's place is cut off, and the text is left.
pub take_opened :
    (t r : List ℕ)
    → length r ≡ length t + 16
    → take (length (t ++ drop (length t) r) - 16) (t ++ drop (length t) r) ≡ t
take_opened t r h =
    take-append _ t (drop (length t) r)
      (omega (arith, length-append t (drop (length t) r), length-drop (length t) r))

module _ (c : Crypto) (f : Formats) where
  -- The random number is the one that the padding draws. `htole(type, type_data.data())` writes the one
  -- byte of the type.
  unfoldable pub encrypt : ℕ → Account → Contact → Message f → Result (Message f)
  encrypt random sender recipient m = do
    throw_if (not (list_eq sender.id m.sender) || not (list_eq recipient.id m.recipient))
        runtime_error
    payload ← serialize f m.payload
    let payload_data = add_padding random (code (get_type f m.payload) ∷ payload)
    sealed ←
        encrypt_inplace c (payload_data ++ replicate mac_bytes 0) m.nonce recipient.pk sender.sk
    payload_data ← or_throw sealed
    ok (record m { payload_data = payload_data })

  unfoldable pub decrypt : Contact → Account → Message f → Result (Message f)
  decrypt sender recipient m = do
    throw_if (length m.payload_data == 0) runtime_error
    throw_if (not (list_eq sender.id m.sender) || not (list_eq recipient.id m.recipient))
        runtime_error
    opened ← decrypt_inplace c m.payload_data m.nonce sender.pk recipient.sk
    payload_data ← or_throw opened
    payload_data ← strip_padding (take (length payload_data - mac_bytes) payload_data)
    payload ← deserialize f payload_data
    ok (record m { payload = payload; payload_data = [] })

  -- The padded text that `encrypt` seals.
  abbrev pub plain_text : ℕ → MessagePayload f → List ℕ → List ℕ
  plain_text random p d = add_padding random (code (get_type f p) ∷ d)

  encrypt_ok :
      (random : ℕ) (sender : Account) (recipient : Contact) (m : Message f) (d r : List ℕ)
      → IsCrypto c
      → m.sender ≡ sender.id
      → m.recipient ≡ recipient.id
      → serialize f m.payload ≡ ok d
      → c.box (plain_text random m.payload d) m.nonce recipient.pk sender.sk ≡ some r
      → encrypt random sender recipient m ≡ ok (record m { payload_data = r })
  unfolding encrypt
  encrypt_ok random sender recipient m d r laws hs hr w e = rw (
    hs,
    hr,
    list_eq_self sender.id,
    list_eq_self recipient.id,
    w,
    encrypt_inplace_ok c (plain_text random m.payload d) (replicate 16 0) m.nonce recipient.pk
        sender.sk r laws refl e,
  )

  decrypt_ok :
      (random : ℕ) (sender : Contact) (recipient : Account) (m : Message f) (p : MessagePayload f)
      (d : List ℕ)
      → IsCrypto c
      → m.sender ≡ sender.id
      → m.recipient ≡ recipient.id
      → c.box_open m.payload_data m.nonce sender.pk recipient.sk ≡ some (plain_text random p d)
      → deserialize f (code (get_type f p) ∷ d) ≡ ok p
      → decrypt sender recipient m ≡ ok (record m { payload = p; payload_data = [] })
  unfolding decrypt
  decrypt_ok random sender recipient m p d laws hs hr e r =
      let t : List ℕ = plain_text random p d in
      let w : length m.payload_data ≡ length t + 16 =
        laws.open_length m.payload_data m.nonce sender.pk recipient.sk t e in
      rw (
        not_empty m.payload_data (length t) w,
        hs,
        hr,
        list_eq_self sender.id,
        list_eq_self recipient.id,
        decrypt_inplace_ok c t m.nonce sender.pk recipient.sk m.payload_data laws e,
        take_opened t m.payload_data w,
        strip_padding-add_padding random (code (get_type f p) ∷ d),
        r,
      )

  -- A message whose payload has a format of the program's own and fits its places, and whose sender
  -- and recipient are the two clients, is encrypted by the one and decrypted by the other to the
  -- same payload, whatever padding is drawn, where the boxes open with the keys that sealed them
  -- and sealing does not fail.
  pub decrypt-encrypt :
      (random : ℕ) (id_a sk_a id_b sk_b : List ℕ) (m : Message f)
      → IsCrypto c
      → ((t n pk sk : List ℕ) → (r : List ℕ) × (c.box t n pk sk ≡ some r))
      → m.sender ≡ id_a
      → m.recipient ≡ id_b
      → IsWritable m.payload
      → (sealed : Message f) × (encrypt random
            (account c id_a sk_a)
            (contact id_b (c.derive sk_b))
            m
          ≡ ok sealed)
        × (decrypt (contact id_a (c.derive sk_a)) (account c id_b sk_b) sealed
            ≡ ok (record m { payload_data = [] }))
  decrypt-encrypt random id_a sk_a id_b sk_b m laws seals hs hr v =
      let (d, s, back) = deserialize-serialize_payload f m.payload v in
      let t : List ℕ = plain_text random m.payload d in
      let (r, e) = seals t m.nonce (c.derive sk_b) sk_a in
      let sealed : Message f = record m { payload_data = r } in
      (
        sealed,
        encrypt_ok random (account c id_a sk_a) (contact id_b (c.derive sk_b)) m d r laws hs hr s e,
        decrypt_ok random (contact id_a (c.derive sk_a)) (account c id_b sk_b) sealed m.payload d
            laws hs hr (laws.open-box t m.nonce sk_a sk_b r e) back,
      )

  -- A message whose sender or recipient is another client than the given one is neither encrypted
  -- nor decrypted.
  wrong_party_fails :
      (random : ℕ) (sender recipient : Account) (m : Message f)
      → (sender.id ≢ m.sender) ⊎ (recipient.id ≢ m.recipient)
      → (encrypt random sender recipient.contact_part m ≡ err runtime_error)
        × (decrypt sender.contact_part recipient m ≡ err runtime_error)
  unfolding encrypt decrypt
  wrong_party_fails random sender recipient m h = (
    ground (arith, list_eq→eq sender.id m.sender, list_eq→eq recipient.id m.recipient),
    ground (arith, list_eq→eq sender.id m.sender, list_eq→eq recipient.id m.recipient),
  )

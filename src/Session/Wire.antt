-- ===== src/Session/Wire.antt =====
-- The buffers that src/protocol/session.cpp fills before it encrypts or sends them.
use ceema.Prelude.{
  ℕ, ◌+◌, ◌≡◌, Bool, true, false, refl, ap, ltb, le→ltb_false, drop_all, length-drop, List, [], ◌∷◌,
  ◌++◌, length, take, drop, replicate, length-append, length-replicate, append-nil, append_assoc,
  arith, Result, ok, ◌>>=◌,
}
use ceema.Types.Bytes.{le, length-le}
use ceema.Types.Iter.{Output, output, contents, copy, poke, copy-output}

abbrev pub proto_auth_packet_size : ℕ
proto_auth_packet_size = 8 + 32 + 24 + 16 + 32 + 16 + 16

-- "libceema 0.0.1;;;", which `strncpy` fills up with zeros to 32 bytes.
abbrev pub version_info : List ℕ
version_info =
    0x6c
    ∷ 0x69
    ∷ 0x62
    ∷ 0x63
    ∷ 0x65
    ∷ 0x65
    ∷ 0x6d
    ∷ 0x61
    ∷ 0x20
    ∷ 0x30
    ∷ 0x2e
    ∷ 0x30
    ∷ 0x2e
    ∷ 0x31
    ∷ 0x3b
    ∷ 0x3b
    ∷ 0x3b
    ∷ replicate 15 0

-- The nonce and the server's prefix, in the order of the server that is spoken to.
unfoldable pub auth_nonces : Bool → List ℕ → List ℕ → Output → Result Output
auth_nonces true random_nonce server_nonce_prefix packet_iter = do
  packet_iter ← copy random_nonce packet_iter
  copy server_nonce_prefix packet_iter
auth_nonces false random_nonce server_nonce_prefix packet_iter = do
  packet_iter ← copy server_nonce_prefix packet_iter
  copy random_nonce packet_iter

-- The AUTH packet before it is encrypted in place.
unfoldable pub auth_packet : Bool → List ℕ → List ℕ → List ℕ → List ℕ → Result (List ℕ)
unfolding auth_nonces
auth_packet use_proxy id random_nonce server_nonce_prefix sealed_pk = do
  packet_iter ← copy id (output [] proto_auth_packet_size)
  packet_iter ← copy version_info packet_iter
  packet_iter ← auth_nonces use_proxy random_nonce server_nonce_prefix packet_iter
  packet_iter ← copy sealed_pk packet_iter
  ok (contents packet_iter)

-- `o += n`, over bytes that are left as they are.
abbrev pub advance : ℕ → Output → Output
advance n o = record { before = o.before ++ take n o.ahead; ahead = drop n o.ahead }

-- The buffer of `send_packet` for a box over `size` bytes: `htole` writes the eight bytes of a size_t
-- over the two of the length and six more, and the box goes over those.
unfoldable pub frame : ℕ → List ℕ → Result (List ℕ)
frame size sealed = do
  start ← poke 8 (size + 16) (output [] (2 + size + 16))
  iter ← copy sealed (advance 2 start)
  ok (contents iter)

-- The buffer of a sent packet is the low two bytes of the length of its box and the box, though the
-- length is written as eight bytes, if the box has 16 bytes more than the packet.
pub frame_lem :
    (size : ℕ) (sealed : List ℕ)
    → length sealed ≡ size + 16
    → frame size sealed ≡ ok (le 2 (size + 16) ++ sealed)
unfolding frame poke copy
frame_lem size sealed h =
    let blank : List ℕ = replicate (2 + size + 16) 0 in
    let size_of_blank : length blank ≡ 2 + size + 16 = length-replicate {A = ℕ} (2 + size + 16) 0 in
    let written : List ℕ = le 8 (size + 16) ++ drop 8 blank in
    let rest_size : length (drop 2 written) ≡ length sealed = omega (
      arith,
      length-drop 2 written,
      length-append (le 8 (size + 16)) (drop 8 blank),
      length-drop 8 blank,
      length-le 8 (size + 16),
    ) in
    let nothing_left = drop_all (length sealed) (drop 2 written) (omega arith) in
    let start : take 2 written ≡ le 2 (size + 16) = unfold le in refl in
    let room : ltb (length blank) 8 ≡ false = le→ltb_false _ _ (omega arith) in
    let fits : ltb (length (drop 2 written)) (length sealed) ≡ false =
      le→ltb_false _ _ (omega arith) in
    rw (room, fits, nothing_left, start) (ap ok (append-nil (le 2 (size + 16) ++ sealed)))

-- The places of AUTH: the id, the version, the nonces, the sealed key, and room for the authenticator.
pub auth_packet_lem :
    (use_proxy : Bool) (id random_nonce server_nonce_prefix sealed_pk : List ℕ)
    → length id ≡ 8
    → length random_nonce ≡ 24
    → length server_nonce_prefix ≡ 16
    → length sealed_pk ≡ 48
    → (nonces : List ℕ) × (auth_packet use_proxy id random_nonce server_nonce_prefix sealed_pk
        ≡ ok ((((id ++ version_info) ++ nonces) ++ sealed_pk) ++ replicate 16 0))
      × (length nonces ≡ 40)
unfolding auth_packet
auth_packet_lem true id random_nonce prefix sealed_pk hi hr hp hs = (
  random_nonce ++ prefix,
  ground (
    arith,
    copy-output id [] 8 144,
    copy-output version_info id 32 136,
    copy-output random_nonce (id ++ version_info) 24 104,
    copy-output prefix ((id ++ version_info) ++ random_nonce) 16 80,
    append_assoc (id ++ version_info) random_nonce prefix,
    copy-output sealed_pk ((id ++ version_info) ++ (random_nonce ++ prefix)) 48 64,
  ),
  omega (arith, length-append random_nonce prefix),
)
auth_packet_lem false id random_nonce prefix sealed_pk hi hr hp hs = (
  prefix ++ random_nonce,
  ground (
    arith,
    copy-output id [] 8 144,
    copy-output version_info id 32 136,
    copy-output prefix (id ++ version_info) 16 104,
    copy-output random_nonce ((id ++ version_info) ++ prefix) 24 88,
    append_assoc (id ++ version_info) prefix random_nonce,
    copy-output sealed_pk ((id ++ version_info) ++ (prefix ++ random_nonce)) 48 64,
  ),
  omega (arith, length-append prefix random_nonce),
)

-- ===== src/Session/Machine.antt =====
-- The handshake and the packets of Session (src/protocol/session.cpp), one function for each method, and
-- the loop that drives them.
use ceema.Prelude.{
  ℕ, zero, suc, ◌+◌, ◌-◌, not, Bool, true, false, ◌&&◌, Option, none, some, List, [], ◌∷◌, ◌++◌,
  ltb, leb, ◌==◌, if◌then◌else◌, length, take, drop, replicate, list_eq, Result, Error, ok, err,
  session_exception, runtime_error, packet_type_exception, protocol_exception, socket_exception,
}
use ceema.Types.Iter.{letoh}
use ceema.Encoding.Crypto.{Crypto, mac_bytes, encrypt_inplace, decrypt_inplace, encrypt}
use ceema.Payload.MessagePayload.{Formats}
use ceema.Packet.PacketType.{PacketType}
use ceema.Packet.Acknowledgement
use ceema.Packet.KeepAlive
use ceema.Packet.Message
use ceema.Packet.Packet.{Packet, from_packet}
use ceema.Session.Wire.{auth_packet, frame}
use ceema.Session.State.{
  State, disconnected, wait_connect, wait_hello, wait_auth, wait_pkt_header, wait_pkt, Socket,
  Session, M, bind, pure, throw, lift, ◌>>=◌, ◌>>◌, get, put, throw_when, terminate,
  next_client_nonce, next_server_nonce, consume, send_bytes,
}

-- The two nonce prefixes, the key and the authenticator of the server's HELLO.
abbrev pub proto_hello_packet_size : ℕ
proto_hello_packet_size = 16 + 32 + 16 + 16

abbrev pub proto_ack_packet_size : ℕ
proto_ack_packet_size = 16 + 16

abbrev pub packet_length_size : ℕ
packet_length_size = 2

-- What a call of `TcpSocket::receive` returns: bytes, at most 4096 of them, or -1, 0, or an exception.
pub data Received : Type 0 where
  chunk : List ℕ → Received
  would_block end_of_file broken : Received

-- The two public keys of the server.
abbrev pub proxy_server_pk : List ℕ
proxy_server_pk =
    0xb8 ∷ 0x51 ∷ 0xae ∷ 0x1b ∷ 0xf2 ∷ 0x75 ∷ 0xeb ∷ 0xe6 ∷ 0x85 ∷ 0x1c ∷ 0xa7 ∷ 0xf5 ∷ 0x20 ∷ 0x6b
    ∷ 0x49 ∷ 0x50 ∷ 0x80 ∷ 0x92 ∷ 0x71 ∷ 0x59 ∷ 0x78 ∷ 0x7e ∷ 0x9a ∷ 0xaa ∷ 0xbb ∷ 0xeb ∷ 0x4e
    ∷ 0x55 ∷ 0xaf ∷ 0x09 ∷ 0xd8 ∷ 0x05 ∷ []

abbrev pub gateway_server_pk : List ℕ
gateway_server_pk =
    0x45 ∷ 0x0b ∷ 0x97 ∷ 0x57 ∷ 0x35 ∷ 0x27 ∷ 0x9f ∷ 0xde ∷ 0xcb ∷ 0x33 ∷ 0x13 ∷ 0x64 ∷ 0x8f ∷ 0x5f
    ∷ 0xc6 ∷ 0xee ∷ 0x9f ∷ 0xf4 ∷ 0x36 ∷ 0x0e ∷ 0xa9 ∷ 0x2a ∷ 0x8c ∷ 0x17 ∷ 0x51 ∷ 0xc6 ∷ 0x61
    ∷ 0xe4 ∷ 0xc0 ∷ 0xd8 ∷ 0xc9 ∷ 0x09 ∷ []

module _ (c : Crypto) (f : Formats) where
  -- The result of a box, or the exception for a refusal.
  abbrev pub or_throw : Error → Result (Option (List ℕ)) → M f (List ℕ)
  or_throw e (ok (some r)) = pure r
  or_throw e (ok none) = throw e
  or_throw e (err x) = throw x

  unfoldable pub send_hello : M f (Unit {0})
  unfolding send_bytes
  send_hello s = send_bytes (s.session_pk ++ s.nonce_prefix) s

  -- The opened HELLO: the server's short-term key, and the client's prefix, which must come back.
  unfoldable pub accept_hello : List ℕ → M f (Unit {0})
  accept_hello plain = do
    s ← get
    put (record s { session_server_pk = take 32 plain })
    throw_when (not (list_eq s.nonce_prefix (take 16 (drop 32 plain)))) session_exception

  unfoldable pub read_hello : M f (Unit {0})
  unfolding consume next_server_nonce accept_hello
  read_hello = do
    packet ← consume proto_hello_packet_size
    s ← get
    put (record s { server_nonce_prefix = take 16 packet })
    nonce ← next_server_nonce
    s ← get
    plain ←
        or_throw session_exception
          (decrypt_inplace c (drop 16 packet) nonce s.server_pk s.session_sk)
    accept_hello plain

  -- The random nonce is drawn by the call.
  unfoldable pub send_auth : List ℕ → M f (Unit {0})
  unfolding send_bytes next_client_nonce
  send_auth random_nonce = do
    s ← get
    sealed_pk ←
        or_throw runtime_error
          (encrypt c (32 + 16) s.session_pk random_nonce s.server_pk s.client.sk)
    packet ← lift (auth_packet s.use_proxy s.client.id random_nonce s.server_nonce_prefix sealed_pk)
    nonce ← next_client_nonce
    sealed ←
        or_throw runtime_error (encrypt_inplace c packet nonce s.session_server_pk s.session_sk)
    send_bytes sealed

  unfoldable pub read_ack : M f (Unit {0})
  unfolding consume next_server_nonce
  read_ack = do
    packet ← consume proto_ack_packet_size
    nonce ← next_server_nonce
    s ← get
    plain ←
        or_throw session_exception (decrypt_inplace c packet nonce s.session_server_pk s.session_sk)
    throw_when (not (list_eq (replicate 16 0) (take 16 plain))) session_exception

  -- `m_packetQueue.emplace_back(Packet::fromPacket(body))`, with the one exception that is caught.
  unfoldable pub enqueue : Result (Packet f) → M f (Unit {0})
  enqueue (ok p) s = (ok tt, record s { packet_queue = s.packet_queue ++ (p ∷ []) })
  enqueue (err packet_type_exception) s = (ok tt, s)
  enqueue (err e) s = (err e, s)

  unfoldable pub read_packet : ℕ → M f (Unit {0})
  unfolding consume next_server_nonce enqueue
  read_packet size = do
    body ← consume size
    throw_when (ltb size mac_bytes) session_exception
    nonce ← next_server_nonce
    s ← get
    body ←
        or_throw session_exception (decrypt_inplace c body nonce s.session_server_pk s.session_sk)
    enqueue (from_packet f (take (length body - mac_bytes) body))

  -- `send_packet(byte_vector const&)`
  unfoldable pub send_data : List ℕ → M f (Unit {0})
  unfolding send_bytes next_client_nonce
  send_data bytes = do
    nonce ← next_client_nonce
    s ← get
    sealed ← or_throw runtime_error (ok (c.box bytes nonce s.session_server_pk s.session_sk))
    packet ← lift (frame (length bytes) sealed)
    send_bytes packet

  -- What a packet is sent as; the types that only a server sends are refused.
  unfoldable pub outgoing : Packet f → Result (List ℕ)
  outgoing (Packet.acknowledgement a) = elim a.type [
    | PacketType.ack_client ↦ Acknowledgement.to_packet a
    | _ ↦ err protocol_exception
  ]
  outgoing (Packet.message m) = elim m.type [
    | PacketType.message_send ↦ Message.to_packet f m
    | _ ↦ err protocol_exception
  ]
  outgoing (Packet.keepalive k) = KeepAlive.to_packet k
  outgoing (Packet.status t) = err protocol_exception

  unfoldable pub send_packet : Packet f → M f (Unit {0})
  unfolding outgoing send_data
  send_packet packet = do bytes ← lift (outgoing packet); send_data bytes

  abbrev pub go_on : State → ℕ → M f (Unit {0})
  go_on next size s = (ok tt, record s { state = next; next_read_size = size })

  unfoldable pub read_header : M f (Unit {0})
  unfolding consume
  read_header = do
    header ← consume packet_length_size
    (size, _) ← lift (letoh 2 header)
    go_on wait_pkt size

  -- `packetReady`; the random nonce is the one that the HELLO case draws.
  unfoldable pub packet_ready : List ℕ → State → M f (Unit {0})
  unfolding send_hello read_hello send_auth read_ack read_header read_packet
  packet_ready random_nonce wait_connect = do send_hello; go_on wait_hello proto_hello_packet_size
  packet_ready random_nonce wait_hello = do
    read_hello
    send_auth random_nonce
    go_on wait_auth proto_ack_packet_size
  packet_ready random_nonce wait_auth = do read_ack; go_on wait_pkt_header packet_length_size
  packet_ready random_nonce wait_pkt_header = read_header
  packet_ready random_nonce wait_pkt = do
    s ← get
    read_packet s.next_read_size
    go_on wait_pkt_header packet_length_size
  packet_ready random_nonce disconnected = pure tt

  -- `if (m_state != State::DISCONNECTED) terminate();`
  abbrev pub clear_for : State → Session f → Session f
  clear_for disconnected s = s
  clear_for _ s = terminate s

  -- The part of `connect` in front of the key pair.
  abbrev pub opened : Socket → Bool → List ℕ → Session f → Session f
  opened socket use_proxy nonce_prefix s = record (clear_for s.state s) {
    socket = some socket;
    use_proxy = use_proxy;
    server_pk = if use_proxy then proxy_server_pk else gateway_server_pk;
    nonce_prefix = nonce_prefix;
    counter = if use_proxy then 0 else 1;
    server_counter = if use_proxy then 0 else 1;
  }

  -- `connect`, given the new socket, the random nonce prefix, and the key pair, if one is generated.
  unfoldable pub connect : Socket → Bool → List ℕ → Option (List ℕ × List ℕ) → M f (Unit {0})
  unfolding packet_ready terminate
  connect socket use_proxy nonce_prefix none s =
      (err runtime_error, opened socket use_proxy nonce_prefix s)
  connect socket use_proxy nonce_prefix (some (pk, sk)) s =
      packet_ready [] wait_connect (record (opened socket use_proxy nonce_prefix s) {
        session_pk = pk;
        session_sk = sk;
        state = wait_connect;
      })

  -- `m_nextReadSize && m_readBuffer.size() >= m_nextReadSize`
  unfoldable pub pending : Session f → Bool
  pending s = not (s.next_read_size == 0) && leb s.next_read_size (length s.read_buffer)

  -- `while (pending) packetReady();`, for at most so many rounds.
  unfoldable pub drain : ℕ → List ℕ → M f (Unit {0})
  unfolding pending
  drain zero random_nonce s = (ok tt, s)
  drain (suc fuel) random_nonce s = elim (pending s) [
    | true ↦ bind (packet_ready random_nonce s.state s) (λ _. drain fuel random_nonce)
    | false ↦ (ok tt, s)
  ]

  -- A round takes a byte at least from the read buffer, so there are rounds enough.
  unfoldable pub drain_all : List ℕ → M f (Unit {0})
  unfolding drain
  drain_all random_nonce s = drain (suc (length s.read_buffer)) random_nonce s

  -- The receive loop: it ends where nothing more is at hand, at the end of the stream, or where the
  -- socket throws; the answer is whether the stream goes on.
  unfoldable pub receive_all : List Received → M f Bool
  unfolding terminate
  receive_all [] s = (ok true, s)
  receive_all (chunk b ∷ more) s = receive_all more (record s { read_buffer = s.read_buffer ++ b })
  receive_all (would_block ∷ more) s = (ok true, s)
  receive_all (end_of_file ∷ more) s = (ok false, s)
  receive_all (broken ∷ more) s = (err socket_exception, terminate s)

  -- A session that is not connected reads nothing.
  unfoldable pub read_in : State → List Received → List ℕ → M f Bool
  unfolding receive_all drain_all
  read_in disconnected received random_nonce = pure false
  read_in _ received random_nonce = do
    open_stream ← receive_all received
    drain_all random_nonce
    pure open_stream

  unfoldable pub on_ready_read : List Received → List ℕ → M f Bool
  unfolding read_in
  on_ready_read received random_nonce s = read_in s.state received random_nonce s

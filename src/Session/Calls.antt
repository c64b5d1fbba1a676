-- ===== src/Session/Calls.antt =====
-- The public methods of Session, as the calls that its owner makes one after the other.
use ceema.Prelude.{
  ℕ, ◌≡◌, suc, ◌++◌, ◌⊎◌, inl, inr, refl, Bool, false, not, Option, none, some, List, [], ◌∷◌, ◌==◌,
  length, replicate, arith, Result, ok, err,
}
use ceema.Encoding.Crypto.{Crypto}
use ceema.Payload.MessagePayload.{Formats}
use ceema.Packet.Packet.{Packet}
use ceema.Contact.{Account}
use ceema.Session.State.{
  State, disconnected, wait_connect, wait_hello, wait_auth, wait_pkt_header, wait_pkt, Socket,
  Session, bind, terminate, on_ready_write, send_bytes,
}
use ceema.Session.Machine.{
  Received, chunk, would_block, end_of_file, broken, packet_ready, send_hello, go_on, connect,
  outgoing, send_packet, drain_all, receive_all, read_in, on_ready_read, clear_for, opened,
  send_data,
}
use ceema.Session.Invariant.{
  Quiet, Waits-Quiet, IsConsistent, on_ready_write-Quiet, send_data-Quiet,
}
use ceema.Session.Loop.{drain_ends}

module _ {f : Formats} where
  -- The constructor. It leaves the key of the server uninitialised, so that is an argument.
  unfoldable pub new_session : Account → List ℕ → Session f
  new_session client server_pk = record {
    nonce_prefix = replicate 16 0;
    server_nonce_prefix = replicate 16 0;
    counter = 0;
    server_counter = 0;
    session_pk = replicate 32 0;
    session_sk = replicate 32 0;
    session_server_pk = replicate 32 0;
    client = client;
    server_pk = server_pk;
    socket = none;
    use_proxy = false;
    state = disconnected;
    next_read_size = 0;
    read_buffer = [];
    write_buffer = [];
    packet_queue = [];
  }

  unfoldable pub has_packet : Session f → Bool
  has_packet s = not (length s.packet_queue == 0)

  -- The null pointer that an empty queue gives is `none`.
  unfoldable pub get_packet : Session f → Option (Packet f) × Session f
  get_packet s = elim s.packet_queue [
    | [] ↦ (none, s)
    | p ∷ more ↦ (some p, record s { packet_queue = more })
  ]

-- A call of a public method, with what the socket and the random source give during it.
pub data Call (f : Formats) : Type 0 where
  connecting : Socket → Bool → List ℕ → Option (List ℕ × List ℕ) → Call f
  reading : List Received → List ℕ → Call f
  writing : Call f
  sending : Packet f → Call f
  getting : Call f
  terminating : Call f

module _ (c : Crypto) (f : Formats) where
  -- The session after a call, whether or not it throws.
  unfoldable pub after_call : Call f → Session f → Session f
  unfolding connect on_ready_read on_ready_write send_packet get_packet terminate
  after_call (connecting socket use_proxy prefix keys) s =
      (connect c f socket use_proxy prefix keys s).1
  after_call (reading received random_nonce) s = (on_ready_read c f received random_nonce s).1
  after_call writing s = (on_ready_write s).1
  after_call (sending packet) s = (send_packet c f packet s).1
  after_call getting s = (get_packet s).1
  after_call terminating s = terminate s

  unfoldable pub after_calls : List (Call f) → Session f → Session f
  unfolding after_call
  after_calls [] s = s
  after_calls (call ∷ calls) s = after_calls calls (after_call call s)

  -- A HELLO that is not sent ends the session.
  send_hello_ends :
      (s : Session f)
      → ((send_hello c f s).0 ≡ ok tt)
        ⊎ (((send_hello c f s).1.state ≡ disconnected) × ((send_hello c f s).1.next_read_size ≡ 0))
  unfolding send_hello send_bytes on_ready_write terminate
  send_hello_ends s = ground arith

  opening-IsConsistent : (s : Session f) → IsConsistent (packet_ready c f [] wait_connect s).1
  unfolding packet_ready
  opening-IsConsistent s = go (send_hello c f s) (send_hello_ends s)
    where
      go :
          (r : Result (Unit {0}) × Session f)
          → (r.0 ≡ ok tt) ⊎ ((r.1.state ≡ disconnected) × (r.1.next_read_size ≡ 0))
          → IsConsistent (bind r (λ _. go_on c f wait_hello 80)).1
      go (ok x, s') h = refl
      go (err e, s') (inl h) = absurd (ground arith)
      go (err e, s') (inr (p, q)) = rw (p, q) refl

  receive_all-Quiet :
      (received : List Received) (s : Session f) → Quiet s (receive_all c f received s).1
  unfolding receive_all terminate
  receive_all-Quiet [] s = inl (refl, refl)
  receive_all-Quiet (chunk b ∷ more) s =
      receive_all-Quiet more (record s { read_buffer = s.read_buffer ++ b })
  receive_all-Quiet (would_block ∷ more) s = inl (refl, refl)
  receive_all-Quiet (end_of_file ∷ more) s = inl (refl, refl)
  receive_all-Quiet (broken ∷ more) s = inr (refl, refl)

  drain_all-IsConsistent :
      (n : List ℕ) (s : Session f) → IsConsistent s → IsConsistent (drain_all c f n s).1
  unfolding drain_all
  drain_all-IsConsistent n s h = (drain_ends c f (suc (length s.read_buffer)) n s (omega arith) h).1

  reading-IsConsistent :
      (received : List Received) (n : List ℕ) (s : Session f)
      → IsConsistent s
      → IsConsistent
          (bind
            (receive_all c f received s)
            (λ open_stream s'. bind (drain_all c f n s') (λ _ s''. (ok open_stream, s'')))).1
  reading-IsConsistent received n s h =
      go (receive_all c f received s)
        (Waits-Quiet s (receive_all c f received s).1 (receive_all-Quiet received s) h)
    where
      close :
          (b : Bool) (r : Result (Unit {0}) × Session f)
          → IsConsistent r.1
          → IsConsistent (bind r (λ _ s''. (ok b, s''))).1
      close b (ok x, s') h = h
      close b (err e, s') h = h

      go :
          (r : Result Bool × Session f)
          → IsConsistent r.1
          → IsConsistent
              (bind r
                (λ open_stream s'. bind (drain_all c f n s') (λ _ s''. (ok open_stream, s'')))).1
      go (ok b, s') h = close b (drain_all c f n s') (drain_all-IsConsistent n s' h)
      go (err e, s') h = h

  read_in-IsConsistent :
      (t : State) (received : List Received) (n : List ℕ) (s : Session f)
      → IsConsistent s
      → IsConsistent (read_in c f t received n s).1
  unfolding read_in
  read_in-IsConsistent disconnected received n s h = h
  read_in-IsConsistent wait_connect received n s h = reading-IsConsistent received n s h
  read_in-IsConsistent wait_hello received n s h = reading-IsConsistent received n s h
  read_in-IsConsistent wait_auth received n s h = reading-IsConsistent received n s h
  read_in-IsConsistent wait_pkt_header received n s h = reading-IsConsistent received n s h
  read_in-IsConsistent wait_pkt received n s h = reading-IsConsistent received n s h

  send_packet-IsConsistent :
      (p : Packet f) (s : Session f) → IsConsistent s → IsConsistent (send_packet c f p s).1
  unfolding send_packet
  send_packet-IsConsistent p s h = go (outgoing c f p)
    where
      go : (r : Result (List ℕ)) → IsConsistent (bind (r, s) (send_data c f)).1
      go (ok b) = Waits-Quiet s (send_data c f b s).1 (send_data-Quiet c f b s) h
      go (err e) = h

  get_packet-IsConsistent : (s : Session f) → IsConsistent s → IsConsistent (get_packet s).1
  unfolding get_packet
  get_packet-IsConsistent s h = go s.packet_queue
    where
      go :
          (queue : List (Packet f))
          → IsConsistent
              (elim queue as (λ _. Option (Packet f) × Session f) [
                | [] ↦ (none, s)
                | p ∷ more ↦ (some p, record s { packet_queue = more })
              ]).1
      go [] = h
      go (p ∷ more) = h

  clear_for-IsConsistent :
      (t : State) (s : Session f) → IsConsistent s → s.state ≡ t → IsConsistent (clear_for c f t s)
  unfolding terminate
  clear_for-IsConsistent disconnected s h e = h
  clear_for-IsConsistent wait_connect s h e = refl
  clear_for-IsConsistent wait_hello s h e = refl
  clear_for-IsConsistent wait_auth s h e = refl
  clear_for-IsConsistent wait_pkt_header s h e = refl
  clear_for-IsConsistent wait_pkt s h e = refl

  pub after_call-IsConsistent :
      (call : Call f) (s : Session f) → IsConsistent s → IsConsistent (after_call call s)
  unfolding after_call connect on_ready_read terminate
  after_call-IsConsistent (connecting socket use_proxy prefix none) s h =
      clear_for-IsConsistent s.state s h refl
  after_call-IsConsistent (connecting socket use_proxy prefix (some (pk, sk))) s h =
      opening-IsConsistent (record (opened c f socket use_proxy prefix s) {
        session_pk = pk;
        session_sk = sk;
        state = wait_connect;
      })
  after_call-IsConsistent (reading received n) s h = read_in-IsConsistent s.state received n s h
  after_call-IsConsistent writing s h =
      Waits-Quiet s (on_ready_write s).1 (on_ready_write-Quiet s) h
  after_call-IsConsistent (sending p) s h = send_packet-IsConsistent p s h
  after_call-IsConsistent getting s h = get_packet-IsConsistent s h
  after_call-IsConsistent terminating s h = refl

  keeps-IsConsistent :
      (calls : List (Call f)) (s : Session f) → IsConsistent s → IsConsistent (after_calls calls s)
  unfolding after_calls
  keeps-IsConsistent [] s h = h
  keeps-IsConsistent (call ∷ calls) s h =
      keeps-IsConsistent calls (after_call call s) (after_call-IsConsistent call s h)

  -- After any calls of its public methods, whatever arrives and whether or not they throw, a
  -- session is in a state other than WAIT_CONNECT and waits for as many bytes as the round of that
  -- state reads, and for none when it is disconnected.
  pub after_calls-IsConsistent :
      (calls : List (Call f)) (client : Account) (server_pk : List ℕ)
      → IsConsistent (after_calls calls (new_session client server_pk))
  unfolding new_session
  after_calls-IsConsistent calls client server_pk =
      keeps-IsConsistent calls (new_session client server_pk) refl

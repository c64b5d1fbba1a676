-- ===== src/Session/Invariant.antt =====
-- How many bytes a session of src/protocol/session.cpp waits for in each state, and what a round of
-- `packetReady` does to that.
use ceema.Prelude.{
  ℕ, ◌≡◌, ◌⊎◌, inl, inr, refl, Option, none, some, List, arith, Result, ok, err, Error,
}
use ceema.Types.Iter.{letoh}
use ceema.Encoding.Crypto.{Crypto, decrypt_inplace}
use ceema.Payload.MessagePayload.{Formats}
use ceema.Session.State.{
  State, disconnected, wait_connect, wait_hello, wait_auth, wait_pkt_header, wait_pkt, Session,
  on_ready_write, send_bytes, consume, bind, M, ◌>>◌,
}
use ceema.Session.Machine.{
  or_throw, read_hello, send_auth, read_ack, read_packet, send_data, packet_ready, read_header,
  go_on,
}

module _ {f : Formats} where
  -- The call kept the state, or the session is disconnected.
  abbrev pub Quiet : Session f → Session f → Type 0
  Quiet s s' =
      ((s'.state ≡ s.state) × (s'.next_read_size ≡ s.next_read_size))
      ⊎ ((s'.state ≡ disconnected) × (s'.next_read_size ≡ 0))

  pub on_ready_write-Quiet : (s : Session f) → Quiet s (on_ready_write s).1
  unfolding on_ready_write
  on_ready_write-Quiet s = ground arith

  pub send_bytes-Quiet : (out : List ℕ) (s : Session f) → Quiet s (send_bytes out s).1
  unfolding send_bytes
  send_bytes-Quiet out s = ground arith

module _ (c : Crypto) (f : Formats) where
  or_throw-same :
      (e : Error) (r : Result (Option (List ℕ))) (s : Session f) → (or_throw c f e r s).1 ≡ s
  or_throw-same e (ok (some r)) s = refl
  or_throw-same e (ok none) s = refl
  or_throw-same e (err x) s = refl

  pub read_hello-Quiet : (s : Session f) → Quiet s (read_hello c f s).1
  unfolding read_hello decrypt_inplace
  read_hello-Quiet s = ground arith

  pub send_auth-Quiet : (n : List ℕ) (s : Session f) → Quiet s (send_auth c f n s).1
  unfolding send_auth
  send_auth-Quiet n s = ground arith

  pub read_ack-Quiet : (s : Session f) → Quiet s (read_ack c f s).1
  unfolding read_ack
  read_ack-Quiet s = ground arith

  pub read_packet-Quiet : (n : ℕ) (s : Session f) → Quiet s (read_packet c f n s).1
  unfolding read_packet
  read_packet-Quiet n s = ground arith

  pub send_data-Quiet : (b : List ℕ) (s : Session f) → Quiet s (send_data c f b s).1
  unfolding send_data
  send_data-Quiet b s = ground arith

-- How many bytes a session in each state waits for. WAIT_CONNECT is left before a call returns.
abbrev pub Waits : State → ℕ → Type 0
Waits disconnected n = n ≡ 0
Waits wait_connect n = ⊥
Waits wait_hello n = n ≡ 80
Waits wait_auth n = n ≡ 32
Waits wait_pkt_header n = n ≡ 2
Waits wait_pkt n = Unit {0}

module _ {f : Formats} where
  abbrev pub IsConsistent : Session f → Type 0
  IsConsistent s = Waits s.state s.next_read_size

  pub Waits-Quiet : (s s' : Session f) → Quiet s s' → IsConsistent s → IsConsistent s'
  Waits-Quiet s s' (inl (p, q)) h = rw (p, q) h
  Waits-Quiet s s' (inr (p, q)) h = rw (p, q) refl

module _ (c : Crypto) (f : Formats) where
  abbrev after_round : Result (Unit {0}) × Session f → State → ℕ → Result (Unit {0}) × Session f
  after_round (ok _, s) next size = (ok tt, record s { state = next; next_read_size = size })
  after_round (err e, s) next size = (err e, s)

  after_round-IsConsistent :
      (s : Session f) (r : Result (Unit {0}) × Session f) (next : State) (size : ℕ)
      → IsConsistent s
      → Quiet s r.1
      → Waits next size
      → IsConsistent (after_round r next size).1
  after_round-IsConsistent s (ok _, s') next size h q w = w
  after_round-IsConsistent s (err e, s') next size h q w = Waits-Quiet s s' q h

  -- The three rounds that read a packet, as their method and the next state.
  round_of : List ℕ → State → Session f → Result (Unit {0}) × Session f
  round_of n wait_hello s = bind (read_hello c f s) (λ _. send_auth c f n)
  round_of n wait_auth s = read_ack c f s
  round_of n wait_pkt s = read_packet c f s.next_read_size s
  round_of n _ s = (ok tt, s)

  Quiet-trans : (a b d : Session f) → Quiet a b → Quiet b d → Quiet a d
  Quiet-trans a b d p q = ground arith

  round_of-Quiet : (n : List ℕ) (t : State) (s : Session f) → Quiet s (round_of n t s).1
  unfolding round_of
  round_of-Quiet n wait_hello s = go (read_hello c f s) (read_hello-Quiet c f s)
    where
      go :
          (r : Result (Unit {0}) × Session f)
          → Quiet s r.1
          → Quiet s (bind r (λ _. send_auth c f n)).1
      go (ok x, s') q = Quiet-trans s s' (send_auth c f n s').1 q (send_auth-Quiet c f n s')
      go (err e, s') q = q
  round_of-Quiet n wait_auth s = read_ack-Quiet c f s
  round_of-Quiet n wait_pkt s = read_packet-Quiet c f s.next_read_size s
  round_of-Quiet n _ s = inl (refl, refl)

  pub read_header-IsConsistent :
      (s : Session f) → IsConsistent s → IsConsistent (read_header c f s).1
  unfolding read_header consume letoh
  read_header-IsConsistent s h = ground arith

  bind-go_on :
      (r : Result (Unit {0}) × Session f) (next : State) (size : ℕ)
      → bind r (λ _. go_on c f next size) ≡ after_round r next size
  bind-go_on (ok x, s) next size = refl
  bind-go_on (err e, s) next size = refl

  bind-bind :
      (r : Result (Unit {0}) × Session f) (k l : M f (Unit {0}))
      → bind r (λ _. ◌>>◌ k l) ≡ bind (bind r (λ _. k)) (λ _. l)
  bind-bind (ok x, s) k l = refl
  bind-bind (err e, s) k l = refl

  -- A round from a consistent session, whatever bytes it reads and whether or not it throws, ends
  -- in a state that is not WAIT_CONNECT and waits for as many bytes as the round of that state
  -- reads.
  pub packet_ready-IsConsistent :
      (n : List ℕ) (t : State) (s : Session f)
      → s.state ≡ t
      → IsConsistent s
      → IsConsistent (packet_ready c f n t s).1
  unfolding packet_ready round_of
  packet_ready-IsConsistent n wait_connect s e h = absurd (rw e at h)
  packet_ready-IsConsistent n wait_hello s e h =
      rw (bind-bind (read_hello c f s) (send_auth c f n) (go_on c f wait_auth 32)) (
        rw (bind-go_on (round_of n wait_hello s) wait_auth 32) (
          after_round-IsConsistent s (round_of n wait_hello s) wait_auth 32 h
            (round_of-Quiet n wait_hello s) refl))
  packet_ready-IsConsistent n wait_auth s e h =
      rw (bind-go_on (read_ack c f s) wait_pkt_header 2) (
        after_round-IsConsistent s (read_ack c f s) wait_pkt_header 2 h (read_ack-Quiet c f s) refl)
  packet_ready-IsConsistent n wait_pkt_header s e h = read_header-IsConsistent s h
  packet_ready-IsConsistent n wait_pkt s e h =
      rw (bind-go_on (read_packet c f s.next_read_size s) wait_pkt_header 2) (
        after_round-IsConsistent s (read_packet c f s.next_read_size s) wait_pkt_header 2 h
          (read_packet-Quiet c f s.next_read_size s) refl)
  packet_ready-IsConsistent n disconnected s e h = h

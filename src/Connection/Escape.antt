-- ===== src/Connection/Escape.antt =====
-- Which exceptions leave `on_session_data_read`: it is called from C, so that one ends the program.
use ceema.Prelude.{
  ℕ, suc, ◌≡◌, ◌≢◌, ◌⊎◌, inl, inr, refl, Bool, true, false, not, List, [], ◌∷◌, ◌++◌, length, ◌<◌,
  ◌==◌, arith, Result, ok, err, socket_exception, logic_error, out_of_bounds,
}
use ceema.Encoding.Crypto.{Crypto}
use ceema.Payload.MessagePayload.{Formats}
use ceema.Session.State.{
  State as SessionState, Session, Sent, next_send, terminate, on_ready_write, bind,
}
use ceema.Session.Machine.{
  Received, chunk, would_block, end_of_file, broken, receive_all, drain_all, read_in, on_ready_read,
}
use ceema.Session.Chunks.{Connected, drain-Connected}
use ceema.Connection.{
  State, disconnected, connecting, authenticating, connected, Connection, follow, advance,
  authenticate,
}
use ceema.Connection.Read.{Handler, read_packets}
use ceema.Connection.Handlers.{
  written, on_session_data_write, continue_authentication, packets_read, use_packets, data_read,
  on_session_data_read,
}

module _ {f : Formats} where
  -- The connection still shakes hands, but its session is disconnected.
  abbrev pub IsTorn : Connection f → Type 0
  IsTorn k = (k.state ≡ authenticating) × (k.session.state ≡ SessionState.disconnected)

module _ (c : Crypto) (f : Formats) where
  bound-Connected :
      {A B : Type 0} (n : List ℕ) (r : Result A × Session f)
      (next : A → Session f → Result B × Session f)
      → Connected c f n r
      → ((a : A) (s : Session f) → s.state ≢ SessionState.disconnected → Connected c f n (next a s))
      → Connected c f n (bind r next)
  bound-Connected n (ok a, s) next h g = g a s h
  bound-Connected n (err e, s) next h g = tt

  receive_all-Connected :
      (n : List ℕ) (received : List Received) (s : Session f)
      → s.state ≢ SessionState.disconnected
      → Connected c f n (receive_all c f received s)
  unfolding receive_all
  receive_all-Connected n [] s h = h
  receive_all-Connected n (chunk b ∷ more) s h =
      receive_all-Connected n more (record s { read_buffer = s.read_buffer ++ b }) h
  receive_all-Connected n (would_block ∷ more) s h = h
  receive_all-Connected n (end_of_file ∷ more) s h = h
  receive_all-Connected n (broken ∷ more) s h = tt

  -- A connected session is connected behind a read that does not throw.
  on_ready_read-Connected :
      (received : List Received) (n : List ℕ) (s : Session f)
      → s.state ≢ SessionState.disconnected
      → Connected c f n (on_ready_read c f received n s)
  unfolding on_ready_read read_in drain_all
  on_ready_read-Connected received n s h = go s.state h
    where
      reading : Connected c f n (
          bind
            (receive_all c f received s)
            (λ open_stream s'. bind (drain_all c f n s') (λ _ s''. (ok open_stream, s''))))
      reading =
          bound-Connected n (receive_all c f received s)
            (λ open_stream s'. bind (drain_all c f n s') (λ _ s''. (ok open_stream, s'')))
            (receive_all-Connected n received s h)
            (λ open_stream s' h'.
              bound-Connected n (drain_all c f n s') (λ _ s''. (ok open_stream, s''))
                (drain-Connected c f n (suc (length s'.read_buffer)) s' h') (λ _ s'' h''. h''))

      go :
          (t : SessionState)
          → t ≢ SessionState.disconnected
          → Connected c f n (read_in c f t received n s)
      go SessionState.disconnected h = absurd (h refl)
      go SessionState.wait_connect h = reading
      go SessionState.wait_hello h = reading
      go SessionState.wait_auth h = reading
      go SessionState.wait_pkt_header h = reading
      go SessionState.wait_pkt h = reading

module _ (c : Crypto) (f : Formats) (handler : Handler f) where
  -- Nothing that a catch clause stops leaves the call.
  abbrev Stays : Result (Unit {0}) → Type 0
  Stays r = (r ≡ ok tt) ⊎ (r ≡ err out_of_bounds)

  packets_read-Stays :
      (eof : Bool) (r : Result (Unit {0}) × Connection f) → Stays (packets_read c f handler eof r).0
  unfolding packets_read
  packets_read-Stays eof r = ground arith

  use_packets-Stays : (eof : Bool) (k : Connection f) → Stays (use_packets c f handler eof k).0
  unfolding use_packets
  use_packets-Stays eof k = go k.state refl
    where
      go : (t : State) → k.state ≡ t → Stays (use_packets c f handler eof k).0
      go disconnected e = rw (e, use_packets) (inl refl)
      go connecting e = rw (e, use_packets) (inl refl)
      go authenticating e = rw (e, use_packets) (inl refl)
      go connected e = rw (e, use_packets) (packets_read-Stays eof (read_packets c f handler k))

  continue_authentication_returns :
      (k : Connection f)
      → (k.state ≢ authenticating) ⊎ (k.session.state ≢ SessionState.disconnected)
      → (continue_authentication c f handler k).0 ≡ ok tt
  unfolding continue_authentication authenticate advance
  continue_authentication_returns k h = go k.state refl h
    where
      step :
          (t : SessionState) (k : Connection f)
          → t ≢ SessionState.disconnected
          → (follow {A = Bool} {B = Unit {0}} (advance t k) (λ _ k'. (ok tt, k'))).0 ≡ ok tt
      step SessionState.disconnected k h = absurd (h refl)
      step SessionState.wait_connect k h = refl
      step SessionState.wait_hello k h = refl
      step SessionState.wait_auth k h = refl
      step SessionState.wait_pkt_header k h = refl
      step SessionState.wait_pkt k h = refl

      go :
          (t : State)
          → k.state ≡ t
          → (t ≢ authenticating) ⊎ (k.session.state ≢ SessionState.disconnected)
          → (continue_authentication c f handler k).0 ≡ ok tt
      go disconnected e h = rw e refl
      go connecting e h = rw e refl
      go connected e h = rw e refl
      go authenticating e (inl h) = absurd (h refl)
      go authenticating e (inr h) =
          rw e (step k.session.state (record k { state = authenticating }) h)

  data_read-Stays :
      (n : List ℕ) (r : Result Bool × Session f) (k : Connection f)
      → (k.state ≢ authenticating) ⊎ Connected c f n r
      → Stays (data_read c f handler r k).0
  unfolding data_read
  data_read-Stays n (ok b, s) k h =
      go (continue_authentication c f handler (record k { session = s }))
        (continue_authentication_returns (record k { session = s }) h)
    where
      go :
          (r : Result (Unit {0}) × Connection f)
          → r.0 ≡ ok tt
          → Stays (follow r (λ _ k'. use_packets c f handler (not b) k')).0
      go (ok x, k') h = use_packets-Stays (not b) k'
      go (err e, k') h = absurd (ground arith)
  data_read-Stays n (err e, s) k h = ground arith

  torn_throws :
      (received : List Received) (n : List ℕ) (k : Connection f)
      → IsTorn k
      → (on_session_data_read c f handler true received n k).0 ≡ err logic_error
  unfolding on_session_data_read on_ready_read read_in data_read continue_authentication
      authenticate advance
  torn_throws received n k (p, q) = rw (p, q) refl

  -- An exception leaves the read callback exactly if the connection authenticates while its session
  -- is disconnected, and it is std::logic_error then; otherwise the callback returns, or the code
  -- leaves a buffer.
  pub on_session_data_read_escapes :
      (received : List Received) (n : List ℕ) (k : Connection f)
      → (IsTorn k × ((on_session_data_read c f handler true received n k).0 ≡ err logic_error))
        ⊎ ((IsTorn k → ⊥)
            × (((on_session_data_read c f handler true received n k).0 ≡ ok tt)
                ⊎ ((on_session_data_read c f handler true received n k).0 ≡ err out_of_bounds)))
  unfolding on_session_data_read
  on_session_data_read_escapes received n k = go k.state refl k.session.state refl
    where
      stays :
          (k.state ≢ authenticating) ⊎ (k.session.state ≢ SessionState.disconnected)
          → Stays (on_session_data_read c f handler true received n k).0
      stays (inl h) = data_read-Stays n (on_ready_read c f received n k.session) k (inl h)
      stays (inr h) =
          data_read-Stays n (on_ready_read c f received n k.session) k
            (inr (on_ready_read-Connected c f received n k.session h))

      Answer : Type 0
      Answer =
          (IsTorn k × ((on_session_data_read c f handler true received n k).0 ≡ err logic_error))
          ⊎ ((IsTorn k → ⊥) × Stays (on_session_data_read c f handler true received n k).0)

      other : (k.state ≢ authenticating) ⊎ (k.session.state ≢ SessionState.disconnected) → Answer
      other (inl h) = inr (λ p. h p.0, stays (inl h))
      other (inr h) = inr (λ p. h p.1, stays (inr h))

      go : (t : State) → k.state ≡ t → (u : SessionState) → k.session.state ≡ u → Answer
      go disconnected p u q = other (inl (λ e. ground arith))
      go connecting p u q = other (inl (λ e. ground arith))
      go connected p u q = other (inl (λ e. ground arith))
      go authenticating p SessionState.disconnected q =
          inl ((p, q), torn_throws received n k (p, q))
      go authenticating p SessionState.wait_connect q = other (inr (λ e. ground arith))
      go authenticating p SessionState.wait_hello q = other (inr (λ e. ground arith))
      go authenticating p SessionState.wait_auth q = other (inr (λ e. ground arith))
      go authenticating p SessionState.wait_pkt_header q = other (inr (λ e. ground arith))
      go authenticating p SessionState.wait_pkt q = other (inr (λ e. ground arith))

  -- A write that fails during the handshake returns to libpurple with the read handler left as it
  -- was, and the next read callback, whatever has arrived, throws std::logic_error.
  pub broken_write_escapes :
      (received : List Received) (n : List ℕ) (k : Connection f)
      → k.state ≡ authenticating
      → 0 < length k.session.write_buffer
      → next_send k.session.socket ≡ Sent.fails
      → ((on_session_data_write c f true k).0 ≡ ok tt)
        × ((on_session_data_write c f true k).1.input_handler_read ≡ k.input_handler_read)
        × ((on_session_data_read c f handler true received n (on_session_data_write c f true k).1).0
            ≡ err logic_error)
  unfolding on_session_data_write on_ready_write terminate written
  broken_write_escapes received n k p q e =
      let nonempty : (length k.session.write_buffer == 0) ≡ false = ground arith in
      rw (nonempty, e)
        (
          refl,
          refl,
          torn_throws received n (written c f (err socket_exception, terminate k.session) k).1
              (p, refl),
        )

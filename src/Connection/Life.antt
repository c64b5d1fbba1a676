-- ===== src/Connection/Life.antt =====
-- What on_session_data_read of ThreeplConnection keeps, and so what holds in all a connection's life.
use ceema.Prelude.{
  length, ℕ, ◌≡◌, refl, Bool, true, false, not, List, Result, Error, ok, err, protocol_exception,
  message_exception, packet_type_exception, session_exception, socket_exception, crypto_error,
  runtime_error, logic_error, out_of_bounds,
}
use ceema.Encoding.Crypto.{Crypto}
use ceema.Payload.MessagePayload.{Formats}
use ceema.Session.State.{State as SessionState, Session}
use ceema.Session.Machine.{Received, on_ready_read}
use ceema.Session.Calls.{after_call, after_call-IsConsistent, Call, new_session}
use ceema.Connection.{
  State, disconnected, connecting, authenticating, connected, Connection, follow, new_connection,
  advance, authenticate,
}
use ceema.Connection.Read.{Handler, read_packets}
use ceema.Connection.Handlers.{
  continue_authentication, end_read, packets_read, use_packets, data_read, on_session_data_read,
  has_write_data,
}
use ceema.Connection.Established.{on_ready_read-IsEstablished}
use ceema.Connection.Steps.{Step, Reachable}
use ceema.Connection.Soundness.{
  IsSound, IsConsistent-IsSound, close-IsSound, start_connect-IsSound, send_packet-IsSound,
}
use ceema.Connection.Dispatch.{take_packets-IsSound}
use ceema.Connection.Callbacks.{
  IsOpen, IsNext, next-IsSound, reads-IsOpen, on_connect-IsSound, on_session_data_write-IsSound,
}

module _ (c : Crypto) (f : Formats) (handler : Handler f) where
  advance-IsSound :
      (k : Connection f)
      → k.state ≡ authenticating
      → IsSound k
      → IsSound (advance k.session.state k).1
  unfolding advance
  advance-IsSound k e h = go k.session.state refl
    where
      go : (t : SessionState) → k.session.state ≡ t → IsSound (advance t k).1
      go SessionState.disconnected q = h
      go SessionState.wait_connect q = h
      go SessionState.wait_hello q = h
      go SessionState.wait_auth q = h
      go SessionState.wait_pkt_header q = let (a, b) = (rw e at h) in (a, b, rw q tt)
      go SessionState.wait_pkt q = let (a, b) = (rw e at h) in (a, b, rw q tt)

  continue_authentication-IsSound :
      (k : Connection f) → IsSound k → IsSound (continue_authentication c f handler k).1
  unfolding continue_authentication authenticate
  continue_authentication-IsSound k h = go k.state refl
    where
      kept :
          (r : Result Bool × Connection f)
          → IsSound r.1
          → IsSound (follow {A = Bool} {B = Unit {0}} r (λ _ k'. (ok tt, k'))).1
      kept (ok b, k') h = h
      kept (err e, k') h = h

      go : (t : State) → k.state ≡ t → IsSound (continue_authentication c f handler k).1
      go disconnected e = rw e (rw e at h)
      go connecting e = rw e (rw e at h)
      go connected e = rw e (rw e at h)
      go authenticating e = rw e (
          kept (advance k.session.state (record k { state = authenticating }))
            (advance-IsSound (record k { state = authenticating }) refl (rw e at h)))

  end_read-IsSound :
      (eof : Bool) (k : Connection f) → IsSound k → IsSound (end_read c f handler eof k)
  unfolding end_read has_write_data
  end_read-IsSound eof k h = go k.state refl eof
    where
      go : (t : State) → k.state ≡ t → (b : Bool) → IsSound (end_read c f handler b k)
      go disconnected e b =
          let (wiped, u, v, w) = (rw e at h) in
          let (a, b, d, n, p, q, r, o) = wiped in
          rw (e, o, w) ((a, b, d, n, p, q, r, refl), u, v, refl)
      go connecting e true = rw e (close-IsSound (record k { state = connecting }) (rw e at h))
      go connecting e false =
          let (wiped, u, v, w) = (rw e at h) in
          let (a, b, d, n, p, q, r, o) = wiped in
          rw (e, o, w) ((a, b, d, n, p, q, r, refl), u, v, refl)
      go authenticating e true =
          rw e (close-IsSound (record k { state = authenticating }) (rw e at h))
      go authenticating e false = rw e (rw e at h)
      go connected e true = rw e (close-IsSound (record k { state = connected }) (rw e at h))
      go connected e false = rw e (rw e at h)

  packets_read-IsSound :
      (eof : Bool) (r : Result (Unit {0}) × Connection f)
      → IsSound r.1
      → IsSound (packets_read c f handler eof r).1
  unfolding packets_read
  packets_read-IsSound eof (ok x, k) h = end_read-IsSound eof k h
  packets_read-IsSound eof (err out_of_bounds, k) h = h
  packets_read-IsSound eof (err protocol_exception, k) h = close-IsSound k h
  packets_read-IsSound eof (err message_exception, k) h = close-IsSound k h
  packets_read-IsSound eof (err packet_type_exception, k) h = close-IsSound k h
  packets_read-IsSound eof (err session_exception, k) h = close-IsSound k h
  packets_read-IsSound eof (err socket_exception, k) h = close-IsSound k h
  packets_read-IsSound eof (err crypto_error, k) h = close-IsSound k h
  packets_read-IsSound eof (err runtime_error, k) h = close-IsSound k h
  packets_read-IsSound eof (err logic_error, k) h = close-IsSound k h

  use_packets-IsSound :
      (eof : Bool) (k : Connection f) → IsSound k → IsSound (use_packets c f handler eof k).1
  unfolding use_packets read_packets
  use_packets-IsSound eof k h = go k.state refl
    where
      go : (t : State) → k.state ≡ t → IsSound (use_packets c f handler eof k).1
      go disconnected e = rw (e, use_packets) (end_read-IsSound eof k h)
      go connecting e = rw (e, use_packets) (end_read-IsSound eof k h)
      go authenticating e = rw (e, use_packets) (end_read-IsSound eof k h)
      go connected e =
          rw (e, use_packets)
            (packets_read-IsSound eof (read_packets c f handler k)
              (take_packets-IsSound c f handler (length k.session.packet_queue) k h))

  data_read-IsSound :
      (r : Result Bool × Session f) (k : Connection f)
      → IsOpen k.state
      → IsSound k
      → IsNext k r.1
      → IsSound (data_read c f handler r k).1
  unfolding data_read
  data_read-IsSound (ok b, s) k o h n =
      go (continue_authentication c f handler (record k { session = s })) (
        continue_authentication-IsSound (record k { session = s })
          (next-IsSound k s k.input_handler_write o h n))
    where
      go :
          (r : Result (Unit {0}) × Connection f)
          → IsSound r.1
          → IsSound (follow r (λ _ k'. use_packets c f handler (not b) k')).1
      go (ok x, k') h = use_packets-IsSound (not b) k' h
      go (err e, k') h = h
  data_read-IsSound (err e, s) k o h n = go e (next-IsSound k s k.input_handler_write o h n)
    where
      go :
          (e : Error)
          → IsSound (record k { session = s })
          → IsSound (data_read c f handler (err e, s) k).1
      go out_of_bounds h = h
      go socket_exception h = h
      go protocol_exception h = close-IsSound (record k { session = s }) h
      go message_exception h = close-IsSound (record k { session = s }) h
      go packet_type_exception h = close-IsSound (record k { session = s }) h
      go session_exception h = close-IsSound (record k { session = s }) h
      go crypto_error h = close-IsSound (record k { session = s }) h
      go runtime_error h = close-IsSound (record k { session = s }) h
      go logic_error h = close-IsSound (record k { session = s }) h

  on_session_data_read-IsSound :
      (ready : Bool) (received : List Received) (n : List ℕ) (k : Connection f)
      → IsSound k
      → k.input_handler_read ≡ true
      → IsSound (on_session_data_read c f handler ready received n k).1
  unfolding on_session_data_read after_call
  on_session_data_read-IsSound true received n k h e =
      data_read-IsSound (on_ready_read c f received n k.session) k (reads-IsOpen k h e) h (
        after_call-IsConsistent c f (Call.reading received n) k.session (IsConsistent-IsSound k h),
        on_ready_read-IsEstablished c f received n k.session,
      )
  on_session_data_read-IsSound false received n k h e =
      data_read-IsSound (ok true, k.session) k (reads-IsOpen k h e) h
        (IsConsistent-IsSound k h, λ x. x)

  Step-IsSound : (k k' : Connection f) → Step c f handler k k' → IsSound k → IsSound k'
  Step-IsSound _ _ (Step.starting begun k) h = start_connect-IsSound begun k h
  Step-IsSound _ _ (Step.closing k) h = close-IsSound k h
  Step-IsSound _ _ (Step.sending p k) h = send_packet-IsSound c f p k h
  Step-IsSound _ _ (Step.connect_done source socket proxy prefix keys k e) h =
      on_connect-IsSound c f source socket proxy prefix keys k h
  Step-IsSound _ _ (Step.writing ready k e) h = on_session_data_write-IsSound c f ready k h e
  Step-IsSound _ _ (Step.reading ready received n k e) h =
      on_session_data_read-IsSound ready received n k h e

  -- Whatever libpurple and the user do to a connection: when it is disconnected or still
  -- connecting, its session is as terminate() leaves it, disconnected, without a socket, with a
  -- read size of zero and nothing in its two buffers, its nonce prefix and its two keys zero, and
  -- the connection has no socket and no input handler; when it authenticates or is connected, it
  -- has a socket; when it is connected, its session has done the handshake or is disconnected; and
  -- its session waits for what its state reads.
  pub Reachable-IsSound : (k : Connection f) → Reachable c f handler k → IsSound k
  unfolding new_connection new_session
  Reachable-IsSound _ (Reachable.fresh account server_pk) =
      ((refl, refl, refl, refl, refl, refl, refl, refl), refl, refl, refl)
  Reachable-IsSound _ (Reachable.after k k' r s) = Step-IsSound k k' s (Reachable-IsSound k r)

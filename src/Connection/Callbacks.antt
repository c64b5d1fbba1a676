-- ===== src/Connection/Callbacks.antt =====
-- What ThreeplConnection::on_connect and on_session_data_write keep, and when a connection is open.
use ceema.Prelude.{
  ℕ, ◌≡◌, refl, Bool, true, false, Option, none, some, List, Result, ok, err, arith,
  protocol_exception, message_exception, packet_type_exception, session_exception, socket_exception,
  crypto_error, runtime_error, logic_error, out_of_bounds,
}
use ceema.Encoding.Crypto.{Crypto}
use ceema.Payload.MessagePayload.{Formats}
use ceema.Session.State.{Session, Socket, on_ready_write}
use ceema.Session.Machine.{connect}
use ceema.Session.Invariant.{IsConsistent}
use ceema.Session.Calls.{after_call, after_call-IsConsistent, Call}
use ceema.Connection.{State, disconnected, connecting, authenticating, connected, Connection}
use ceema.Connection.Handlers.{handshake, on_connect, written, on_session_data_write}
use ceema.Connection.Established.{IsEstablished, on_ready_write-IsEstablished}
use ceema.Connection.Soundness.{IsSound, SoundIn, IsConsistent-IsSound}

abbrev pub IsOpen : State → Type 0
IsOpen authenticating = Unit {0}
IsOpen connected = Unit {0}
IsOpen _ = ⊥

module _ {f : Formats} where
  -- A session for which the other one may stand in an open connection.
  abbrev pub IsNext : Connection f → Session f → Type 0
  IsNext k s = IsConsistent s × (IsEstablished k.session → IsEstablished s)

  pub next-IsSound :
      (k : Connection f) (s : Session f) (writes : Bool)
      → IsOpen k.state
      → IsSound k
      → IsNext k s
      → IsSound (record k { session = s; input_handler_write = writes })
  next-IsSound k s writes o h (a, b) = go k.state o h
    where
      go :
          (t : State)
          → IsOpen t
          → SoundIn t k.session k.session_socket k.input_handler_read k.input_handler_write
          → SoundIn t s k.session_socket k.input_handler_read writes
      go disconnected o h = absurd o
      go connecting o h = absurd o
      go authenticating o h = (a, h.1)
      go connected o h = (a, h.1, b h.2)

  -- A connection with a handler is open.
  pub reads-IsOpen : (k : Connection f) → IsSound k → k.input_handler_read ≡ true → IsOpen k.state
  reads-IsOpen k h e = go k.state h
    where
      go :
          (t : State)
          → SoundIn t k.session k.session_socket k.input_handler_read k.input_handler_write
          → IsOpen t
      go disconnected h = absurd (ground arith)
      go connecting h = absurd (ground arith)
      go authenticating h = tt
      go connected h = tt

  writes-IsOpen : (k : Connection f) → IsSound k → k.input_handler_write ≡ true → IsOpen k.state
  writes-IsOpen k h e = go k.state h
    where
      go :
          (t : State)
          → SoundIn t k.session k.session_socket k.input_handler_read k.input_handler_write
          → IsOpen t
      go disconnected h = absurd (ground arith)
      go connecting h = absurd (ground arith)
      go authenticating h = tt
      go connected h = tt

module _ (c : Crypto) (f : Formats) where
  pub on_connect-IsSound :
      (source : Option ℕ) (socket : Socket) (proxy : Bool) (prefix : List ℕ)
      (keys : Option (List ℕ × List ℕ)) (k : Connection f)
      → IsSound k
      → IsSound (on_connect c f source socket proxy prefix keys k).1
  unfolding on_connect handshake
  on_connect-IsSound none socket proxy prefix keys k h = h
  on_connect-IsSound (some source) socket proxy prefix keys k h =
      go (connect c f socket proxy prefix keys k.session) (
        unfold after_call in
        after_call-IsConsistent c f (Call.connecting socket proxy prefix keys) k.session
          (IsConsistent-IsSound k h))
    where
      go :
          (r : Result (Unit {0}) × Session f)
          → IsConsistent r.1
          → IsSound
              (handshake c f r
                (record k { state = authenticating; session_socket = some source })).1
      go (ok x, s) a = (a, λ e. ground arith)
      go (err e, s) a = (a, λ e. ground arith)

  written-IsSound :
      (r : Result (Unit {0}) × Session f) (k : Connection f)
      → IsOpen k.state
      → IsSound k
      → IsNext k r.1
      → IsSound (written c f r k).1
  unfolding written
  written-IsSound r k o h n =
      rw (written_fields r k) (next-IsSound k r.1 (written c f r k).1.input_handler_write o h n)
    where
      written_fields :
          (r : Result (Unit {0}) × Session f) (k : Connection f)
          → (written c f r k).1 ≡ record k {
            session = r.1;
            input_handler_write = (written c f r k).1.input_handler_write;
            notices = (written c f r k).1.notices;
          }
      written_fields (ok x, s) k = refl
      written_fields (err protocol_exception, s) k = refl
      written_fields (err message_exception, s) k = refl
      written_fields (err packet_type_exception, s) k = refl
      written_fields (err session_exception, s) k = refl
      written_fields (err socket_exception, s) k = refl
      written_fields (err crypto_error, s) k = refl
      written_fields (err runtime_error, s) k = refl
      written_fields (err logic_error, s) k = refl
      written_fields (err out_of_bounds, s) k = refl

  pub on_session_data_write-IsSound :
      (ready : Bool) (k : Connection f)
      → IsSound k
      → k.input_handler_write ≡ true
      → IsSound (on_session_data_write c f ready k).1
  unfolding on_session_data_write after_call
  on_session_data_write-IsSound true k h e =
      written-IsSound (on_ready_write k.session) k (writes-IsOpen k h e) h (
        after_call-IsConsistent c f Call.writing k.session (IsConsistent-IsSound k h),
        on_ready_write-IsEstablished k.session,
      )
  on_session_data_write-IsSound false k h e =
      written-IsSound (ok tt, k.session) k (writes-IsOpen k h e) h
        (IsConsistent-IsSound k h, λ x. x)

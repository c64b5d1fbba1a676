-- ===== src/Connection/Handlers.antt =====
-- The callbacks of ThreeplConnection that libpurple runs: `on_connect`, `on_session_data_write` and
-- `on_session_data_read`, and the events of a connection. The time of the last read is left out.
use ceema.Prelude.{
  ℕ, Bool, true, false, not, ◌&&◌, ◌||◌, Option, none, some, List, [], ◌∷◌, ◌==◌, length, Result,
  ok, err, out_of_bounds, socket_exception, if◌then◌else◌,
}
use ceema.Encoding.Crypto.{Crypto}
use ceema.Payload.MessagePayload.{Formats}
use ceema.Session.State.{Session, Socket, on_ready_write}
use ceema.Session.Machine.{Received, connect, on_ready_read}
use ceema.Connection.{
  disconnected, authenticating, connected, Connection, network_error, other_error, tell, follow,
  close, authenticate,
}
use ceema.Connection.Read.{Handler, read_packets}

unfoldable pub has_write_data : {f : Formats} → Session f → Bool
has_write_data s = not (length s.write_buffer == 0)

module _ (c : Crypto) (f : Formats) where
  -- `session.connect(…)` and the two handlers behind it; an exception leaves the callback.
  unfoldable pub handshake :
      Result (Unit {0}) × Session f → Connection f → Result (Unit {0}) × Connection f
  handshake (ok _, s) k =
      (ok tt, record k { session = s; input_handler_read = true; input_handler_write = true })
  handshake (err e, s) k = (err e, record k { session = s })

  -- The descriptor is `none` for -1; the socket over it, the `proxy` setting and the random nonce
  -- prefix and the keys, if any, are given.
  unfoldable pub on_connect :
      Option ℕ
      → Socket
      → Bool
      → List ℕ
      → Option (List ℕ × List ℕ)
      → Connection f
      → Result (Unit {0}) × Connection f
  unfolding handshake
  on_connect none socket proxy prefix keys k = (ok tt, tell (network_error ∷ []) k)
  on_connect (some source) socket proxy prefix keys k =
      handshake (connect c f socket proxy prefix keys k.session)
        (record k { state = authenticating; session_socket = some source })

  unfoldable pub written :
      Result (Unit {0}) × Session f → Connection f → Result (Unit {0}) × Connection f
  unfolding has_write_data
  written (ok _, s) k = (
    ok tt,
    record k { session = s; input_handler_write = k.input_handler_write && has_write_data s },
  )
  written (err out_of_bounds, s) k = (err out_of_bounds, record k { session = s })
  written (err socket_exception, s) k =
      (ok tt, tell (network_error ∷ []) (record k { session = s }))
  written (err e, s) k = (ok tt, tell (other_error ∷ []) (record k { session = s }))

  -- `ready` is the bit PURPLE_INPUT_WRITE of the condition.
  unfoldable pub on_session_data_write : Bool → Connection f → Result (Unit {0}) × Connection f
  unfolding written
  on_session_data_write true k = written (on_ready_write k.session) k
  on_session_data_write false k = written (ok tt, k.session) k

module _ (c : Crypto) (f : Formats) (handler : Handler f) where
  -- `if (state() == AUTHENTICATING) authenticate();`
  unfoldable pub continue_authentication : Connection f → Result (Unit {0}) × Connection f
  unfolding authenticate
  continue_authentication k = elim k.state [
    | authenticating ↦ follow (authenticate k) (λ _ k'. (ok tt, k'))
    | _ ↦ (ok tt, k)
  ]

  -- The end of `on_session_data_read`.
  unfoldable pub end_read : Bool → Connection f → Connection f
  unfolding close has_write_data
  end_read eof k = elim k.state [
    | disconnected ↦ record k {
      input_handler_write = k.input_handler_write || has_write_data k.session;
    }
    | _ ↦
        if eof
        then tell (network_error ∷ []) (close k)
        else record k { input_handler_write = k.input_handler_write || has_write_data k.session }
  ]

  -- The catch clause around `read_packets`.
  unfoldable pub packets_read :
      Bool → Result (Unit {0}) × Connection f → Result (Unit {0}) × Connection f
  unfolding end_read
  packets_read eof (ok _, k) = (ok tt, end_read eof k)
  packets_read eof (err out_of_bounds, k) = (err out_of_bounds, k)
  packets_read eof (err e, k) = (ok tt, tell (other_error ∷ []) (close k))

  -- `if (state() == CONNECTED) read_packets();` and what follows it.
  unfoldable pub use_packets : Bool → Connection f → Result (Unit {0}) × Connection f
  unfolding read_packets packets_read
  use_packets eof k = elim k.state [
    | connected ↦ packets_read eof (read_packets c f handler k)
    | _ ↦ (ok tt, end_read eof k)
  ]

  -- The catch clauses around `onReadyRead`, whose answer is that the stream goes on.
  unfoldable pub data_read :
      Result Bool × Session f → Connection f → Result (Unit {0}) × Connection f
  unfolding continue_authentication use_packets
  data_read (ok open_stream, s) k =
      follow (continue_authentication (record k { session = s }))
        (λ _ k'. use_packets (not open_stream) k')
  data_read (err out_of_bounds, s) k = (err out_of_bounds, record k { session = s })
  data_read (err socket_exception, s) k =
      (ok tt, tell (network_error ∷ []) (record k { session = s }))
  data_read (err e, s) k = (ok tt, tell (other_error ∷ []) (close (record k { session = s })))

  -- `ready` is the bit PURPLE_INPUT_READ of the condition.
  unfoldable pub on_session_data_read :
      Bool → List Received → List ℕ → Connection f → Result (Unit {0}) × Connection f
  unfolding data_read
  on_session_data_read true received random_nonce k =
      data_read (on_ready_read c f received random_nonce k.session) k
  on_session_data_read false received random_nonce k = data_read (ok true, k.session) k

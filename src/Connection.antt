-- ===== src/Connection.antt =====
-- ThreeplConnection (src/threepl/ThreeplConnection.h and ThreeplConnection.cpp): the session, the
-- socket and the input handlers of one account, and what libpurple is told. Reading and writing
-- outside of a buffer is passed on by every catch clause.
pub mod Handlers
pub mod Read
pub mod Steps
pub mod Established
pub mod Dispatch
pub mod Callbacks
pub mod Life
pub mod Queue
pub mod Escape
pub mod Soundness
use ceema.Prelude.{
  ℕ, zero, suc, Bool, true, false, Option, none, some, List, [], ◌∷◌, ◌++◌, length, Result, Error,
  ok, err, out_of_bounds, socket_exception, logic_error, if◌then◌else◌,
}
use ceema.Types.Flags.{MessageFlag, isnset}
use ceema.Encoding.Crypto.{Crypto}
use ceema.Payload.MessagePayload.{Formats}
use ceema.Packet.PacketType.{PacketType}
use ceema.Packet.Acknowledgement
use ceema.Packet.KeepAlive
use ceema.Packet.Message.{Message}
use ceema.Packet.Packet.{Packet, type_of}
use ceema.Session.State.{State as SessionState, Session, terminate}
use ceema.Session.Calls.{new_session, get_packet}
use ceema.Session.Machine
use ceema.Contact.{Account}

pub data State : Type 0 where
  disconnected connecting authenticating connected : State

-- A call of libpurple that the user sees: `progress n` is purple_connection_update_progress at step n,
-- the errors are those of purple_connection_error_reason, and the last two set the state.
pub data Notice : Type 0 where
  progress : ℕ → Notice
  network_error other_error name_in_use : Notice
  state_connected state_disconnected : Notice

-- `session_socket` is `none` for -1, and the handlers are false for 0.
pub record Connection (f : Formats) : Type 0 where
  pub session : Session f
  pub session_socket : Option ℕ
  pub input_handler_read : Bool
  pub input_handler_write : Bool
  pub state : State
  pub notices : List Notice

module _ {f : Formats} where
  abbrev pub tell : List Notice → Connection f → Connection f
  tell notices k = record k { notices = k.notices ++ notices }

  -- The next statement, unless an exception skips it.
  abbrev pub follow :
      {A B : Type 0}
      → Result A × Connection f
      → (A → Connection f → Result B × Connection f)
      → Result B × Connection f
  follow (ok a, k) next = next a k
  follow (err e, k) next = (err e, k)

  unfoldable pub new_connection : Account → List ℕ → Connection f
  unfolding new_session
  new_connection account server_pk = record {
    session = new_session account server_pk;
    session_socket = none;
    input_handler_read = false;
    input_handler_write = false;
    state = disconnected;
    notices = [];
  }

  -- `start_connect`, given whether purple_proxy_connect returns a handle.
  unfoldable pub start_connect : Bool → Connection f → Bool × Connection f
  start_connect begun k = elim k.state [
    | disconnected ↦
        if begun
        then (true, record (tell (progress 0 ∷ []) k) { state = connecting })
        else (false, tell (progress 0 ∷ network_error ∷ []) k)
    | _ ↦ (false, k)
  ]

  unfoldable pub close : Connection f → Connection f
  unfolding terminate
  close k = elim k.state [
    | disconnected ↦ k
    | connecting ↦ record k { state = disconnected }
    | _ ↦ record k {
      session = terminate k.session;
      session_socket = none;
      input_handler_read = false;
      input_handler_write = false;
      state = disconnected;
    }
  ]

  -- What `authenticate` does for a state of the session.
  unfoldable pub advance : SessionState → Connection f → Result Bool × Connection f
  advance SessionState.disconnected k = (err logic_error, k)
  advance SessionState.wait_connect k = (ok false, tell (progress 1 ∷ []) k)
  advance SessionState.wait_hello k = (ok false, tell (progress 2 ∷ []) k)
  advance SessionState.wait_auth k = (ok false, tell (progress 3 ∷ []) k)
  advance _ k = (ok true, record (tell (progress 4 ∷ state_connected ∷ []) k) { state = connected })

  unfoldable pub authenticate : Connection f → Result Bool × Connection f
  unfolding advance
  authenticate k = elim k.state [
    | authenticating ↦ advance k.session.state k
    | connected ↦ (ok true, k)
    | _ ↦ (ok false, k)
  ]

  -- The end of `send_packet`, with its two catch clauses.
  unfoldable pub sent : Result (Unit {0}) × Session f → Connection f → Result Bool × Connection f
  sent (ok _, s) k = (ok true, record k { session = s })
  sent (err out_of_bounds, s) k = (err out_of_bounds, record k { session = s })
  sent (err socket_exception, s) k =
      (ok true, tell (network_error ∷ state_disconnected ∷ []) (record k { session = s }))
  sent (err e, s) k =
      (ok true, tell (other_error ∷ state_disconnected ∷ []) (record k { session = s }))

module _ (c : Crypto) (f : Formats) where
  unfoldable pub send_packet : Packet f → Connection f → Result Bool × Connection f
  unfolding sent
  send_packet packet k = elim k.state [
    | connected ↦ sent (Machine.send_packet c f packet k.session) k
    | _ ↦ (ok false, k)
  ]

  -- Statements that call `send_packet` for its effect.
  unfoldable pub send_packets : List (Packet f) → Connection f → Result (Unit {0}) × Connection f
  unfolding send_packet
  send_packets [] k = (ok tt, k)
  send_packets (packet ∷ packets) k =
      follow (send_packet packet k) (λ _ k'. send_packets packets k')

  -- `KeepAlive()` draws a random number.
  unfoldable pub send_keepalive : ℕ → Connection f → Result Bool × Connection f
  unfolding send_packet
  send_keepalive val k = send_packet (Packet.keepalive (KeepAlive.create val)) k

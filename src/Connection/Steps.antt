-- ===== src/Connection/Steps.antt =====
-- The life of a ThreeplConnection: what libpurple and its user do to it, one step after the other. A
-- callback comes only while it is installed, and that of a connection attempt only while it runs. A
-- step is taken whether or not the code throws.
use ceema.Prelude.{ℕ, ◌≡◌, Bool, true, Option, List}
use ceema.Encoding.Crypto.{Crypto}
use ceema.Payload.MessagePayload.{Formats}
use ceema.Packet.Packet.{Packet}
use ceema.Session.State.{Socket}
use ceema.Session.Machine.{Received}
use ceema.Contact.{Account}
use ceema.Connection.{Connection, connecting, start_connect, close, send_packet, new_connection}
use ceema.Connection.Read.{Handler}
use ceema.Connection.Handlers.{on_connect, on_session_data_write, on_session_data_read}

pub data Step (c : Crypto) (f : Formats) (handler : Handler f)
    : Connection f → Connection f → Type 0 where
  starting : (begun : Bool) (k : Connection f) → Step c f handler k (start_connect begun k).1
  closing : (k : Connection f) → Step c f handler k (close k)
  sending : (packet : Packet f) (k : Connection f) → Step c f handler k (send_packet c f packet k).1
  connect_done :
      (source : Option ℕ) (socket : Socket) (proxy : Bool) (prefix : List ℕ)
      (keys : Option (List ℕ × List ℕ)) (k : Connection f)
      → k.state ≡ connecting
      → Step c f handler k (on_connect c f source socket proxy prefix keys k).1
  writing :
      (ready : Bool) (k : Connection f)
      → k.input_handler_write ≡ true
      → Step c f handler k (on_session_data_write c f ready k).1
  reading :
      (ready : Bool) (received : List Received) (random_nonce : List ℕ) (k : Connection f)
      → k.input_handler_read ≡ true
      → Step c f handler k (on_session_data_read c f handler ready received random_nonce k).1

-- The connections that steps lead to from a new one.
pub data Reachable (c : Crypto) (f : Formats) (handler : Handler f) : Connection f → Type 0 where
  fresh :
      (account : Account) (server_pk : List ℕ)
      → Reachable c f handler (new_connection account server_pk)
  after :
      (k k' : Connection f)
      → Reachable c f handler k
      → Step c f handler k k'
      → Reachable c f handler k'

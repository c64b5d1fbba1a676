-- ===== src/Session/State.antt =====
-- The state of Session (src/protocol/session.h), its monad, and the socket that it writes to
-- (src/socket/socket.cpp). An exception leaves the state as it was when it was thrown.
use ceema.Prelude.{
  ℕ, ◌+◌, ◌%◌, ◌^◌, Bool, true, false, Option, none, some, List, [], ◌∷◌, ◌++◌, ltb, ◌==◌,
  if◌then◌else◌, length, take, drop, replicate, Result, Error, ok, err, out_of_bounds,
  socket_exception,
}
use ceema.Types.Bytes.{le}
use ceema.Contact.{Account}
use ceema.Payload.MessagePayload.{Formats}
use ceema.Packet.Packet.{Packet}

pub data State : Type 0 where
  disconnected wait_connect wait_hello wait_auth wait_pkt_header wait_pkt : State

-- What the next `TcpSocket::send` does: all bytes go out, none does since the socket would block, or it
-- throws. (A send that is blocked half-way throws as well.)
pub data Sent : Type 0 where
  accepts blocks fails : Sent

-- The sends that are still to come (a socket blocks when none is left), and the bytes that went out.
pub record Socket : Type 0 where
  pub sends : List Sent
  pub wire : List ℕ

pub record Session (f : Formats) : Type 0 where
  pub nonce_prefix : List ℕ
  pub server_nonce_prefix : List ℕ
  pub counter : ℕ
  pub server_counter : ℕ
  pub session_pk : List ℕ
  pub session_sk : List ℕ
  pub session_server_pk : List ℕ
  pub client : Account
  pub server_pk : List ℕ
  pub socket : Option Socket
  pub use_proxy : Bool
  pub state : State
  pub next_read_size : ℕ
  pub read_buffer : List ℕ
  pub write_buffer : List ℕ
  pub packet_queue : List (Packet f)

abbrev pub M : Formats → Type 0 → Type 0
M f A = Session f → Result A × Session f

-- `TcpSocket::send`; a session without a socket hands out the invalid descriptor, on which it fails.
unfoldable pub next_send : Option Socket → Sent
next_send none = fails
next_send (some k) = elim k.sends [ [] ↦ blocks | x ∷ xs ↦ x ]

abbrev drop_first {ℓ} : {A : Type ℓ} → List A → List A
drop_first [] = []
drop_first (x ∷ xs) = xs

unfoldable pub after_send : Option Socket → List ℕ → Option Socket
after_send none out = none
after_send (some k) out = some (record { sends = drop_first k.sends; wire = k.wire ++ out })

-- `make_nonce(prefix, seq)`
unfoldable pub make_nonce : List ℕ → ℕ → List ℕ
make_nonce prefix seq = prefix ++ le 8 seq

module _ {f : Formats} where
  abbrev pub pure : {A : Type 0} → A → M f A
  pure a s = (ok a, s)

  abbrev pub throw : {A : Type 0} → Error → M f A
  throw e s = (err e, s)

  abbrev pub lift : {A : Type 0} → Result A → M f A
  lift r s = (r, s)

  abbrev pub bind : {A B : Type 0} → Result A × Session f → (A → M f B) → Result B × Session f
  bind (ok a, s) k = k a s
  bind (err e, s) k = (err e, s)

  infixl 5 ◌>>=◌ ◌>>◌
  abbrev pub ◌>>=◌ : {A B : Type 0} → M f A → (A → M f B) → M f B
  ◌>>=◌ m k s = bind (m s) k

  abbrev pub ◌>>◌ : {B : Type 0} → M f (Unit {0}) → M f B → M f B
  ◌>>◌ m k s = bind (m s) (λ _. k)

  abbrev pub get : M f (Session f)
  get s = (ok s, s)

  abbrev pub put : Session f → M f (Unit {0})
  put s' s = (ok tt, s')

  -- `if (bad) throw e;`
  abbrev pub throw_when : Bool → Error → M f (Unit {0})
  throw_when true e s = (err e, s)
  throw_when false e s = (ok tt, s)

  -- The wiped session.
  unfoldable pub terminate : Session f → Session f
  terminate s = record s {
    socket = none;
    nonce_prefix = replicate 16 0;
    session_pk = replicate 32 0;
    session_sk = replicate 32 0;
    state = disconnected;
    next_read_size = 0;
    read_buffer = [];
    write_buffer = [];
  }

  abbrev write_buffered : Session f → Sent → Result (Unit {0}) × Session f
  write_buffered s accepts =
      (ok tt, record s { socket = after_send s.socket s.write_buffer; write_buffer = [] })
  write_buffered s blocks = (ok tt, record s { socket = after_send s.socket [] })
  write_buffered s fails = (err socket_exception, terminate s)

  -- `onReadyWrite`: a send that takes all of the buffer empties it and ends the loop, and any other ends
  -- the loop too, so there is one round.
  unfoldable pub on_ready_write : M f (Unit {0})
  unfolding terminate next_send after_send
  on_ready_write s =
      if length s.write_buffer == 0 then (ok tt, s) else write_buffered s (next_send s.socket)

  unfoldable pub next_client_nonce : M f (List ℕ)
  unfolding make_nonce
  next_client_nonce s =
      (ok (make_nonce s.nonce_prefix s.counter), record s { counter = (s.counter + 1) % 2 ^ 64 })

  unfoldable pub next_server_nonce : M f (List ℕ)
  unfolding make_nonce
  next_server_nonce s = (
    ok (make_nonce s.server_nonce_prefix s.server_counter),
    record s { server_counter = (s.server_counter + 1) % 2 ^ 64 },
  )

  -- The first `n` bytes of the read buffer, which are erased from it.
  unfoldable pub consume : ℕ → M f (List ℕ)
  consume n s =
      if ltb (length s.read_buffer) n
      then (err out_of_bounds, s)
      else (ok (take n s.read_buffer), record s { read_buffer = drop n s.read_buffer })

  unfoldable pub send_bytes : List ℕ → M f (Unit {0})
  unfolding on_ready_write
  send_bytes out s = on_ready_write (record s { write_buffer = s.write_buffer ++ out })

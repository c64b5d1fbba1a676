-- ===== src/Connection/Soundness.antt =====
-- What holds of a ThreeplConnection at every moment of its life.
use ceema.Prelude.{
  ℕ, ◌≡◌, ◌≢◌, refl, Bool, true, false, Option, none, List, [], ◌∷◌, replicate, Result, ok, err,
  protocol_exception, message_exception, packet_type_exception, session_exception, socket_exception,
  crypto_error, runtime_error, logic_error, out_of_bounds,
}
use ceema.Encoding.Crypto.{Crypto}
use ceema.Payload.MessagePayload.{Formats}
use ceema.Packet.Packet.{Packet}
use ceema.Session.State.{State as SessionState, Session, terminate}
use ceema.Session.Machine
use ceema.Session.Machine.{Received}
use ceema.Session.Invariant.{IsConsistent}
use ceema.Session.Calls.{after_call, after_call-IsConsistent, Call}
use ceema.Connection.{
  State, disconnected, connecting, authenticating, connected, Connection, follow, start_connect,
  close, sent, send_packet, send_packets,
}
use ceema.Connection.Established.{Past, IsEstablished, send_packet-IsEstablished}

-- What `terminate` leaves: the state, the read size, the socket, the nonce prefix, the two keys and the
-- two buffers.
abbrev pub IsWiped : {f : Formats} → Session f → Type 0
IsWiped s =
    (s.state ≡ SessionState.disconnected)
    × (s.next_read_size ≡ 0)
    × (s.socket ≡ none)
    × (s.nonce_prefix ≡ replicate 16 0)
    × (s.session_pk ≡ replicate 32 0)
    × (s.session_sk ≡ replicate 32 0)
    × (s.read_buffer ≡ [])
    × (s.write_buffer ≡ [])

-- What holds in each state, of the session, of the socket and of the two handlers: nothing is left of a
-- closed connection, and a connected one has shaken hands.
abbrev pub SoundIn : {f : Formats} → State → Session f → Option ℕ → Bool → Bool → Type 0
SoundIn disconnected s socket reads writes =
    IsWiped s × (socket ≡ none) × (reads ≡ false) × (writes ≡ false)
SoundIn connecting s socket reads writes =
    IsWiped s × (socket ≡ none) × (reads ≡ false) × (writes ≡ false)
SoundIn authenticating s socket reads writes = IsConsistent s × (socket ≢ none)
SoundIn connected s socket reads writes = IsConsistent s × (socket ≢ none) × Past s.state

module _ {f : Formats} where
  abbrev pub IsSound : Connection f → Type 0
  IsSound k = SoundIn k.state k.session k.session_socket k.input_handler_read k.input_handler_write

  pub IsConsistent-IsSound : (k : Connection f) → IsSound k → IsConsistent k.session
  IsConsistent-IsSound k h = go k.state h
    where
      wiped : IsWiped k.session → IsConsistent k.session
      wiped w = rw w.0 w.1

      go :
          (t : State)
          → SoundIn t k.session k.session_socket k.input_handler_read k.input_handler_write
          → IsConsistent k.session
      go disconnected h = wiped h.0
      go connecting h = wiped h.0
      go authenticating h = h.0
      go connected h = h.0

  pub close-IsSound : (k : Connection f) → IsSound k → IsSound (close k)
  unfolding close terminate
  close-IsSound k h = go k.state refl
    where
      go : (t : State) → k.state ≡ t → IsSound (close k)
      go disconnected e = rw e (rw e at h)
      go connecting e = rw e (rw e at h)
      go authenticating e =
          rw e ((refl, refl, refl, refl, refl, refl, refl, refl), refl, refl, refl)
      go connected e = rw e ((refl, refl, refl, refl, refl, refl, refl, refl), refl, refl, refl)

  pub start_connect-IsSound :
      (begun : Bool) (k : Connection f) → IsSound k → IsSound (start_connect begun k).1
  unfolding start_connect
  start_connect-IsSound begun k h = go k.state refl begun
    where
      go : (t : State) → k.state ≡ t → (b : Bool) → IsSound (start_connect b k).1
      go disconnected e true = rw e (rw e at h)
      go disconnected e false = rw e (rw e at h)
      go connecting e b = rw e (rw e at h)
      go authenticating e b = rw e (rw e at h)
      go connected e b = rw e (rw e at h)

  -- What `send_packet` makes of its call of the session changes the session and the notices only.
  sent_fields :
      (r : Result (Unit {0}) × Session f) (k : Connection f)
      → (sent r k).1 ≡ record k { session = r.1; notices = (sent r k).1.notices }
  unfolding sent
  sent_fields (ok x, s) k = refl
  sent_fields (err protocol_exception, s) k = refl
  sent_fields (err message_exception, s) k = refl
  sent_fields (err packet_type_exception, s) k = refl
  sent_fields (err session_exception, s) k = refl
  sent_fields (err socket_exception, s) k = refl
  sent_fields (err crypto_error, s) k = refl
  sent_fields (err runtime_error, s) k = refl
  sent_fields (err logic_error, s) k = refl
  sent_fields (err out_of_bounds, s) k = refl

  sent-IsSound :
      (r : Result (Unit {0}) × Session f) (k : Connection f)
      → k.state ≡ connected
      → IsConsistent r.1
      → k.session_socket ≢ none
      → IsEstablished r.1
      → IsSound (sent r k).1
  sent-IsSound r k e a b d = rw (sent_fields r k, e) (a, b, d)

module _ (c : Crypto) (f : Formats) where
  pub send_packet-IsSound :
      (p : Packet f) (k : Connection f) → IsSound k → IsSound (send_packet c f p k).1
  unfolding send_packet
  send_packet-IsSound p k h = go k.state refl
    where
      go : (t : State) → k.state ≡ t → IsSound (send_packet c f p k).1
      go disconnected e = rw e (rw e at h)
      go connecting e = rw e (rw e at h)
      go authenticating e = rw e (rw e at h)
      go connected e =
          let (a, b, d) = (rw e at h) in
          let r : Result (Unit {0}) × Session f = Machine.send_packet c f p k.session in
          let kept : IsConsistent r.1 =
            unfold after_call in after_call-IsConsistent c f (Call.sending p) k.session a in
          rw e (
            sent-IsSound r (record k { state = connected }) refl kept b
              (send_packet-IsEstablished c f p k.session d))

  pub send_packets-IsSound :
      (ps : List (Packet f)) (k : Connection f) → IsSound k → IsSound (send_packets c f ps k).1
  unfolding send_packets
  send_packets-IsSound [] k h = h
  send_packets-IsSound (p ∷ ps) k h =
      go (send_packet c f p k) (send_packet-IsSound p k h) (λ k' x. send_packets-IsSound ps k' x)
    where
      go :
          (r : Result Bool × Connection f)
          → IsSound r.1
          → ((k' : Connection f) → IsSound k' → IsSound (send_packets c f ps k').1)
          → IsSound (follow r (λ _ k'. send_packets c f ps k')).1
      go (ok b, k') h ih = ih k' h
      go (err e, k') h ih = h

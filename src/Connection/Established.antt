-- ===== src/Connection/Established.antt =====
-- A session behind its handshake, or disconnected, stays so unless it is connected again.
use ceema.Prelude.{
  ℕ, zero, suc, ◌≡◌, refl, inl, inr, Bool, Bool-cases, ltb, List, [], ◌∷◌, ◌++◌, length, Result, ok,
  err,
}
use ceema.Types.Iter.{letoh, Input}
use ceema.Encoding.Crypto.{Crypto}
use ceema.Payload.MessagePayload.{Formats}
use ceema.Packet.Packet.{Packet}
use ceema.Session.State.{
  State, disconnected, wait_connect, wait_hello, wait_auth, wait_pkt_header, wait_pkt, Session,
  bind, on_ready_write, consume,
}
use ceema.Session.Machine.{
  Received, chunk, would_block, end_of_file, broken, packet_ready, read_header, read_packet,
  send_data, send_packet, outgoing, go_on, pending, drain, drain_all, receive_all, read_in,
  on_ready_read,
}
use ceema.Session.Invariant.{Quiet, read_packet-Quiet, send_data-Quiet, on_ready_write-Quiet}
use ceema.Session.Fuel.{drain_done, drain-pending}

abbrev pub Past : State → Type 0
Past disconnected = Unit {0}
Past wait_pkt_header = Unit {0}
Past wait_pkt = Unit {0}
Past _ = ⊥

module _ {f : Formats} where
  abbrev pub IsEstablished : Session f → Type 0
  IsEstablished s = Past s.state

  IsEstablished-Quiet : (s s' : Session f) → Quiet s s' → IsEstablished s → IsEstablished s'
  IsEstablished-Quiet s s' (inl (p, q)) h = rw p h
  IsEstablished-Quiet s s' (inr (p, q)) h = rw p tt

  pub on_ready_write-IsEstablished :
      (s : Session f) → IsEstablished s → IsEstablished (on_ready_write s).1
  on_ready_write-IsEstablished s h =
      IsEstablished-Quiet s (on_ready_write s).1 (on_ready_write-Quiet s) h

module _ (c : Crypto) (f : Formats) where
  pub send_packet-IsEstablished :
      (p : Packet f) (s : Session f) → IsEstablished s → IsEstablished (send_packet c f p s).1
  unfolding send_packet
  send_packet-IsEstablished p s h = go (outgoing c f p)
    where
      go : (r : Result (List ℕ)) → IsEstablished (bind (r, s) (send_data c f)).1
      go (ok b) = IsEstablished-Quiet s (send_data c f b s).1 (send_data-Quiet c f b s) h
      go (err e) = h

  consume-IsEstablished : (s : Session f) → IsEstablished s → IsEstablished (consume 2 s).1
  unfolding consume
  consume-IsEstablished s h = elim (Bool-cases (ltb (length s.read_buffer) 2)) [
    | inl e ↦ rw e h
    | inr e ↦ rw e h
  ]

  header-IsEstablished : (s : Session f) → IsEstablished s → IsEstablished (read_header c f s).1
  unfolding read_header
  header-IsEstablished s h = go (consume 2 s) (consume-IsEstablished s h)
    where
      sized :
          (r : Result (ℕ × Input)) (s : Session f)
          → IsEstablished s
          → IsEstablished (bind (r, s) (λ (x : ℕ × Input). go_on c f wait_pkt x.0)).1
      sized (ok x) s h = tt
      sized (err e) s h = h

      go :
          (r : Result (List ℕ) × Session f)
          → IsEstablished r.1
          → IsEstablished
              (bind r (λ header s1.
                bind (letoh 2 header, s1) (λ (x : ℕ × Input). go_on c f wait_pkt x.0))).1
      go (ok header, s1) h = sized (letoh 2 header) s1 h
      go (err e, s1) h = h

  packet_ready-IsEstablished :
      (n : List ℕ) (t : State) (s : Session f)
      → s.state ≡ t
      → IsEstablished s
      → IsEstablished (packet_ready c f n t s).1
  unfolding packet_ready
  packet_ready-IsEstablished n wait_pkt_header s e h = header-IsEstablished s h
  packet_ready-IsEstablished n wait_pkt s e h = go (read_packet c f s.next_read_size s) (
      IsEstablished-Quiet s (read_packet c f s.next_read_size s).1
        (read_packet-Quiet c f s.next_read_size s) h)
    where
      go :
          (r : Result (Unit {0}) × Session f)
          → IsEstablished r.1
          → IsEstablished (bind r (λ _. go_on c f wait_pkt_header 2)).1
      go (ok x, s1) h = tt
      go (err e, s1) h = h
  packet_ready-IsEstablished n disconnected s e h = h
  packet_ready-IsEstablished n wait_connect s e h = absurd (rw e at h)
  packet_ready-IsEstablished n wait_hello s e h = absurd (rw e at h)
  packet_ready-IsEstablished n wait_auth s e h = absurd (rw e at h)

  drain-IsEstablished :
      (fuel : ℕ) (n : List ℕ) (s : Session f)
      → IsEstablished s
      → IsEstablished (drain c f fuel n s).1
  drain-IsEstablished zero n s h = unfold drain in h
  drain-IsEstablished (suc fuel) n s h = elim (Bool-cases (pending c f s)) [
    | inl p ↦ rw (drain-pending c f n fuel s p) (
        go (packet_ready c f n s.state s) (packet_ready-IsEstablished n s.state s refl h)
          (λ s1 x. drain-IsEstablished fuel n s1 x))
    | inr p ↦ rw (drain_done c f n (suc fuel) s p) h
  ]
    where
      go :
          (r : Result (Unit {0}) × Session f)
          → IsEstablished r.1
          → ((s1 : Session f) → IsEstablished s1 → IsEstablished (drain c f fuel n s1).1)
          → IsEstablished (bind r (λ _. drain c f fuel n)).1
      go (ok y, s1) x ih = ih s1 x
      go (err e, s1) x ih = x

  receive_all-IsEstablished :
      (received : List Received) (s : Session f)
      → IsEstablished s
      → IsEstablished (receive_all c f received s).1
  unfolding receive_all
  receive_all-IsEstablished [] s h = h
  receive_all-IsEstablished (chunk b ∷ more) s h =
      receive_all-IsEstablished more (record s { read_buffer = s.read_buffer ++ b }) h
  receive_all-IsEstablished (would_block ∷ more) s h = h
  receive_all-IsEstablished (end_of_file ∷ more) s h = h
  receive_all-IsEstablished (broken ∷ more) s h = tt

  read-IsEstablished :
      (received : List Received) (n : List ℕ) (s : Session f)
      → IsEstablished s
      → IsEstablished
          (bind
            (receive_all c f received s)
            (λ open_stream s'. bind (drain_all c f n s') (λ _ s''. (ok open_stream, s'')))).1
  unfolding drain_all
  read-IsEstablished received n s h =
      go (receive_all c f received s) (receive_all-IsEstablished received s h)
    where
      end_of :
          (b : Bool) (r : Result (Unit {0}) × Session f)
          → IsEstablished r.1
          → IsEstablished (bind r (λ _ s''. (ok b, s''))).1
      end_of b (ok x, s') h = h
      end_of b (err e, s') h = h

      go :
          (r : Result Bool × Session f)
          → IsEstablished r.1
          → IsEstablished
              (bind r
                (λ open_stream s'. bind (drain_all c f n s') (λ _ s''. (ok open_stream, s'')))).1
      go (ok b, s') h =
          end_of b (drain_all c f n s') (drain-IsEstablished (suc (length s'.read_buffer)) n s' h)
      go (err e, s') h = h

  pub on_ready_read-IsEstablished :
      (received : List Received) (n : List ℕ) (s : Session f)
      → IsEstablished s
      → IsEstablished (on_ready_read c f received n s).1
  unfolding on_ready_read read_in
  on_ready_read-IsEstablished received n s h = go s.state
    where
      go : (t : State) → IsEstablished (read_in c f t received n s).1
      go disconnected = h
      go wait_connect = read-IsEstablished received n s h
      go wait_hello = read-IsEstablished received n s h
      go wait_auth = read-IsEstablished received n s h
      go wait_pkt_header = read-IsEstablished received n s h
      go wait_pkt = read-IsEstablished received n s h

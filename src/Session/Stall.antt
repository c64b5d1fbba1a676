-- ===== src/Session/Stall.antt =====
-- A packet of length zero, and what `onReadyRead` (src/protocol/session.cpp) does with it.
use ceema.Prelude.{
  ℕ, ◌≡◌, ◌⊎◌, inl, inr, refl, Bool, List, [], ◌∷◌, ◌++◌, arith, Result, ok, err, socket_exception,
}
use ceema.Types.Bytes.{le}
use ceema.Encoding.Crypto.{Crypto}
use ceema.Payload.MessagePayload.{Formats}
use ceema.Session.State.{wait_pkt_header, wait_pkt, Session, bind}
use ceema.Session.Machine.{
  Received, chunk, would_block, end_of_file, broken, packet_ready, drain_all, receive_all,
  on_ready_read,
}
use ceema.Session.Framing.{read_header_frame}

module _ (c : Crypto) (f : Formats) where
  -- The session waits for a packet of no bytes.
  abbrev pub IsStalled : Session f → Type 0
  IsStalled s = (s.state ≡ wait_pkt) × (s.next_read_size ≡ 0)

  -- A header that announces a packet of length zero is not refused, and leaves a session that waits
  -- for a packet of no bytes.
  zero_header-IsStalled :
      (n rest : List ℕ) (s : Session f)
      → s.read_buffer ≡ le 2 0 ++ rest
      → ((packet_ready c f n wait_pkt_header s).0 ≡ ok tt)
        × IsStalled (packet_ready c f n wait_pkt_header s).1
  unfolding packet_ready
  zero_header-IsStalled n rest s e =
      rw (read_header_frame c f 0 rest s (omega arith) e) (refl, (refl, refl))

  receive-IsStalled :
      (received : List Received) (s : Session f)
      → IsStalled s
      → ((receive_all c f received s).1.packet_queue ≡ s.packet_queue)
        × (((receive_all c f received s).0 ≡ err socket_exception)
            ⊎ IsStalled (receive_all c f received s).1)
  unfolding receive_all
  receive-IsStalled [] s h = (refl, inr h)
  receive-IsStalled (chunk b ∷ more) s h =
      receive-IsStalled more (record s { read_buffer = s.read_buffer ++ b }) h
  receive-IsStalled (would_block ∷ more) s h = (refl, inr h)
  receive-IsStalled (end_of_file ∷ more) s h = (refl, inr h)
  receive-IsStalled (broken ∷ more) s h = (refl, inl refl)

  drain-IsStalled : (n : List ℕ) (s : Session f) → IsStalled s → drain_all c f n s ≡ (ok tt, s)
  unfolding drain_all
  drain-IsStalled n s h = ground arith

  -- A session that waits for a packet of no bytes queues no packet again, and does so until its
  -- socket throws, whatever arrives.
  pub on_ready_read-IsStalled :
      (received : List Received) (n : List ℕ) (s : Session f)
      → IsStalled s
      → ((on_ready_read c f received n s).1.packet_queue ≡ s.packet_queue)
        × (((on_ready_read c f received n s).0 ≡ err socket_exception)
            ⊎ IsStalled (on_ready_read c f received n s).1)
  unfolding on_ready_read
  on_ready_read-IsStalled received n s h = simp (h.0) (
      go (receive_all c f received s) (receive-IsStalled received s h).0
        (receive-IsStalled received s h).1)
    where
      after : Result Bool × Session f → Result Bool × Session f
      after r =
          bind r (λ open_stream s'. bind (drain_all c f n s') (λ _ s''. (ok open_stream, s'')))

      go :
          (r : Result Bool × Session f)
          → r.1.packet_queue ≡ s.packet_queue
          → (r.0 ≡ err socket_exception) ⊎ IsStalled r.1
          → ((after r).1.packet_queue ≡ s.packet_queue)
            × (((after r).0 ≡ err socket_exception) ⊎ IsStalled (after r).1)
      go (ok b, s') q (inl e) = absurd (ground arith)
      go (ok b, s') q (inr k) = rw (drain-IsStalled n s' k) (q, inr k)
      go (err x, s') q k = (q, k)

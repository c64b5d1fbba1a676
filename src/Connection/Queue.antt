-- ===== src/Connection/Queue.antt =====
-- ThreeplConnection::read_packets reads to the end of the session's queue.
use ceema.Prelude.{
  ℕ, zero, suc, ◌≡◌, ◌≢◌, ◌⊎◌, ◌≤◌, ◌∙◌, ap, inl, inr, refl, false, List, [], ◌∷◌, length, arith,
  Result, ok, err, Bool-cases,
}
use ceema.Types.Flags.{MessageFlag, isnset}
use ceema.Encoding.Crypto.{Crypto}
use ceema.Payload.MessagePayload.{Formats}
use ceema.Packet.PacketType.{PacketType}
use ceema.Packet.Message.{Message}
use ceema.Packet.Packet.{Packet}
use ceema.Session.State.{Session, bind, terminate}
use ceema.Session.Calls.{has_packet}
use ceema.Session.Machine
use ceema.Connection.{
  State, disconnected, connecting, authenticating, connected, Connection, follow, close, sent,
  send_packet, send_packets,
}
use ceema.Connection.Read.{
  Handler, generate_ack, on_recv_message, receive_message, handle_message, handle_packet,
  take_packets, read_packets,
}

module _ (c : Crypto) (f : Formats) where
  send_data-queue :
      (b : List ℕ) (s : Session f) → (Machine.send_data c f b s).1.packet_queue ≡ s.packet_queue
  unfolding Machine.send_data
  send_data-queue b s = ground arith

  send_packet-queue :
      (p : Packet f) (s : Session f) → (Machine.send_packet c f p s).1.packet_queue ≡ s.packet_queue
  unfolding Machine.send_packet
  send_packet-queue p s = go (Machine.outgoing c f p)
    where
      go :
          (r : Result (List ℕ))
          → (bind (r, s) (Machine.send_data c f)).1.packet_queue ≡ s.packet_queue
      go (ok b) = send_data-queue b s
      go (err e) = refl

  sent-session : (r : Result (Unit {0}) × Session f) (k : Connection f) → (sent r k).1.session ≡ r.1
  unfolding sent
  sent-session r k = ground arith

  -- Steps that leave the queue as it is, whether or not they throw.
  abbrev Keeps : {A : Type 0} → Connection f → Result A × Connection f → Type 0
  Keeps k r = r.1.session.packet_queue ≡ k.session.packet_queue

  follow-Keeps :
      {A B : Type 0} (k : Connection f) (r : Result A × Connection f)
      (next : A → Connection f → Result B × Connection f)
      → Keeps k r
      → ((a : A) (k' : Connection f) → Keeps k' (next a k'))
      → Keeps k (follow r next)
  follow-Keeps k (ok a, k') next h g = g a k' ∙ h
  follow-Keeps k (err e, k') next h g = h

  send_packet-Keeps : (p : Packet f) (k : Connection f) → Keeps k (send_packet c f p k)
  unfolding send_packet
  send_packet-Keeps p k = go k.state refl
    where
      go : (t : State) → k.state ≡ t → Keeps k (send_packet c f p k)
      go disconnected e = rw e refl
      go connecting e = rw e refl
      go authenticating e = rw e refl
      go connected e = rw e (
          ap (λ (s : Session f). s.packet_queue)
            (sent-session (Machine.send_packet c f p k.session) (record k { state = connected }))
          ∙ send_packet-queue p k.session)

  send_packets-Keeps : (ps : List (Packet f)) (k : Connection f) → Keeps k (send_packets c f ps k)
  unfolding send_packets
  send_packets-Keeps [] k = refl
  send_packets-Keeps (p ∷ ps) k =
      follow-Keeps k (send_packet c f p k) (λ _ k'. send_packets c f ps k') (send_packet-Keeps p k)
        (λ _ k'. send_packets-Keeps ps k')

  close-queue : (k : Connection f) → (close k).session.packet_queue ≡ k.session.packet_queue
  unfolding close terminate
  close-queue k = go k.state refl
    where
      go : (t : State) → k.state ≡ t → (close k).session.packet_queue ≡ k.session.packet_queue
      go disconnected e = rw e refl
      go connecting e = rw e refl
      go authenticating e = rw e refl
      go connected e = rw e refl

module _ (c : Crypto) (f : Formats) (handler : Handler f) where
  on_recv_message-Keeps :
      (msg : Message f) (k : Connection f) → Keeps c f k (on_recv_message c f handler msg k)
  unfolding on_recv_message
  on_recv_message-Keeps msg k =
      follow-Keeps c f k (send_packets c f (handler msg).0 k) (λ _ k'. ((handler msg).1, k'))
        (send_packets-Keeps c f (handler msg).0 k) (λ _ k'. refl)

  receive_message-Keeps :
      (msg : Message f) (k : Connection f) → Keeps c f k (receive_message c f handler msg k)
  unfolding receive_message
  receive_message-Keeps msg k = elim (Bool-cases (isnset msg.flags MessageFlag.no_ack)) [
    | inl e ↦
        rw (e, receive_message)
          (follow-Keeps c f k (send_packet c f (Packet.acknowledgement (generate_ack msg)) k)
            (λ _ k'. on_recv_message c f handler msg k')
            (send_packet-Keeps c f (Packet.acknowledgement (generate_ack msg)) k)
            (λ _ k'. on_recv_message-Keeps msg k'))
    | inr e ↦ rw (e, receive_message) (on_recv_message-Keeps msg k)
  ]

  handle_packet-Keeps :
      (p : Packet f) (k : Connection f) → Keeps c f k (handle_packet c f handler p k)
  unfolding handle_packet handle_message
  handle_packet-Keeps (Packet.message msg) k = go msg.type
    where
      go : (t : PacketType) → Keeps c f k (handle_message c f handler t msg k)
      go PacketType.message_recv = receive_message-Keeps msg k
      go _ = refl
  handle_packet-Keeps (Packet.status PacketType.disconnected) k = close-queue c f k
  handle_packet-Keeps (Packet.status _) k = refl
  handle_packet-Keeps (Packet.acknowledgement a) k = refl
  handle_packet-Keeps (Packet.keepalive a) k = refl

  -- The loop ended by an exception, or found no packet any more.
  abbrev Ended : Result (Unit {0}) × Connection f → Type 0
  Ended r = (r.0 ≢ ok tt) ⊎ (has_packet r.1.session ≡ false)

  take_packets-Ended :
      (fuel : ℕ) (k : Connection f)
      → length k.session.packet_queue ≤ fuel
      → Ended (take_packets c f handler fuel k)
  unfolding take_packets has_packet
  take_packets-Ended zero k h = inr (ground arith)
  take_packets-Ended (suc fuel) k h =
      go k.session.packet_queue refl (λ k' x. take_packets-Ended fuel k' x)
    where
      taken :
          (r : Result (Unit {0}) × Connection f)
          → length r.1.session.packet_queue ≤ fuel
          → ((k' : Connection f)
              → length k'.session.packet_queue ≤ fuel
              → Ended (take_packets c f handler fuel k'))
          → Ended (follow r (λ _ k'. take_packets c f handler fuel k'))
      taken (ok b, k') h ih = ih k' h
      taken (err e, k') h ih = inl (λ q. ground arith)

      go :
          (queue : List (Packet f))
          → k.session.packet_queue ≡ queue
          → ((k' : Connection f)
              → length k'.session.packet_queue ≤ fuel
              → Ended (take_packets c f handler fuel k'))
          → Ended (take_packets c f handler (suc fuel) k)
      go [] e ih = rw (e, take_packets) (inr (rw e refl))
      go (p ∷ more) e ih =
          let k1 : Connection f = record k { session = record k.session { packet_queue = more } } in
          rw (e, take_packets)
            (taken (handle_packet c f handler p k1)
              (rw (handle_packet-Keeps p k1) (
                let w : length k.session.packet_queue ≡ suc (length more) = rw e refl in
                omega arith))
              ih)

  -- The loop over the packets of the session ends by an exception or with an empty queue, whatever
  -- the message handler sends.
  pub read_packets_ends :
      (k : Connection f)
      → ((read_packets c f handler k).0 ≢ ok tt)
        ⊎ (has_packet (read_packets c f handler k).1.session ≡ false)
  unfolding read_packets
  read_packets_ends k = take_packets-Ended (length k.session.packet_queue) k (omega arith)

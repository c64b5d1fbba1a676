-- ===== src/Session/Framing.antt =====
-- A packet on its way: what a session writes for it, and what the session of the other side makes of
-- those bytes.
use ceema.Prelude.{
  ℕ, ◌+◌, ◌%◌, ◌^◌, ◌<◌, ◌≡◌, ◌∙◌, refl, sym, ap, some, false, List, [], ◌∷◌, ◌++◌, length,
  length-append, le→ltb_false, ◌==◌, take-append, drop-append, append_assoc, append-nil, arith, ok,
}
use ceema.Types.Bytes.{le, length-le}
use ceema.Types.Iter.{letoh-append}
use ceema.Encoding.Crypto.{Crypto, IsCrypto, decrypt_inplace_ok}
use ceema.Payload.MessagePayload.{Formats}
use ceema.Packet.Packet.{Packet, from_packet}
use ceema.Session.State.{
  wait_pkt_header, wait_pkt, Sent, accepts, Session, bind, make_nonce, consume,
}
use ceema.Packet.Message.Encryption.{take_opened}
use ceema.Session.Wire.{frame_lem}
use ceema.Session.Machine.{send_data, packet_ready, read_header, read_packet}

module _ (c : Crypto) (f : Formats) where
  not_empty : (n : ℕ) (xs ys zs : List ℕ) → (length (xs ++ (le 2 n ++ ys)) == 0) ≡ false
  not_empty n xs ys zs =
      let e : length (xs ++ (le 2 n ++ ys)) ≡ length xs + (2 + length ys) =
        omega (arith, length-append xs (le 2 n ++ ys), length-append (le 2 n) ys, length-le 2 n) in
      ground (arith, e)

  -- On a socket that takes all, a packet whose box is 16 bytes longer than it goes out behind what
  -- was waiting, as the length of the box in two bytes and the box under the next nonce, which is
  -- used up.
  send_data_wire :
      (packet sealed wire : List ℕ) (more : List Sent) (s : Session f)
      → s.socket ≡ some (record { sends = accepts ∷ more; wire = wire })
      → c.box packet (make_nonce s.nonce_prefix s.counter) s.session_server_pk s.session_sk
        ≡ some sealed
      → length sealed ≡ length packet + 16
      → send_data c f packet s ≡ (
        ok tt,
        record s {
          counter = (s.counter + 1) % 2 ^ 64;
          socket = some (record {
            sends = more;
            wire = wire ++ (s.write_buffer ++ (le 2 (length packet + 16) ++ sealed));
          });
          write_buffer = [];
        },
      )
  unfolding send_data
  send_data_wire packet sealed wire more s k e l = rw (
    e,
    frame_lem (length packet) sealed l,
    not_empty (length packet + 16) s.write_buffer sealed [],
    k,
  )

  consume-append :
      (n : ℕ) (xs ys : List ℕ) (s : Session f)
      → length xs ≡ n
      → s.read_buffer ≡ xs ++ ys
      → consume n s ≡ (ok xs, record s { read_buffer = ys })
  unfolding consume
  consume-append n xs ys s h e =
      let room : length (xs ++ ys) ≡ n + length ys = omega (arith, length-append xs ys) in
      rw (
        e,
        le→ltb_false (length (xs ++ ys)) n (omega arith),
        take-append n xs ys h,
        drop-append n xs ys h,
      )

  pub read_header_frame :
      (size : ℕ) (rest : List ℕ) (s : Session f)
      → size < 2 ^ 16
      → s.read_buffer ≡ le 2 size ++ rest
      → read_header c f s
        ≡ (ok tt, record s { state = wait_pkt; next_read_size = size; read_buffer = rest })
  unfolding read_header
  read_header_frame size rest s fits e = rw (
    consume-append 2 (le 2 size) rest s (length-le 2 size) e,
    read_header,
    rw append-nil at (letoh-append 2 size [] fits),
  )

  read_packet_frame :
      (sealed body rest : List ℕ) (p : Packet f) (s : Session f)
      → s.read_buffer ≡ sealed ++ rest
      → IsCrypto c
      → c.box_open sealed
          (make_nonce s.server_nonce_prefix s.server_counter)
          s.session_server_pk
          s.session_sk
        ≡ some body
      → from_packet f body ≡ ok p
      → read_packet c f (length sealed) s ≡ (
        ok tt,
        record s {
          read_buffer = rest;
          server_counter = (s.server_counter + 1) % 2 ^ 64;
          packet_queue = s.packet_queue ++ (p ∷ []);
        },
      )
  unfolding read_packet
  read_packet_frame sealed body rest p s rb laws e r =
      let l : length sealed ≡ length body + 16 =
        laws.open_length sealed _ s.session_server_pk s.session_sk body e in
      rw (
        consume-append (length sealed) sealed rest s refl rb,
        read_packet,
        le→ltb_false (length sealed) 16 (omega arith),
        decrypt_inplace_ok c body (make_nonce s.server_nonce_prefix s.server_counter)
            s.session_server_pk s.session_sk sealed laws e,
        take_opened body sealed l,
        r,
      )

  -- Two rounds read such a frame: the box is opened under the next nonce of the server, and the packet in
  -- it is queued behind the others.
  pub read_frame :
      (n : List ℕ) (sealed body rest : List ℕ) (p : Packet f) (s : Session f)
      → s.state ≡ wait_pkt_header
      → s.read_buffer ≡ le 2 (length sealed) ++ (sealed ++ rest)
      → length sealed < 2 ^ 16
      → IsCrypto c
      → c.box_open sealed
          (make_nonce s.server_nonce_prefix s.server_counter)
          s.session_server_pk
          s.session_sk
        ≡ some body
      → from_packet f body ≡ ok p
      → bind (packet_ready c f n wait_pkt_header s) (λ _ s'. packet_ready c f n s'.state s') ≡ (
        ok tt,
        record s {
          state = wait_pkt_header;
          next_read_size = 2;
          read_buffer = rest;
          server_counter = (s.server_counter + 1) % 2 ^ 64;
          packet_queue = s.packet_queue ++ (p ∷ []);
        },
      )
  unfolding packet_ready
  read_frame n sealed body rest p s st rb fits laws e r = rw (
    read_header_frame (length sealed) (sealed ++ rest) s fits rb,
    read_packet_frame sealed body rest p
        (record s {
          state = wait_pkt;
          next_read_size = length sealed;
          read_buffer = sealed ++ rest;
        })
        refl laws e r,
  )

  -- What a session with an empty write buffer sends over a socket that takes all, a session that
  -- waits for a header reads in two rounds and queues behind its other packets, and both counters
  -- agree again, if the two hold each other's keys and count alike, the boxes open with the keys
  -- that sealed them, the packet can be read, and its sealed length fits two bytes.
  pub read_frame-send_data :
      (n packet sealed wire rest : List ℕ) (more : List Sent) (p : Packet f) (s t : Session f)
      → IsCrypto c
      → s.socket ≡ some (record { sends = accepts ∷ more; wire = wire })
      → s.write_buffer ≡ []
      → s.session_server_pk ≡ c.derive t.session_sk
      → t.session_server_pk ≡ c.derive s.session_sk
      → t.server_nonce_prefix ≡ s.nonce_prefix
      → t.server_counter ≡ s.counter
      → t.state ≡ wait_pkt_header
      → c.box packet (make_nonce s.nonce_prefix s.counter) s.session_server_pk s.session_sk
        ≡ some sealed
      → length packet + 16 < 2 ^ 16
      → from_packet f packet ≡ ok p
      → (framed : List ℕ) × ((send_data c f packet s).1.socket
          ≡ some (record { sends = more; wire = wire ++ framed }))
        × ((t' : Session f) × (bind
                (packet_ready c f n wait_pkt_header (record t { read_buffer = framed ++ rest }))
                (λ _ t'. packet_ready c f n t'.state t')
              ≡ (ok tt, t'))
            × (t'.packet_queue ≡ t.packet_queue ++ (p ∷ []))
            × (t'.read_buffer ≡ rest)
            × (t'.server_counter ≡ (send_data c f packet s).1.counter))
  read_frame-send_data n packet sealed wire rest more p s t laws k w ks kt np nc st e fits r =
      let l : length sealed ≡ length packet + 16 =
        laws.box_length packet (make_nonce s.nonce_prefix s.counter) s.session_server_pk
          s.session_sk sealed e in
      let sent = send_data_wire packet sealed wire more s k e l in
      let framed : List ℕ = le 2 (length packet + 16) ++ sealed in
      let t1 : Session f = record t { read_buffer = framed ++ rest } in
      let sealed_for_t : c.box packet (make_nonce s.nonce_prefix s.counter) (c.derive t.session_sk)
            s.session_sk
          ≡ some sealed =
        cc (ks, e) in
      let opens =
        laws.open-box packet (make_nonce s.nonce_prefix s.counter) s.session_sk t.session_sk sealed
          sealed_for_t in
      let opened : c.box_open sealed (make_nonce t.server_nonce_prefix t.server_counter)
            t.session_server_pk t.session_sk
          ≡ some packet =
        cc (opens, np, nc, kt) in
      let ahead : framed ++ rest ≡ le 2 (length sealed) ++ (sealed ++ rest) =
        append_assoc (le 2 (length packet + 16)) sealed rest
        ∙ ap (λ m. le 2 m ++ (sealed ++ rest)) (sym l) in
      (
        framed,
        ap (λ x. x.1.socket) sent
            ∙ ap (λ b. some (record { sends = more; wire = wire ++ (b ++ framed) })) w,
        (
          record t {
            state = wait_pkt_header;
            next_read_size = 2;
            read_buffer = rest;
            server_counter = (t.server_counter + 1) % 2 ^ 64;
            packet_queue = t.packet_queue ++ (p ∷ []);
          },
          read_frame n sealed packet rest p t1 st ahead (omega arith) laws opened r,
          refl,
          refl,
          ap (λ m. (m + 1) % 2 ^ 64) nc ∙ sym (ap (λ x. x.1.counter) sent),
        ),
      )

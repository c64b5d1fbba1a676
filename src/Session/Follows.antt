-- ===== src/Session/Follows.antt =====
-- The methods of Session (src/protocol/session.cpp) with more bytes in the read buffer than they take.
use ceema.Prelude.{
  ℕ, zero, suc, ◌+◌, ◌%◌, ◌^◌, ◌≡◌, ◌≤◌, ap, inl, inr, refl, ltb, false, Bool-cases, Option, none,
  some, List, [], ◌∷◌, ◌++◌, length, length-append, take, drop, arith, Result, Error, ok, err,
  session_exception,
}
use ceema.Encoding.Crypto.{Crypto, decrypt_inplace}
use ceema.Packet.Packet.{Packet}
use ceema.Payload.MessagePayload.{Formats}
use ceema.Session.State.{
  State, disconnected, wait_connect, wait_hello, wait_auth, wait_pkt_header, wait_pkt, Session,
  bind, ◌>>◌, M, consume, make_nonce, send_bytes, on_ready_write, next_server_nonce,
}
use ceema.Session.Machine.{
  packet_ready, send_hello, or_throw, accept_hello, go_on, read_hello, send_auth, read_ack, enqueue,
  read_packet, read_header,
}

-- A cut that ends before the appended bytes.
take_before : (n : ℕ) (xs ys : List ℕ) → n ≤ length xs → take n (xs ++ ys) ≡ take n xs
take_before zero xs ys h = refl
take_before (suc n) [] ys h = absurd (omega arith)
take_before (suc n) (x ∷ xs) ys h = ap (◌∷◌ x) (take_before n xs ys (omega arith))

drop_before : (n : ℕ) (xs ys : List ℕ) → n ≤ length xs → drop n (xs ++ ys) ≡ drop n xs ++ ys
drop_before zero xs ys h = refl
drop_before (suc n) [] ys h = absurd (omega arith)
drop_before (suc n) (x ∷ xs) ys h = drop_before n xs ys (omega arith)

module _ {f : Formats} where
  -- The session with more bytes behind those that it has read.
  abbrev pub later : List ℕ → Session f → Session f
  later x s = record s { read_buffer = s.read_buffer ++ x }

  -- Where the one run returns, the other returns the same, and keeps the further bytes.
  abbrev pub Follows : {A : Type 0} → List ℕ → Result A × Session f → Result A × Session f → Type 0
  Follows x (ok a, s) r = r ≡ (ok a, later x s)
  Follows x (err e, s) r = Unit {0}

  pub bind-Follows :
      {A B : Type 0} (x : List ℕ) (k : A → M f B) (r r' : Result A × Session f)
      → Follows x r r'
      → ((a : A) (s : Session f) → Follows x (k a s) (k a (later x s)))
      → Follows x (bind r k) (bind r' k)
  bind-Follows x k (ok a, s) r' h g = rw h (g a s)
  bind-Follows x k (err e, s) r' h g = tt

  send_bytes-Follows :
      (x out : List ℕ) (s : Session f) → Follows x (send_bytes out s) (send_bytes out (later x s))
  unfolding send_bytes on_ready_write
  send_bytes-Follows x out s = ground arith

  consume-Follows :
      (x : List ℕ) (n : ℕ) (s : Session f) → Follows x (consume n s) (consume n (later x s))
  unfolding consume
  consume-Follows x n s = elim (Bool-cases (ltb (length s.read_buffer) n)) [
    | inl e ↦ rw e tt
    | inr e ↦
        let h : n ≤ length s.read_buffer = ground arith in
        let e' : ltb (length (s.read_buffer ++ x)) n ≡ false =
          ground (arith, length-append s.read_buffer x) in
        rw (e, e', take_before n s.read_buffer x h, drop_before n s.read_buffer x h) refl
  ]

module _ (c : Crypto) (f : Formats) where
  or_throw-Follows :
      (x : List ℕ) (e : Error) (r : Result (Option (List ℕ))) (s : Session f)
      → Follows x (or_throw c f e r s) (or_throw c f e r (later x s))
  or_throw-Follows x e (ok (some r)) s = refl
  or_throw-Follows x e (ok none) s = tt
  or_throw-Follows x e (err z) s = tt

  read_ack-Follows :
      (x : List ℕ) (s : Session f) → Follows x (read_ack c f s) (read_ack c f (later x s))
  unfolding read_ack
  read_ack-Follows x s =
      bind-Follows x _ (consume 32 s) (consume 32 (later x s)) (consume-Follows x 32 s)
        (λ packet s1. ground arith)

  accept_hello-Follows :
      (x plain : List ℕ) (s : Session f)
      → Follows x (accept_hello c f plain s) (accept_hello c f plain (later x s))
  unfolding accept_hello
  accept_hello-Follows x plain s = ground arith

  read_hello-Follows :
      (x : List ℕ) (s : Session f) → Follows x (read_hello c f s) (read_hello c f (later x s))
  unfolding read_hello next_server_nonce
  read_hello-Follows x s =
      bind-Follows x _ (consume 80 s) (consume 80 (later x s)) (consume-Follows x 80 s)
        (λ packet s1.
          let s2 : Session f = record s1 {
            server_nonce_prefix = take 16 packet;
            server_counter = (s1.server_counter + 1) % 2 ^ 64;
          } in
          let box : Result (Option (List ℕ)) =
            decrypt_inplace c (drop 16 packet) (make_nonce (take 16 packet) s1.server_counter)
              s1.server_pk s1.session_sk in
          bind-Follows x (accept_hello c f) (or_throw c f session_exception box s2)
            (or_throw c f session_exception box (later x s2))
            (or_throw-Follows x session_exception box s2)
            (λ plain s3. accept_hello-Follows x plain s3))

  send_auth-Follows :
      (x n : List ℕ) (s : Session f) → Follows x (send_auth c f n s) (send_auth c f n (later x s))
  unfolding send_auth
  send_auth-Follows x n s = ground arith

  enqueue-Follows :
      (x : List ℕ) (r : Result (Packet f)) (s : Session f)
      → Follows x (enqueue c f r s) (enqueue c f r (later x s))
  unfolding enqueue
  enqueue-Follows x r s = ground arith

  read_packet-Follows :
      (x : List ℕ) (n : ℕ) (s : Session f)
      → Follows x (read_packet c f n s) (read_packet c f n (later x s))
  unfolding read_packet
  read_packet-Follows x n s =
      bind-Follows x _ (consume n s) (consume n (later x s)) (consume-Follows x n s)
        (λ packet s1. ground arith)

  read_header-Follows :
      (x : List ℕ) (s : Session f) → Follows x (read_header c f s) (read_header c f (later x s))
  unfolding read_header
  read_header-Follows x s =
      bind-Follows x _ (consume 2 s) (consume 2 (later x s)) (consume-Follows x 2 s)
        (λ packet s1. ground arith)

  send_hello-Follows :
      (x : List ℕ) (s : Session f) → Follows x (send_hello c f s) (send_hello c f (later x s))
  unfolding send_hello
  send_hello-Follows x s = send_bytes-Follows x (s.session_pk ++ s.nonce_prefix) s

  pub packet_ready-Follows :
      (x n : List ℕ) (t : State) (s : Session f)
      → Follows x (packet_ready c f n t s) (packet_ready c f n t (later x s))
  unfolding packet_ready
  packet_ready-Follows x n wait_connect s =
      bind-Follows x (λ _. go_on c f wait_hello 80) (send_hello c f s) (send_hello c f (later x s))
        (send_hello-Follows x s) (λ _ s1. refl)
  packet_ready-Follows x n wait_hello s =
      bind-Follows x (λ _. ◌>>◌ (send_auth c f n) (go_on c f wait_auth 32)) (read_hello c f s)
        (read_hello c f (later x s)) (read_hello-Follows x s)
        (λ _ s1.
          bind-Follows x (λ _. go_on c f wait_auth 32) (send_auth c f n s1)
            (send_auth c f n (later x s1)) (send_auth-Follows x n s1) (λ _ s2. refl))
  packet_ready-Follows x n wait_auth s =
      bind-Follows x (λ _. go_on c f wait_pkt_header 2) (read_ack c f s) (read_ack c f (later x s))
        (read_ack-Follows x s) (λ _ s1. refl)
  packet_ready-Follows x n wait_pkt_header s = read_header-Follows x s
  packet_ready-Follows x n wait_pkt s =
      bind-Follows x (λ _. go_on c f wait_pkt_header 2) (read_packet c f s.next_read_size s)
        (read_packet c f s.next_read_size (later x s)) (read_packet-Follows x s.next_read_size s)
        (λ _ s1. refl)
  packet_ready-Follows x n disconnected s = refl

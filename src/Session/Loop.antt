-- ===== src/Session/Loop.antt =====
-- How the loop over packets in `onReadyRead` (src/protocol/session.cpp) ends.
use ceema.Prelude.{
  ℕ, zero, suc, ◌+◌, ◌%◌, ◌^◌, ◌≡◌, ◌≢◌, ◌<◌, ◌≤◌, ◌⊎◌, inl, inr, refl, ltb, le→ltb_false, true,
  false, Bool-cases, Option, none, some, List, length, drop, length-drop, arith, Result, ok, err,
  session_exception, take, list_eq,
}
use ceema.Types.Iter.{letoh}
use ceema.Encoding.Crypto.{Crypto, decrypt_inplace}
use ceema.Payload.MessagePayload.{Formats}
use ceema.Session.State.{
  State, disconnected, wait_connect, wait_hello, wait_auth, wait_pkt_header, wait_pkt, Session,
  bind, ◌>>◌, consume, make_nonce,
}
use ceema.Session.Machine.{
  packet_ready, or_throw, accept_hello, go_on, pending, drain, read_hello, send_auth,
}
use ceema.Session.Invariant.{IsConsistent, packet_ready-IsConsistent}

module _ (c : Crypto) (f : Formats) where
  -- What a round leaves in the read buffer, where the session waits for some bytes that are there.
  abbrev pub Shrinks : Session f → Result (Unit {0}) × Session f → Type 0
  Shrinks s r = (r.0 ≢ ok tt) ⊎ (length r.1.read_buffer < length s.read_buffer)

  accept_hello_buffer :
      (plain : List ℕ) (s : Session f) → (accept_hello c f plain s).1.read_buffer ≡ s.read_buffer
  unfolding accept_hello
  accept_hello_buffer plain s =
      elim (Bool-cases (list_eq s.nonce_prefix (take 16 (drop 32 plain)))) [
        | inl e ↦ rw e
        | inr e ↦ rw e
      ]

  open_hello_buffer :
      (r : Result (Option (List ℕ))) (s : Session f)
      → (bind (or_throw c f session_exception r s) (accept_hello c f)).1.read_buffer ≡ s.read_buffer
  open_hello_buffer (ok (some plain)) s = accept_hello_buffer plain s
  open_hello_buffer (ok none) s = refl
  open_hello_buffer (err e) s = refl

  read_hello_takes :
      (s : Session f)
      → ltb (length s.read_buffer) 80 ≡ false
      → (read_hello c f s).1.read_buffer ≡ drop 80 s.read_buffer
  unfolding read_hello
  read_hello_takes s h =
      rw (h, consume)
        (open_hello_buffer
          (decrypt_inplace c (drop 16 (take 80 s.read_buffer))
            (make_nonce (take 16 (take 80 s.read_buffer)) s.server_counter) s.server_pk
            s.session_sk)
          (record s {
            read_buffer = drop 80 s.read_buffer;
            server_nonce_prefix = take 16 (take 80 s.read_buffer);
            server_counter = (s.server_counter + 1) % 2 ^ 64;
          }))

  read_hello_buffer :
      (s : Session f)
      → 80 ≤ length s.read_buffer
      → length (read_hello c f s).1.read_buffer + 80 ≤ length s.read_buffer
  read_hello_buffer s h =
      rw (read_hello_takes s (le→ltb_false _ _ h)) (omega (arith, length-drop 80 s.read_buffer))

  send_auth_buffer :
      (n : List ℕ) (s : Session f) → length (send_auth c f n s).1.read_buffer ≤ length s.read_buffer
  unfolding send_auth
  send_auth_buffer n s = ground arith

  hello-Shrinks :
      (n : List ℕ) (s : Session f) (r : Result (Unit {0}) × Session f)
      → length r.1.read_buffer + 80 ≤ length s.read_buffer
      → Shrinks s (bind r (λ _. ◌>>◌ (send_auth c f n) (go_on c f wait_auth 32)))
  hello-Shrinks n s (ok x, s') h = go (send_auth c f n s') (send_auth_buffer n s')
    where
      go :
          (r : Result (Unit {0}) × Session f)
          → length r.1.read_buffer ≤ length s'.read_buffer
          → Shrinks s (bind r (λ _. go_on c f wait_auth 32))
      go (ok x, s'') k = inr (omega arith)
      go (err e, s'') k = inl (λ x. ground arith)
  hello-Shrinks n s (err e, s') h = inl (λ x. ground arith)

  pub packet_ready-Shrinks :
      (n : List ℕ) (t : State) (s : Session f)
      → s.state ≡ t
      → IsConsistent s
      → 0 < s.next_read_size
      → s.next_read_size ≤ length s.read_buffer
      → Shrinks s (packet_ready c f n t s)
  packet_ready-Shrinks n wait_connect s e h p q = absurd (rw e at h)
  packet_ready-Shrinks n wait_hello s e h p q =
      unfold packet_ready in
      hello-Shrinks n s (read_hello c f s)
        (read_hello_buffer s (let w : s.next_read_size ≡ 80 = rw e at h in omega arith))
  packet_ready-Shrinks n wait_auth s e h p q =
      unfold packet_ready in ground (arith, length-drop 32 s.read_buffer)
  packet_ready-Shrinks n wait_pkt_header s e h p q =
      unfold packet_ready letoh in ground (arith, length-drop 2 s.read_buffer)
  packet_ready-Shrinks n wait_pkt s e h p q =
      unfold packet_ready in ground (arith, length-drop s.next_read_size s.read_buffer)
  packet_ready-Shrinks n disconnected s e h p q = absurd (omega (arith, (rw e at h)))

  pub pending_iff :
      (s : Session f)
      → pending c f s ≡ true
      → (0 < s.next_read_size) × (s.next_read_size ≤ length s.read_buffer)
  unfolding pending
  pending_iff s e = ground arith

  -- With more fuel than there are bytes in the read buffer of a consistent session, the loop over
  -- received packets ends by an exception or by its own test, that the session waits for no bytes
  -- or for more than are left, and leaves a consistent session.
  pub drain_ends :
      (fuel : ℕ) (n : List ℕ) (s : Session f)
      → length s.read_buffer < fuel
      → IsConsistent s
      → (((drain c f fuel n s).0 ≢ ok tt) ⊎ (pending c f (drain c f fuel n s).1 ≡ false))
        × IsConsistent (drain c f fuel n s).1
  unfolding drain
  drain_ends zero n s h k = absurd (omega arith)
  drain_ends (suc fuel) n s h k = elim (Bool-cases (pending c f s)) [
    | inl e ↦
        let (p, q) = pending_iff s e in
        rw (e, drain)
          (go (λ s' x y. drain_ends fuel n s' x y) (packet_ready c f n s.state s)
            (packet_ready-Shrinks n s.state s refl k p q)
            (packet_ready-IsConsistent c f n s.state s refl k))
    | inr e ↦ rw (e, drain) (inr e, k)
  ]
    where
      Ends : Session f → Type 0
      Ends s' =
          (((drain c f fuel n s').0 ≢ ok tt) ⊎ (pending c f (drain c f fuel n s').1 ≡ false))
          × IsConsistent (drain c f fuel n s').1

      go :
          ((s' : Session f) → length s'.read_buffer < fuel → IsConsistent s' → Ends s')
          → (r : Result (Unit {0}) × Session f) → Shrinks s r
          → IsConsistent r.1
          → (((bind r (λ _. drain c f fuel n)).0 ≢ ok tt)
              ⊎ (pending c f (bind r (λ _. drain c f fuel n)).1 ≡ false))
            × IsConsistent (bind r (λ _. drain c f fuel n)).1
      go ih (ok tt, s') (inl x) k' = absurd (x refl)
      go ih (ok tt, s') (inr x) k' = ih s' (omega arith) k'
      go ih (err e, s') x k' = (inl (λ y. ground arith), k')

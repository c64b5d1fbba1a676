-- ===== src/Session/Chunks.antt =====
-- `onReadyRead` (src/protocol/session.cpp) on a stream that arrives in pieces.
use ceema.Prelude.{
  ℕ, zero, suc, ◌≡◌, ◌≢◌, ◌∙◌, ap, sym, inl, inr, refl, true, Bool, Bool-cases, List, [], ◌∷◌, ◌++◌,
  append_assoc, length, arith, Result, ok, err,
}
use ceema.Types.Iter.{Input, letoh}
use ceema.Encoding.Crypto.{Crypto}
use ceema.Payload.MessagePayload.{Formats}
use ceema.Session.State.{
  State, disconnected, wait_connect, wait_hello, wait_auth, wait_pkt_header, wait_pkt, Session,
  bind, ◌>>◌, M, consume,
}
use ceema.Session.Machine.{
  packet_ready, send_hello, read_hello, send_auth, read_ack, read_header, read_packet, go_on,
  pending, drain, drain_all, receive_all, chunk, would_block, on_ready_read, read_in,
}
use ceema.Session.Invariant.{IsConsistent}
use ceema.Session.Follows.{later}
use ceema.Session.Fuel.{Round, drain-pending, drain_done, all_of, drain-later}

module _ (c : Crypto) (f : Formats) (n : List ℕ) where
  -- A call that returns leaves the session connected.
  abbrev pub Connected : {A : Type 0} → Result A × Session f → Type 0
  Connected (ok a, s) = s.state ≢ disconnected
  Connected (err e, s) = Unit {0}

  pub bind-Connected :
      {A B : Type 0} (r : Result A × Session f) (k : A → M f B)
      → ((a : A) (s : Session f) → Connected (k a s))
      → Connected (bind r k)
  bind-Connected (ok a, s) k h = h a s
  bind-Connected (err e, s) k h = tt

  packet_ready-Connected :
      (t : State) (s : Session f) → t ≢ disconnected → Connected (packet_ready c f n t s)
  unfolding packet_ready read_header
  packet_ready-Connected wait_connect s h =
      bind-Connected (send_hello c f s) (λ _. go_on c f wait_hello 80) (λ _ s1 e. ground arith)
  packet_ready-Connected wait_hello s h =
      bind-Connected (read_hello c f s) (λ _. ◌>>◌ (send_auth c f n) (go_on c f wait_auth 32))
        (λ _ s1.
          bind-Connected (send_auth c f n s1) (λ _. go_on c f wait_auth 32)
            (λ _ s2 e. ground arith))
  packet_ready-Connected wait_auth s h =
      bind-Connected (read_ack c f s) (λ _. go_on c f wait_pkt_header 2) (λ _ s1 e. ground arith)
  packet_ready-Connected wait_pkt_header s h = bind-Connected (consume 2 s) _ (λ header s1.
      bind-Connected (letoh 2 header, s1) (λ (r : ℕ × Input). go_on c f wait_pkt r.0)
        (λ _ s2 e. ground arith))
  packet_ready-Connected wait_pkt s h =
      bind-Connected (read_packet c f s.next_read_size s) (λ _. go_on c f wait_pkt_header 2)
        (λ _ s1 e. ground arith)
  packet_ready-Connected disconnected s h = absurd (h refl)

  pub drain-Connected :
      (fuel : ℕ) (s : Session f) → s.state ≢ disconnected → Connected (drain c f fuel n s)
  drain-Connected zero s h = unfold drain in h
  drain-Connected (suc fuel) s h = elim (Bool-cases (pending c f s)) [
    | inl p ↦ rw (drain-pending c f n fuel s p) (
        go (packet_ready c f n s.state s) (packet_ready-Connected s.state s h)
          (λ s1 x. drain-Connected fuel s1 x))
    | inr p ↦ rw (drain_done c f n (suc fuel) s p) h
  ]
    where
      go :
          (r : Round c f n)
          → Connected r
          → ((s1 : Session f) → s1.state ≢ disconnected → Connected (drain c f fuel n s1))
          → Connected (bind r (λ _. drain c f fuel n))
      go (ok y, s1) x ih = ih s1 x
      go (err e, s1) x ih = tt

  -- What a call does with bytes that arrive at once.
  read_chunk :
      (a : List ℕ) (t : State) (s : Session f)
      → t ≢ disconnected
      → read_in c f t (chunk a ∷ would_block ∷ []) n s
        ≡ bind (drain_all c f n (later a s)) (λ _ s'. (ok true, s'))
  unfolding read_in receive_all
  read_chunk a wait_connect s h = refl
  read_chunk a wait_hello s h = refl
  read_chunk a wait_auth s h = refl
  read_chunk a wait_pkt_header s h = refl
  read_chunk a wait_pkt s h = refl
  read_chunk a disconnected s h = absurd (h refl)

  returned :
      (r : Round c f n) (s' : Session f)
      → ◌≡◌ {A = Result Bool × Session f} (bind r (λ _ s1. (ok true, s1))) (ok true, s')
      → r ≡ (ok tt, s')
  returned (ok x, s1) s' e = ap (λ (r : Result Bool × Session f). (ok tt, r.1)) e
  returned (err x, s1) s' e = absurd (ground arith)

  later-later : (a b : List ℕ) (s : Session f) → later b (later a s) ≡ later (a ++ b) s
  later-later a b s = ap (λ l. record s { read_buffer = l }) (append_assoc s.read_buffer a b)

  -- A consistent and connected session that has read what arrived, and returned true, then reads
  -- more, and ends with the same answer and the same session as if all had arrived at once: how the
  -- stream is cut does not matter.
  pub on_ready_read_chunks :
      (a b : List ℕ) (s s' : Session f)
      → IsConsistent s
      → s.state ≢ disconnected
      → on_ready_read c f (chunk a ∷ would_block ∷ []) n s ≡ (ok true, s')
      → on_ready_read c f (chunk b ∷ would_block ∷ []) n s'
        ≡ on_ready_read c f (chunk (a ++ b) ∷ would_block ∷ []) n s
  unfolding on_ready_read
  on_ready_read_chunks a b s s' k h e =
      let r : drain_all c f n (later a s) ≡ (ok tt, s') =
        returned (drain_all c f n (later a s)) s' (sym (read_chunk a s.state s h) ∙ e) in
      let fuel : drain c f (suc (length (s.read_buffer ++ a))) n (later a s) ≡ (ok tt, s') =
        all_of c f n (suc (length (s.read_buffer ++ a))) (later a s) (omega arith) k ∙ r in
      let up : s'.state ≢ disconnected =
        rw fuel at (drain-Connected (suc (length (s.read_buffer ++ a))) (later a s) h) in
      read_chunk b s'.state s' up
      ∙ ap (λ t. bind t (λ _ s1. (ok true, s1)))
          (sym (
              drain-later c f n (suc (length (s.read_buffer ++ a))) b (later a s) s' (omega arith) k
                fuel)
            ∙ ap (drain_all c f n) (later-later a b s))
      ∙ sym (read_chunk (a ++ b) s.state s h)

-- ===== src/Session/Fuel.antt =====
-- The loop of `onReadyRead` (src/protocol/session.cpp): how much fuel is enough, and what more bytes
-- behind a read buffer change.
use ceema.Prelude.{
  ℕ, zero, suc, ◌≡◌, ◌<◌, ◌∙◌, ap, sym, inl, inr, refl, true, false, Bool-cases, List, ◌++◌, length,
  length-append, arith, Result, ok, err,
}
use ceema.Encoding.Crypto.{Crypto}
use ceema.Payload.MessagePayload.{Formats}
use ceema.Session.State.{Session, bind}
use ceema.Session.Machine.{packet_ready, pending, drain, drain_all}
use ceema.Session.Invariant.{IsConsistent, packet_ready-IsConsistent}
use ceema.Session.Loop.{Shrinks, packet_ready-Shrinks, pending_iff}
use ceema.Session.Follows.{later, Follows, packet_ready-Follows}

module _ (c : Crypto) (f : Formats) (n : List ℕ) where
  abbrev pub Round : Type 0
  Round = Result (Unit {0}) × Session f

  pub drain-pending :
      (fuel : ℕ) (s : Session f)
      → pending c f s ≡ true
      → drain c f (suc fuel) n s ≡ bind (packet_ready c f n s.state s) (λ _. drain c f fuel n)
  unfolding drain
  drain-pending fuel s e = rw (e, drain)

  pub drain_done :
      (fuel : ℕ) (s : Session f) → pending c f s ≡ false → drain c f fuel n s ≡ (ok tt, s)
  unfolding drain
  drain_done zero s e = refl
  drain_done (suc fuel) s e = rw (e, drain)

  -- A round that returns has taken a byte, and left the session consistent.
  abbrev Took : Session f → Round → Type 0
  Took s r = Shrinks c f s r × IsConsistent r.1

  took :
      (s : Session f)
      → IsConsistent s
      → pending c f s ≡ true
      → Took s (packet_ready c f n s.state s)
  took s k e =
      let (p, q) = pending_iff c f s e in
      (
        packet_ready-Shrinks c f n s.state s refl k p q,
        packet_ready-IsConsistent c f n s.state s refl k,
      )

  -- Any two amounts of fuel that are enough give the same.
  bind_same :
      (fuel fuel' : ℕ) (s : Session f) (r : Round)
      → Took s r
      → ((s' : Session f)
          → length s'.read_buffer < length s.read_buffer
          → IsConsistent s'
          → drain c f fuel n s' ≡ drain c f fuel' n s')
      → bind r (λ _. drain c f fuel n) ≡ bind r (λ _. drain c f fuel' n)
  bind_same fuel fuel' s (ok y, s') (inl x, k) ih = absurd (x refl)
  bind_same fuel fuel' s (ok y, s') (inr x, k) ih = ih s' x k
  bind_same fuel fuel' s (err e, s') t ih = refl

  enough_fuel :
      (fuel fuel' : ℕ) (s : Session f)
      → length s.read_buffer < fuel
      → length s.read_buffer < fuel'
      → IsConsistent s
      → drain c f fuel n s ≡ drain c f fuel' n s
  enough_fuel zero fuel' s h h' k = absurd (omega arith)
  enough_fuel (suc fuel) zero s h h' k = absurd (omega arith)
  enough_fuel (suc fuel) (suc fuel') s h h' k = elim (Bool-cases (pending c f s)) [
    | inl e ↦
        rw (drain-pending fuel s e, drain-pending fuel' s e)
          (bind_same fuel fuel' s (packet_ready c f n s.state s) (took s k e)
            (λ s' x y. enough_fuel fuel fuel' s' (omega arith) (omega arith) y))
    | inr e ↦ rw (drain_done (suc fuel) s e, drain_done (suc fuel') s e)
  ]

  pending-later :
      (x : List ℕ) (s : Session f) → pending c f s ≡ true → pending c f (later x s) ≡ true
  unfolding pending
  pending-later x s e = ground (arith, length-append s.read_buffer x)

  pub all_of :
      (fuel : ℕ) (s : Session f)
      → length s.read_buffer < fuel
      → IsConsistent s
      → drain c f fuel n s ≡ drain_all c f n s
  unfolding drain_all
  all_of fuel s h k = enough_fuel fuel (suc (length s.read_buffer)) s h (omega arith) k

  all_pending :
      (s : Session f)
      → pending c f s ≡ true
      → drain_all c f n s
        ≡ bind (packet_ready c f n s.state s) (λ _. drain c f (length s.read_buffer) n)
  unfolding drain_all
  all_pending s e = drain-pending (length s.read_buffer) s e

  -- A round that returns, with more bytes behind.
  step-later :
      (fuel : ℕ) (x : List ℕ) (s s' : Session f) (r r' : Round)
      → Follows x r r'
      → Took s r
      → bind r (λ _. drain c f fuel n) ≡ (ok tt, s')
      → ((s1 : Session f)
          → length s1.read_buffer < length s.read_buffer
          → IsConsistent s1
          → drain c f fuel n s1 ≡ (ok tt, s')
          → drain_all c f n (later x s1) ≡ drain_all c f n (later x s'))
      → bind r' (λ _. drain c f (length (s.read_buffer ++ x)) n) ≡ drain_all c f n (later x s')
  step-later fuel x s s' (ok y, s1) r' a (inl z, k) e ih = absurd (z refl)
  step-later fuel x s s' (ok y, s1) r' a (inr z, k) e ih =
      let less : length (s1.read_buffer ++ x) < length (s.read_buffer ++ x) =
        omega (arith, length-append s.read_buffer x, length-append s1.read_buffer x) in
      rw a (all_of (length (s.read_buffer ++ x)) (later x s1) less k ∙ ih s1 z k e)
  step-later fuel x s s' (err y, s1) r' a t e ih = absurd (ground arith)

  -- The loop over a buffer, and then over more bytes behind what it left, is the loop over both.
  pub drain-later :
      (fuel : ℕ) (x : List ℕ) (s s' : Session f)
      → length s.read_buffer < fuel
      → IsConsistent s
      → drain c f fuel n s ≡ (ok tt, s')
      → drain_all c f n (later x s) ≡ drain_all c f n (later x s')
  drain-later zero x s s' h k e = absurd (omega arith)
  drain-later (suc fuel) x s s' h k e = elim (Bool-cases (pending c f s)) [
    | inl p ↦
        all_pending (later x s) (pending-later x s p)
        ∙ step-later fuel x s s' (packet_ready c f n s.state s)
            (packet_ready c f n s.state (later x s)) (packet_ready-Follows c f x n s.state s)
            (took s k p) (sym (drain-pending fuel s p) ∙ e)
            (λ s1 w y z. drain-later fuel x s1 s' (omega arith) y z)
    | inr p ↦
        ap (λ t. drain_all c f n (later x t)) (ap (λ r. r.1) (sym (drain_done (suc fuel) s p) ∙ e))
  ]

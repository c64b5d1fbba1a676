-- ===== src/Session/Nonce.antt =====
-- The nonces that a session of src/protocol/session.cpp seals its packets with.
use ceema.Prelude.{
  ℕ, zero, suc, ◌+◌, ◌%◌, ◌^◌, ◌<◌, ◌≡◌, ◌≢◌, ◌∙◌, refl, sym, ap, List, length, drop, drop-append,
  arith, ok,
}
use ceema.Types.Bytes.{le, of_le, of_le-le}
use ceema.Payload.MessagePayload.{Formats}
use ceema.Session.State.{Session, make_nonce, next_client_nonce}

-- Two numbers of eight bytes give two nonces.
pub make_nonce-injective :
    (prefix : List ℕ) (a b : ℕ)
    → a < 2 ^ 64
    → b < 2 ^ 64
    → make_nonce prefix a ≡ make_nonce prefix b
    → a ≡ b
unfolding make_nonce
make_nonce-injective prefix a b ha hb e =
    let tail : le 8 a ≡ le 8 b =
      sym (drop-append (length prefix) prefix (le 8 a) refl)
      ∙ ap (drop (length prefix)) e
      ∙ drop-append (length prefix) prefix (le 8 b) refl in
    sym (of_le-le 8 a ha) ∙ ap of_le tail ∙ of_le-le 8 b hb

module _ {f : Formats} where
  -- The session after `n` nonces have been drawn from it.
  unfoldable pub drawn : ℕ → Session f → Session f
  unfolding next_client_nonce
  drawn zero s = s
  drawn (suc n) s = drawn n (next_client_nonce s).1

  drawn_keeps :
      (n : ℕ) (s : Session f)
      → s.counter + n < 2 ^ 64
      → ((drawn n s).counter ≡ s.counter + n) × ((drawn n s).nonce_prefix ≡ s.nonce_prefix)
  unfolding drawn
  drawn_keeps zero s h = (omega arith, refl)
  drawn_keeps (suc n) s h =
      let e : (s.counter + 1) % 2 ^ 64 ≡ s.counter + 1 = omega arith in
      let (p, q) = drawn_keeps n (next_client_nonce s).1 (omega (arith, e)) in
      (omega (arith, p, e), q)

  next_nonce : (s : Session f) → (next_client_nonce s).0 ≡ ok (make_nonce s.nonce_prefix s.counter)
  unfolding next_client_nonce
  next_nonce s = refl

  drawn_nonce :
      (n : ℕ) (s : Session f)
      → s.counter + n < 2 ^ 64
      → (next_client_nonce (drawn n s)).0 ≡ ok (make_nonce s.nonce_prefix (s.counter + n))
  drawn_nonce n s h = let (c, p) = drawn_keeps n s h in next_nonce (drawn n s) ∙ cc (c, p)

  -- Two different draws of a client nonce from one session give different nonces, as long as the
  -- counter of 64 bits does not come round.
  pub client_nonces_differ :
      (s : Session f) (i j : ℕ)
      → i < j
      → s.counter + j < 2 ^ 64
      → (next_client_nonce (drawn i s)).0 ≢ (next_client_nonce (drawn j s)).0
  client_nonces_differ s i j h fits e =
      let same : make_nonce s.nonce_prefix (s.counter + i)
          ≡ make_nonce s.nonce_prefix (s.counter + j) =
        cc (e, drawn_nonce i s (omega arith), drawn_nonce j s fits) in
      let eq : s.counter + i ≡ s.counter + j =
        make_nonce-injective s.nonce_prefix (s.counter + i) (s.counter + j) (omega arith) fits
          same in
      absurd (omega arith)

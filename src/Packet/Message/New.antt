-- ===== src/Packet/Message/New.antt =====
-- The constructor of Message (src/protocol/packet/Message.h) and the message ids that it draws
-- (src/protocol/packet/message_id.h).
use ceema.Prelude.{ℕ, zero, suc, ◌+◌, ◌%◌, ◌<◌, ◌≡◌, ◌≢◌, ap, List, [], ◌∷◌, get_or, arith}
use ceema.Payload.MessagePayload.{Formats, MessagePayload}
use ceema.Payload.MessagePayload.DefaultFlags.{default_flags}
use ceema.Packet.PacketType.{PacketType}
use ceema.Packet.Message.{Message}

-- `gen_message_id`: the static counter of 8 bits is an argument and a result, and the six random bytes
-- are an argument.
unfoldable pub gen_message_id : List ℕ → ℕ → List ℕ × ℕ
gen_message_id random counter = (0xce ∷ counter ∷ random, (counter + 1) % 256)

-- The counter behind so many messages.
unfoldable pub counted : ℕ → ℕ → ℕ
unfolding gen_message_id
counted zero counter = counter
counted (suc n) counter = counted n (gen_message_id [] counter).1

module _ (f : Formats) where
  -- The time in seconds and the nonce are drawn by the call.
  unfoldable pub new_message :
      List ℕ → List ℕ → MessagePayload f → List ℕ → ℕ → List ℕ → ℕ → Message f × ℕ
  unfolding gen_message_id default_flags
  new_message sender recipient payload random time nonce counter =
      let (id, counter') = gen_message_id random counter in
      (
        record {
          type = PacketType.message_send;
          sender = sender;
          recipient = recipient;
          id = id;
          time = time;
          flags = default_flags f payload;
          nick = sender;
          nonce = nonce;
          payload_data = [];
          payload = payload;
        },
        counter',
      )

counted_lem : (n counter : ℕ) → counter < 256 → counted n counter ≡ (counter + n) % 256
unfolding counted gen_message_id
counted_lem zero counter h = omega arith
counted_lem (suc n) counter h = omega (arith, counted_lem n ((counter + 1) % 256) (omega arith))

module _ (f : Formats) where
  -- A message differs in its id from the one made behind n others, whatever they hold and whatever
  -- is drawn, as long as n + 1 is less than 256.
  pub new_message_ids_differ :
      (sender recipient sender' recipient' : List ℕ) (payload payload' : MessagePayload f)
      (random random' : List ℕ) (time time' : ℕ) (nonce nonce' : List ℕ) (n counter : ℕ)
      → counter < 256
      → n + 1 < 256
      → (new_message f sender recipient payload random time nonce counter).0.id
        ≢ (new_message f sender' recipient' payload' random' time' nonce'
            (counted n (new_message f sender recipient payload random time nonce counter).1)).0.id
  unfolding new_message gen_message_id
  new_message_ids_differ s r s' r' p p' a a' t t' m m' n counter h k e =
      let d : counter ≡ counted n ((counter + 1) % 256) = ap (λ (l : List ℕ). get_or l 1 0) e in
      omega (arith, counted_lem n ((counter + 1) % 256) (omega arith))

-- ===== src/Packet/Message/Safety.antt =====
-- What Message::fromPacket of src/protocol/packet/Message.cpp does on any packet.
use ceema.Prelude.{
  ℕ, ◌+◌, ◌-◌, ◌≤◌, ◌≡◌, ◌≢◌, ◌∙◌, le→ltb_false, take, drop-drop, refl, List, [], length, drop,
  length-drop, ltb, inl, inr, Bool-cases, arith, ok, err, out_of_bounds,
}
use ceema.Types.Bytes.{of_le}
use ceema.Types.Iter.{Input, copy_iter, letoh, copy_iter_ok, letoh_ok, copy_iter_whole}
use native.Mathlib.Nat.{add_comm}
use ceema.Packet.PacketType.{PacketType}
use ceema.Payload.MessagePayload.{Formats, MessagePayload}
use ceema.Packet.Message.{Message, from_packet, c_string}

drop-drop-list :
    (xs : List ℕ)
    → drop 24 (drop 32 (drop 4 (drop 4 (drop 8 (drop 8 (drop 8 (drop 4 xs))))))) ≡ drop 92 xs
drop-drop-list xs = rw (
  drop-drop 4 8 xs,
  drop-drop 12 8 xs,
  drop-drop 20 8 xs,
  drop-drop 28 4 xs,
  drop-drop 32 4 xs,
  drop-drop 36 32 xs,
  drop-drop 68 24 xs,
)

-- A read of `n` bytes out of `n + k` leaves `k`.
copy_iter_step :
    (n k : ℕ) (it : Input)
    → length it ≡ n + k
    → (copy_iter n it ≡ ok (take n it, drop n it)) × (length (drop n it) ≡ k)
copy_iter_step n k it h = (copy_iter_ok n it (omega arith), omega (arith, length-drop n it))

letoh_step :
    (n k : ℕ) (it : Input)
    → length it ≡ n + k
    → (letoh n it ≡ ok (of_le (take n it), drop n it)) × (length (drop n it) ≡ k)
letoh_step n k it h = (letoh_ok n it (omega arith), omega (arith, length-drop n it))

size_of_rest :
    (n k : ℕ) → 108 ≤ n → k ≡ n - 108 → n - 4 ≡ 8 + (8 + (8 + (4 + (4 + (32 + (24 + (16 + k)))))))
size_of_rest n k h e = omega arith

module _ (f : Formats) where
  -- Every packet of 108 bytes or more is read as a message of type MESSAGE_RECV, whose sender is
  -- the eight bytes behind the packet type and whose payload is all that follows the header's 92
  -- bytes.
  pub from_packet_total :
      (packet : List ℕ)
      → 108 ≤ length packet
      → (m : Message f) × (from_packet f PacketType.message_recv packet ≡ ok m)
        × (m.payload_data ≡ drop 92 packet)
        × (m.sender ≡ take 8 (drop 4 packet))
        × (m.type ≡ PacketType.message_recv)
  unfolding from_packet
  from_packet_total packet h =
      let k : ℕ = length packet - 108 in
      let i0 : Input = drop 4 packet in
      let s0 : length i0 ≡ 8 + (8 + (8 + (4 + (4 + (32 + (24 + (16 + k))))))) =
        length-drop 4 packet ∙ size_of_rest (length packet) k h refl in
      let (e1, s1) = copy_iter_step 8 (8 + (8 + (4 + (4 + (32 + (24 + (16 + k))))))) i0 s0 in
      let i1 : Input = drop 8 i0 in
      let (e2, s2) = copy_iter_step 8 (8 + (4 + (4 + (32 + (24 + (16 + k)))))) i1 s1 in
      let i2 : Input = drop 8 i1 in
      let (e3, s3) = copy_iter_step 8 (4 + (4 + (32 + (24 + (16 + k))))) i2 s2 in
      let i3 : Input = drop 8 i2 in
      let (e4, s4) = letoh_step 4 (4 + (32 + (24 + (16 + k)))) i3 s3 in
      let i4 : Input = drop 4 i3 in
      let (e5, s5) = letoh_step 4 (32 + (24 + (16 + k))) i4 s4 in
      let i5 : Input = drop 4 i4 in
      let (e6, s6) = copy_iter_step 32 (24 + (16 + k)) i5 s5 in
      let i6 : Input = drop 32 i5 in
      let (e7, s7) = copy_iter_step 24 (16 + k) i6 s6 in
      let i7 : Input = drop 24 i6 in
      let n : ℕ = length packet - 108 + 16 in
      let e8 : copy_iter n i7 ≡ ok (i7, []) = copy_iter_whole n i7 (s7 ∙ add_comm 16 k) in
      (
        record {
          type = PacketType.message_recv;
          sender = take 8 i0;
          recipient = take 8 i1;
          id = take 8 i2;
          time = of_le (take 4 i3);
          flags = of_le (take 4 i4);
          nick = c_string (take 32 i5);
          nonce = take 24 i6;
          payload_data = i7;
          payload = MessagePayload.payload_none;
        },
        rw (le→ltb_false _ _ h, e1, e2, e3, e4, e5, e6, e7, e8),
        drop-drop-list packet,
        refl,
        refl,
      )

  -- Every other packet is refused, so no read leaves the packet.
  pub from_packet_safe :
      (t : PacketType) (packet : List ℕ) → from_packet f t packet ≢ err out_of_bounds
  from_packet_safe t packet = elim (Bool-cases (ltb (length packet) 108)) [
    | inl e ↦ unfold from_packet in ground arith
    | inr e ↦
        let (m, r, _, _, _) = from_packet_total packet (ground arith) in at_type t (rw r (λ x. cc))
  ]
    where
      at_type :
          (t : PacketType)
          → from_packet f PacketType.message_recv packet ≢ err out_of_bounds
          → from_packet f t packet ≢ err out_of_bounds
      at_type PacketType.message_recv h = h
      at_type _ h = unfold from_packet in λ x. cc

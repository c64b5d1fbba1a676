-- ===== src/Tests/Sessions.antt =====
-- Runs of the session, and its theorems at concrete inputs.
use ceema.Prelude.{
  ◌≡◌, ◌≢◌, ◌⊎◌, refl, ℕ, List, [], ◌∷◌, ◌++◌, replicate, take, drop, none, some, true, false,
  arith, ok, err, socket_exception,
}
use ceema.Types.Bytes.{le, of_le}
use ceema.Types.Iter.{letoh}
use ceema.Packet.Packet.{Packet, from_packet}
use ceema.Packet.PacketType.{PacketType, of_code}
use ceema.Session.State.{State, Session, accepts, bind, next_client_nonce}
use ceema.Session.Machine.{
  chunk, would_block, packet_ready, pending, drain, send_data, on_ready_read,
}
use ceema.Session.Invariant.{IsConsistent}
use ceema.Session.Loop.{drain_ends}
use ceema.Contact.{account}
use ceema.Session.Calls.{
  Call, connecting, reading, writing, getting, new_session, after_calls, after_calls-IsConsistent,
}
use ceema.Session.Nonce.{drawn, client_nonces_differ}
use ceema.Session.Framing.{read_frame-send_data}
use ceema.Session.Chunks.{on_ready_read_chunks}
use ceema.Session.Stall.{IsStalled, on_ready_read-IsStalled}
use ceema.Tests.Setup.{alice_id, no_formats, plain_crypto, plain-IsCrypto, ready}

-- The packet that the server sends when all waiting messages are through.
abbrev connected_packet : List ℕ
connected_packet = 0xd0 ∷ 0 ∷ 0 ∷ 0 ∷ []

connected_read : from_packet no_formats connected_packet ≡ ok (Packet.status PacketType.connected)
unfolding from_packet letoh of_le of_code
connected_read = refl

abbrev connected_box : List ℕ
connected_box = replicate 16 7 ++ connected_packet

read_frame-send_data_example :
    (framed : List ℕ) × ((send_data plain_crypto no_formats connected_packet ready).1.socket
      ≡ some (record { sends = []; wire = framed }))
    × ((t : Session no_formats) × (bind
            (packet_ready plain_crypto no_formats [] State.wait_pkt_header
              (record ready { read_buffer = framed ++ (1 ∷ []) }))
            (λ _ s. packet_ready plain_crypto no_formats [] s.state s)
          ≡ (ok tt, t))
        × (t.packet_queue ≡ Packet.status PacketType.connected ∷ [])
        × (t.read_buffer ≡ 1 ∷ [])
        × (t.server_counter ≡ (send_data plain_crypto no_formats connected_packet ready).1.counter))
read_frame-send_data_example =
    read_frame-send_data plain_crypto no_formats [] connected_packet connected_box [] (1 ∷ []) []
      (Packet.status PacketType.connected) ready ready plain-IsCrypto refl refl refl refl refl refl
      refl refl (omega arith) connected_read

-- A header and half of its packet.
abbrev half_read : Session no_formats
half_read = record ready { read_buffer = 20 ∷ 0 ∷ 7 ∷ 7 ∷ [] }

drain_ends_example :
    (((drain plain_crypto no_formats 5 [] half_read).0 ≢ ok tt)
      ⊎ (pending plain_crypto no_formats (drain plain_crypto no_formats 5 [] half_read).1 ≡ false))
    × IsConsistent (drain plain_crypto no_formats 5 [] half_read).1
drain_ends_example = drain_ends plain_crypto no_formats 5 [] half_read (omega arith) refl

client_nonces_differ_example :
    (next_client_nonce (drawn 0 ready)).0 ≢ (next_client_nonce (drawn 2 ready)).0
client_nonces_differ_example = client_nonces_differ ready 0 2 (omega arith) (omega arith)

abbrev stalled : Session no_formats
stalled = record ready { state = State.wait_pkt; next_read_size = 0 }

on_ready_read-IsStalled_example :
    ((on_ready_read plain_crypto no_formats
        (chunk connected_box ∷ would_block ∷ [])
        []
        stalled).1.packet_queue
      ≡ [])
    × (((on_ready_read plain_crypto no_formats
            (chunk connected_box ∷ would_block ∷ [])
            []
            stalled).0
          ≡ err socket_exception)
        ⊎ IsStalled plain_crypto no_formats
            (on_ready_read plain_crypto no_formats
              (chunk connected_box ∷ would_block ∷ [])
              []
              stalled).1)
on_ready_read-IsStalled_example =
    on_ready_read-IsStalled plain_crypto no_formats (chunk connected_box ∷ would_block ∷ []) []
      stalled (refl, refl)

abbrev some_calls : List (Call no_formats)
some_calls =
    connecting (record { sends = accepts ∷ accepts ∷ []; wire = [] }) true (replicate 16 3)
      (some (replicate 32 4, replicate 32 5))
    ∷ reading (chunk (0 ∷ 0 ∷ []) ∷ would_block ∷ []) (replicate 24 6)
    ∷ writing
    ∷ getting
    ∷ connecting (record { sends = []; wire = [] }) false (replicate 16 3) none
    ∷ []

after_calls-IsConsistent_example : IsConsistent (
    after_calls plain_crypto no_formats some_calls
      (new_session (account plain_crypto alice_id (replicate 32 1)) []))
after_calls-IsConsistent_example =
    after_calls-IsConsistent plain_crypto no_formats some_calls
      (account plain_crypto alice_id (replicate 32 1)) []

-- The packet, cut behind three bytes of its frame.
on_ready_read_chunks_example :
    on_ready_read plain_crypto no_formats
      (chunk (drop 3 (le 2 20 ++ connected_box)) ∷ would_block ∷ [])
      []
      (record ready { state = State.wait_pkt; next_read_size = 20; read_buffer = 7 ∷ [] })
    ≡ on_ready_read plain_crypto no_formats
        (chunk (take 3 (le 2 20 ++ connected_box) ++ drop 3 (le 2 20 ++ connected_box))
          ∷ would_block
          ∷ [])
        []
        ready
unfolding on_ready_read le packet_ready letoh of_le
on_ready_read_chunks_example =
    on_ready_read_chunks plain_crypto no_formats [] (take 3 (le 2 20 ++ connected_box))
      (drop 3 (le 2 20 ++ connected_box)) ready
      (record ready { state = State.wait_pkt; next_read_size = 20; read_buffer = 7 ∷ [] }) refl
      (λ e. ground arith) refl

-- ===== src/Tests/Connections.antt =====
-- Runs of the connection of an account, and its theorems at concrete inputs.
use ceema.Prelude.{
  ◌≡◌, ◌≢◌, ◌⊎◌, refl, [], ◌∷◌, replicate, some, true, false, arith, ok, err, logic_error,
  out_of_bounds,
}
use ceema.Packet.Packet.{Packet}
use ceema.Packet.PacketType.{PacketType}
use ceema.Session.State.{accepts, fails, next_send}
use ceema.Session.Machine.{would_block}
use ceema.Session.Calls.{has_packet}
use ceema.Contact.{account}
use ceema.Connection.{State, Connection, new_connection, start_connect}
use ceema.Connection.Read.{Handler, read_packets}
use ceema.Connection.Handlers.{on_connect, on_session_data_write, on_session_data_read}
use ceema.Connection.Steps.{Step, Reachable}
use ceema.Connection.Soundness.{IsSound}
use ceema.Connection.Life.{Reachable-IsSound}
use ceema.Connection.Queue.{read_packets_ends}
use ceema.Connection.Escape.{IsTorn, on_session_data_read_escapes, broken_write_escapes}
use ceema.Tests.Setup.{alice_id, no_formats, plain_crypto, ready, letter}

-- A message handler that does nothing.
abbrev silent : Handler no_formats
silent msg = ([], ok tt)

abbrev begun : Connection no_formats
begun = (start_connect true (new_connection (account plain_crypto alice_id (replicate 32 5)) [])).1

-- The callback of an attempt that gets through.
abbrev shaking : Connection no_formats
shaking =
    (on_connect plain_crypto no_formats (some 7) (record { sends = accepts ∷ []; wire = [] }) true
      (replicate 16 3) (some (replicate 32 4, replicate 32 4)) begun).1

begun-connecting : begun.state ≡ State.connecting
unfolding start_connect new_connection
begun-connecting = refl

shaking-Reachable : Reachable plain_crypto no_formats silent shaking
shaking-Reachable =
    Reachable.after begun shaking
      (Reachable.after (new_connection (account plain_crypto alice_id (replicate 32 5)) []) begun
        (Reachable.fresh (account plain_crypto alice_id (replicate 32 5)) [])
        (Step.starting true (new_connection (account plain_crypto alice_id (replicate 32 5)) [])))
      (Step.connect_done (some 7) (record { sends = accepts ∷ []; wire = [] }) true (replicate 16 3)
        (some (replicate 32 4, replicate 32 4)) begun begun-connecting)

Reachable-IsSound_example : IsSound shaking
Reachable-IsSound_example =
    Reachable-IsSound plain_crypto no_formats silent shaking shaking-Reachable

-- A connection whose session holds two packets.
abbrev online : Connection no_formats
online = record {
  session = record ready {
    packet_queue =
        Packet.message (record letter { type = PacketType.message_recv })
        ∷ Packet.status PacketType.disconnected
        ∷ [];
  };
  session_socket = some 7;
  input_handler_read = true;
  input_handler_write = false;
  state = State.connected;
  notices = [];
}

read_packets_ends_example :
    ((read_packets plain_crypto no_formats silent online).0 ≢ ok tt)
    ⊎ (has_packet (read_packets plain_crypto no_formats silent online).1.session ≡ false)
read_packets_ends_example = read_packets_ends plain_crypto no_formats silent online

-- A handshake whose next write fails.
abbrev failing : Connection no_formats
failing = record online {
  session = record ready {
    write_buffer = 1 ∷ [];
    socket = some (record { sends = fails ∷ []; wire = [] });
  };
  state = State.authenticating;
}

on_session_data_read_escapes_example :
    (IsTorn failing
      × ((on_session_data_read plain_crypto no_formats silent true (would_block ∷ []) [] failing).0
          ≡ err logic_error))
    ⊎ ((IsTorn failing → ⊥)
        × (((on_session_data_read plain_crypto no_formats silent true
                (would_block ∷ [])
                []
                failing).0
              ≡ ok tt)
            ⊎ ((on_session_data_read plain_crypto no_formats silent true
                  (would_block ∷ [])
                  []
                  failing).0
                ≡ err out_of_bounds)))
on_session_data_read_escapes_example =
    on_session_data_read_escapes plain_crypto no_formats silent (would_block ∷ []) [] failing

broken_write_escapes_example :
    ((on_session_data_write plain_crypto no_formats true failing).0 ≡ ok tt)
    × ((on_session_data_write plain_crypto no_formats true failing).1.input_handler_read ≡ true)
    × ((on_session_data_read plain_crypto no_formats silent true
          (would_block ∷ [])
          []
          (on_session_data_write plain_crypto no_formats true failing).1).0
        ≡ err logic_error)
unfolding next_send
broken_write_escapes_example =
    broken_write_escapes plain_crypto no_formats silent (would_block ∷ []) [] failing refl
      (omega arith) refl

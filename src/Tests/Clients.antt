-- ===== src/Tests/Clients.antt =====
-- Runs of the connection with its message handler.
use ceema.Prelude.{◌≡◌, refl, true, [], ◌∷◌, ◌++◌, replicate, ok, none}
use ceema.Contact.{contact, account}
use ceema.Payload.MessageStatus.{agreed}
use ceema.Payload.MessagePayload.{MessagePayload}
use ceema.Packet.Message.{Message}
use ceema.Packet.Message.Encryption.{decrypt}
use ceema.Connection.{new_connection}
use ceema.Handler.{MessageHandler}
use ceema.Handler.Send.{send_payload}
use ceema.Handler.Show.{on_msg_text}
use ceema.Handler.Receive.{recv}
use ceema.Client.{agreement, send_message}
use ceema.Client.Agreement.{agreement_names_text}
use ceema.Tests.Setup.{no_formats, plain_crypto, alice_id, bob_id, hello}
use ceema.Tests.Handlers.{bob, knows_alice, hi, hi_opened, plain-Seals, bob-Knows}

agreement_names_text_example :
    (sealed receipt : Message no_formats) × (h' : MessageHandler no_formats) × (send_payload
        no_formats bob alice_id
        (agreement true (recv no_formats bob hi knows_alice).1)
        (recv no_formats bob hi knows_alice).1
      ≡ (ok (recv no_formats bob hi knows_alice).1.promises, h'))
    × (h'.outbox ≡ (recv no_formats bob hi knows_alice).1.outbox ++ (sealed ∷ []))
    × (decrypt plain_crypto no_formats
          (contact bob_id (replicate 32 6))
          (account plain_crypto alice_id (replicate 32 5))
          sealed
        ≡ ok receipt)
    × (receipt.payload
        ≡ MessagePayload.message_status (record { status = agreed; ids = replicate 8 9 ∷ [] }))
agreement_names_text_example =
    agreement_names_text no_formats bob true bob_id (replicate 32 6) (replicate 32 5) hi
      (record hi { payload = hello; payload_data = [] }) (record { text = 0x68 ∷ 0x69 ∷ [] })
      knows_alice plain-Seals bob-Knows hi_opened refl refl

-- Behind a text of alice's and one of another client, the agreement with alice is about the other's.
agreement_of_another :
    agreement true
      (on_msg_text
        (record hi { sender = replicate 8 0x43; id = replicate 8 7 })
        (record { text = 0x68 ∷ [] })
        (on_msg_text hi (record { text = 0x68 ∷ [] }) knows_alice).1).1
    ≡ MessagePayload.message_status (record { status = agreed; ids = replicate 8 7 ∷ [] })
unfolding agreement on_msg_text
agreement_of_another = refl

-- A connection that is not connected sends nothing.
not_connected :
    send_message no_formats bob alice_id hello
      (record { connection = new_connection bob.self (replicate 32 6); handler = knows_alice })
    ≡ (
      ok none,
      record { connection = new_connection bob.self (replicate 32 6); handler = knows_alice },
    )
unfolding send_message new_connection
not_connected = refl

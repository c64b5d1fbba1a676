-- ===== src/Tests/Handlers.antt =====
-- Runs of the message handler of the plugin and of its contact store.
use ceema.Prelude.{
  ℕ, map, ◌≡◌, refl, false, Option, none, some, List, [], ◌∷◌, ◌++◌, replicate, ok, err,
  runtime_error, Ok, subst,
}
use ceema.Types.Flags.{MessageFlag, isset}
use ceema.Encoding.Crypto.{decrypt_inplace}
use ceema.Types.Iter.{next_byte, copy_iter}
use ceema.Types.Ids.{read_ids}
use ceema.Encoding.Hex.{hex_decode}
use ceema.Encoding.Pkcs7.{strip_padding}
use ceema.Contact.{account, contact}
use ceema.Contacts.{Contacts, get_contact, load_buddies}
use ceema.Groups.{Group, new_group}
use ceema.Payload.MessageStatus.{received, seen}
use ceema.Payload.MessageStatus
use ceema.Payload.Text
use ceema.Payload.MessageType.{MessageType, of_code}
use ceema.Payload.MessagePayload.{get_type, deserialize, MessagePayload}
use ceema.Packet.PacketType.{PacketType}
use ceema.Packet.Message.{Message}
use ceema.Packet.Message.Encryption.{decrypt}
use ceema.Handler.{Notice, MessageHandler, Context, Draw, Waiting}
use ceema.Handler.Send.{send_group, send_message, enqueue, send_payload, with_payload}
use ceema.Handler.Receive.{in_known_group, handle, unsupported, on_payload, recv, decrypt_from}
use ceema.Handler.Deliver.{on_recv_message}
use ceema.Handler.Groups.{on_msg_group_leave}
use ceema.Handler.Receipts.{Seals, Knows, send_payload_lem}
use ceema.Handler.Answers.{recv_answers}
use ceema.Handler.Opened.{Silent}
use ceema.Handler.Silence.{IsQuiet, recv-Silent}
use ceema.Handler.Authority.{Follows}
use ceema.Handler.Authority.Recv.{on_recv_message-Follows}
use ceema.Tests.Setup.{no_formats, plain_crypto, plain-IsCrypto, alice_id, bob_id, hello, letter}

abbrev pub plain-Seals : Seals plain_crypto
plain-Seals = record { laws = plain-IsCrypto; seals = λ t n pk sk. (_, refl) }

abbrev pub draws : ℕ → Draw
draws n = record { random = replicate 6 n; time = 1500000000; nonce = replicate 24 3; padding = n }

abbrev pub client : List ℕ → List ℕ → Context
client id sk = record {
  crypto = plain_crypto;
  self = account plain_crypto id sk;
  draw = draws;
  status_seen = false;
  has_chat = λ n g. false;
}

abbrev alice : Context
alice = client alice_id (replicate 32 5)

abbrev pub bob : Context
bob = client bob_id (replicate 32 6)

-- A handler with some contacts.
abbrev pub handler : Contacts → MessageHandler no_formats
handler contacts = record {
  contacts = contacts;
  groups = new_group alice_id (replicate 8 1) 1 ∷ [];
  packet_queue = [];
  last_agreeable = replicate 8 0;
  promises = 0;
  outcomes = [];
  outbox = [];
  asked = [];
  notices = [];
  draws = 0;
  counter = 0;
}

abbrev pub knows_alice : MessageHandler no_formats
knows_alice = handler ((alice_id, some (contact alice_id (replicate 32 5))) ∷ [])

abbrev knows_bob : MessageHandler no_formats
knows_bob = handler ((bob_id, some (contact bob_id (replicate 32 6))) ∷ [])

pub bob-Knows : Knows no_formats bob bob_id (replicate 32 6) alice_id (replicate 32 5) knows_alice
unfolding get_contact
bob-Knows = record { self = refl; other = refl }

send_payload_lem_example :
    (sealed : Message no_formats) × (h' : MessageHandler no_formats) × (send_payload no_formats bob
        alice_id hello knows_alice
      ≡ (ok 0, h'))
    × (h'.outbox ≡ [] ++ (sealed ∷ []))
    × (h'.outcomes ≡ [] ++ ((0, ok tt) ∷ []))
    × (decrypt plain_crypto no_formats
          (contact bob_id (replicate 32 6))
          (account plain_crypto alice_id (replicate 32 5))
          sealed
        ≡ ok (with_payload no_formats bob alice_id hello 0 0))
send_payload_lem_example =
    send_payload_lem no_formats bob bob_id (replicate 32 6) alice_id (replicate 32 5) hello
      knows_alice plain-Seals bob-Knows (λ e. cc)

-- What bob gets from alice; the box of a payload is its type byte, its bytes and the padding.
abbrev from_alice : List ℕ → Message no_formats
from_alice text = record letter {
  type = PacketType.message_recv;
  payload_data = replicate 16 7 ++ text ++ (1 ∷ []);
  payload = MessagePayload.payload_none;
}

abbrev pub hi : Message no_formats
hi = from_alice (1 ∷ 0x68 ∷ 0x69 ∷ [])

pub hi_opened :
    decrypt plain_crypto no_formats (contact alice_id (replicate 32 5)) bob.self hi
    ≡ ok (record hi { payload = hello; payload_data = [] })
unfolding decrypt decrypt_inplace strip_padding deserialize next_byte of_code Text.deserialize
    copy_iter
hi_opened = refl

not_group : isset hi.flags MessageFlag.group ≡ false
unfolding isset
not_group = refl

recv_answers_example :
    (sealed receipt : Message no_formats) × (h' : MessageHandler no_formats) × (recv no_formats bob
        hi knows_alice
      ≡ (ok tt, h'))
    × (h'.outbox ≡ [] ++ (sealed ∷ []))
    × (decrypt plain_crypto no_formats
          (contact bob_id (replicate 32 6))
          (account plain_crypto alice_id (replicate 32 5))
          sealed
        ≡ ok receipt)
    × (receipt.payload
        ≡ MessagePayload.message_status (record { status = received; ids = replicate 8 9 ∷ [] }))
recv_answers_example =
    recv_answers no_formats bob bob_id (replicate 32 6) (replicate 32 5) hi
      (record hi { payload = hello; payload_data = [] }) knows_alice plain-Seals bob-Knows hi_opened
      tt not_group refl

-- A status that alice sends.
abbrev seen_it : Message no_formats
seen_it = from_alice (0x80 ∷ 2 ∷ replicate 8 4)

seen_it-IsQuiet :
    (m : Message no_formats)
    → decrypt_from no_formats bob (get_contact alice_id knows_alice.contacts) seen_it ≡ ok m
    → IsQuiet m.payload
unfolding decrypt_from get_contact decrypt decrypt_inplace strip_padding deserialize next_byte
    of_code MessageStatus.deserialize read_ids copy_iter
seen_it-IsQuiet m e = subst (Ok (λ m. IsQuiet m.payload)) e tt

recv-Silent_example : Silent knows_alice (recv no_formats bob seen_it knows_alice).1
recv-Silent_example = recv-Silent no_formats bob seen_it knows_alice refl seen_it-IsQuiet

on_recv_message-Follows_example :
    Follows alice_id knows_alice.groups
      (on_recv_message no_formats bob
        (from_alice (0x4b ∷ replicate 8 1 ++ (0x67 ∷ [])))
        knows_alice).1.groups
on_recv_message-Follows_example =
    on_recv_message-Follows no_formats bob (from_alice (0x4b ∷ replicate 8 1 ++ (0x67 ∷ [])))
      knows_alice refl

abbrev carol_id : List ℕ
carol_id = replicate 8 0x43

abbrev dave_id : List ℕ
dave_id = replicate 8 0x44

-- A group of carol's that alice leaves.
abbrev of_carol : Group
of_carol = record (new_group carol_id (replicate 8 1) 1) {
  members = carol_id ∷ alice_id ∷ bob_id ∷ dave_id ∷ [];
}

-- What waits for a client.
abbrev payload_of : Option (Message no_formats) × ℕ → Option (MessagePayload no_formats)
payload_of (none, t) = none
payload_of (some msg, t) = some msg.payload

abbrev entry : Waiting no_formats → List ℕ × List (Option (MessagePayload no_formats))
entry w = (w.id, map payload_of w.messages)

-- Bob, who does not own the group, tells the others who is left in a group of his.
leave_broadcast :
    map entry
      (on_payload no_formats bob hi
        (MessagePayload.group_leave (record { group = carol_id ++ replicate 8 1 }))
        (record knows_alice { groups = of_carol ∷ [] })).1.packet_queue
    ≡ (
      carol_id,
      some (
            MessagePayload.group_members
              (record { group = replicate 8 1; members = carol_id ∷ bob_id ∷ dave_id ∷ [] }))
          ∷ [],
    )
      ∷ (
        dave_id,
        some (
              MessagePayload.group_members
                (record { group = replicate 8 1; members = carol_id ∷ bob_id ∷ dave_id ∷ [] }))
            ∷ [],
      )
      ∷ []
unfolding on_payload in_known_group on_msg_group_leave send_group send_payload send_message enqueue
leave_broadcast = refl

-- What the user is shown of a message that is not decrypted.
not_decrypted_shown :
    (recv no_formats bob (record hi { payload_data = [] }) knows_alice).1.notices
    ≡ Notice.alias alice_id alice_id
      ∷ Notice.unable_to_decrypt alice_id
      ∷ Notice.decrypt_error alice_id
      ∷ Notice.unsupported alice_id MessageType.type_none 1500000000
      ∷ []
unfolding recv decrypt handle on_payload unsupported get_type
not_decrypted_shown = refl

-- A buddy whose key is not hexadecimal ends the loading of the buddies behind it.
load_buddies_ends :
    load_buddies
      (record { name = alice_id; public_key = some (0x21 ∷ []) }
        ∷ record { name = bob_id; public_key = some (0x7a ∷ 0x7a ∷ []) }
        ∷ record { name = carol_id; public_key = some (0x21 ∷ []) }
        ∷ [])
      []
    ≡ (err runtime_error, (alice_id, none) ∷ [])
unfolding load_buddies hex_decode
load_buddies_ends = refl

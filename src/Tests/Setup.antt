-- ===== src/Tests/Setup.antt =====
-- What the runs share: stand-ins for the code of other libraries, and sample data.
use ceema.Prelude.{
  ℕ, ◌+◌, ◌≡◌, true, Option, none, some, List, [], ◌∷◌, ◌++◌, if◌then◌else◌, ltb, length, drop,
  length-drop, replicate, arith, err, runtime_error,
}
use ceema.Encoding.Crypto.{Crypto, IsCrypto}
use ceema.Contact.{account}
use ceema.Payload.MessagePayload.{Formats, MessagePayload}
use ceema.Packet.PacketType.{PacketType}
use ceema.Packet.Message.{Message}
use ceema.Session.State.{State, Session, Sent}

-- No payload in a format of another library.
abbrev pub no_formats : Formats
no_formats = record {
  Location = Unit {0};
  read_location = λ it n. err runtime_error;
  write_location = λ p. err runtime_error;
  File = Unit {0};
  read_file = λ it n. err runtime_error;
  write_file = λ p. err runtime_error;
  Poll = Unit {0};
  read_poll = λ it n. err runtime_error;
  write_poll = λ p. err runtime_error;
  PollVote = Unit {0};
  read_poll_vote = λ it n. err runtime_error;
  write_poll_vote = λ p. err runtime_error;
}

-- A box that only adds its authenticator.
abbrev pub open_box : List ℕ → Option (List ℕ)
open_box m = if ltb (length m) 16 then none else some (drop 16 m)

abbrev pub plain_crypto : Crypto
plain_crypto = record {
  box = λ m n pk sk. some (replicate 16 7 ++ m);
  box_open = λ m n pk sk. open_box m;
  derive = λ sk. sk;
}

box_size :
    (m : List ℕ) (r : List ℕ) → some (replicate 16 7 ++ m) ≡ some r → length r ≡ length m + 16
box_size m r e = ground arith

open_size : (m r : List ℕ) → open_box m ≡ some r → length m ≡ length r + 16
open_size m r e = ground (arith, length-drop 16 m)

open-box : (m r : List ℕ) → some (replicate 16 7 ++ m) ≡ some r → open_box r ≡ some m
open-box m r e = ground arith

pub plain-IsCrypto : IsCrypto plain_crypto
plain-IsCrypto = record {
  box_length = λ m n pk sk r e. box_size m r e;
  open_length = λ m n pk sk r e. open_size m r e;
  open-box = λ m n sk sk' r e. open-box m r e;
}

abbrev pub alice_id : List ℕ
alice_id = replicate 8 0x41

abbrev pub bob_id : List ℕ
bob_id = replicate 8 0x42

abbrev pub hello : MessagePayload no_formats
hello = MessagePayload.text (record { text = 0x68 ∷ 0x69 ∷ [] })

-- A text from one client to another, not encrypted yet.
abbrev pub letter : Message no_formats
letter = record {
  type = PacketType.message_send;
  sender = alice_id;
  recipient = bob_id;
  id = replicate 8 9;
  time = 1500000000;
  flags = 1;
  nick = alice_id;
  nonce = replicate 24 3;
  payload_data = [];
  payload = hello;
}

-- A session that has shaken hands, on a socket that takes what it is given.
abbrev pub ready : Session no_formats
ready = record {
  nonce_prefix = replicate 16 1;
  server_nonce_prefix = replicate 16 1;
  counter = 3;
  server_counter = 3;
  session_pk = replicate 32 4;
  session_sk = replicate 32 4;
  session_server_pk = replicate 32 4;
  client = account plain_crypto alice_id (replicate 32 5);
  server_pk = replicate 32 6;
  socket = some (record { sends = Sent.accepts ∷ []; wire = [] });
  use_proxy = true;
  state = State.wait_pkt_header;
  next_read_size = 2;
  read_buffer = [];
  write_buffer = [];
  packet_queue = [];
}

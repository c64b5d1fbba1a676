-- ===== src/Lib.antt =====
-- ceema: a client of the Threema messenger protocol, as a library (src/) with a plugin for libpurple.
--
-- A `Session` (src/protocol/session.cpp) shakes hands with the server over a TCP socket and then
-- exchanges encrypted frames with it. The body of a frame is a packet (src/protocol/packet): a
-- keep-alive, an acknowledgement, a status or a message. The payload of a message is padded and
-- encrypted once more, from client to client, and is one of the payloads of
-- src/protocol/packet/payloads. The files model these layers from the bytes upward:
--
--   Prelude            names, lists and results that the other files share. `Result` has the exceptions
--                      of the code as errors; `out_of_bounds` stands for an access past the end of a
--                      buffer, which is undefined in C++.
--   Types              src/types and src/protocol/protocol.h: bytes are numbers, buffers lists. `Input` is
--                      what a read iterator has before it. `Output` is a vector with an iterator into
--                      it: what is written, and what is ahead and still to be written over. Flags has
--                      the flags of a message, and Bits what the bit operations do.
--   Encoding           src/encoding: the PKCS7 padding (Pkcs7), hexadecimal digits (Hex), the base
--                      encodings (Base32, Base64), and the wrappers of libsodium's boxes (Crypto).
--                      The boxes are a parameter, with the laws that libsodium documents.
--   Contact            src/contact: Contact and Account, and the backup of an identity (Backup).
--   Payload            a file for each payload, and MessagePayload for their union and their flags.
--                      PayloadLocation, PayloadFile, PayloadPoll and PayloadPollVote are parameters
--                      (`Formats`), since they rest on iostreams and the JSON library.
--   Packet             PacketType, KeepAlive, Acknowledgement, Message with its encryption and its
--                      constructor (Message.New), and the dispatch of Packet::fromPacket (Packet.Packet).
--   Session            State (the fields, the buffers, `terminate`, `onReadyWrite`, the nonces), Wire
--                      (what is sent), Machine (the handshake, `packetReady`, `onReadyRead`, `connect`,
--                      `send_packet`), Calls (the constructor, the queue, and sequences of calls), and
--                      what is shown of them in Invariant, Loop, Nonce, Framing, Stall and Chunks
--                      (with Follows and Fuel).
--   Connection         src/threepl/ThreeplConnection.cpp, which drives a session from the callbacks of
--                      libpurple: the state and its methods, `read_packets` (Read), the callbacks
--                      (Handlers), the events of a connection's life as a step relation (Steps), and
--                      what is shown of them in Established, Soundness, Dispatch, Callbacks, Life, Queue
--                      and Escape. What libpurple shows the user is a list of notices. What the message
--                      handler does with a message is a parameter: the packets that it sends, and
--                      whether it throws.
--   Groups             src/threepl/GroupStore.h and GroupStore.cpp: a group and its members (Groups,
--                      Members), its names (Names), and the vector of groups (Store, Unique), in
--                      which a pointer to a group is its place. Strings of the buddy list are arguments.
--   Async              src/async/future.h, used by one thread: the data that a promise and its future
--                      share, and what `next` makes of it (Order, Promises).
--   Contacts           src/threepl/ContactStore.h and ContactStore.cpp: the contacts by their ids, those that
--                      the identity server does not know included, and the keys of the buddy list.
--   Handler            src/threepl/MessageHandler.h and MessageHandler.cpp: the fields and the notices
--                      (Handler), `sendPayload`, `sendMessage`, `send` and `enqueue` (Send), the
--                      handlers that show a message (Show) and those that change a group (Groups), `recv`
--                      (Receive), and what is delivered when a contact arrives (Deliver). What is shown
--                      of them stands in Sending, Opened, Silence, Receipts, Answers, Authority, Queue
--                      and Delivery. A promise is a number, and the settled ones are a list; the packets
--                      that are given to the connection are the `outbox`, and the requests of the
--                      identity server `asked`. What is random, the setting "status-seen" and what the
--                      buddy list holds are the `Context`, a parameter.
--   Client             src/threepl/ThreeplConnection.h and ThreeplConnection.cpp: the methods that send
--                      through the message handler, and the agreement with a text (Agreement).
--   Tests              runs of the code at concrete inputs.
--
-- A method that changes a session, a connection or a message handler is a function from it to a result
-- and it, so an exception keeps the changes that were made before it. Random numbers are arguments. What
-- the socket does is an argument too: the chunks that arrive (`Received`), and a list of what each call of `send`
-- does (`Sent`). The integers of the wire wrap around at their width.
--
-- The loop over received packets takes fuel; `drain_all` gives it one more than the bytes in the read
-- buffer, which is enough because each round takes a byte at least. So does the loop of `read_packets`,
-- which gets as much as there are packets in the queue: a round takes one and adds none. The other loops
-- recur on their data. A group store and its members are lists, in the order of the vectors.
--
-- Not modelled: the HTTP interfaces (src/api), other threads and futures of futures
-- (src/async), the file transfer and the import of the plugin, the callbacks of its transfers, and
-- its glue to libpurple (src/threepl), the hashes and the key derivation (src/encoding), logging and
-- stream output. The flags of a message are a number of 32 bits. A failed assertion, which ends the
-- program, is the error `out_of_bounds`.
pub mod Prelude
pub mod Types
pub mod Encoding
pub mod Contact
pub mod Payload
pub mod Packet
pub mod Session
pub mod Connection
pub mod Groups
pub mod Contacts
pub mod Async
pub mod Handler
pub mod Client
pub mod Tests

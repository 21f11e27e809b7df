-- ===== src/Lib.antt =====
-- quorum-loro-gateway: a gateway between the Loro sync protocol and Ursula, a service of append-only
-- byte streams. Every room has three kinds of stream: delta streams, which hold frames of committed
-- updates; checkpoint streams, which hold one record with a snapshot and the updates still pending;
-- and a manifest stream, whose records form a chain that says which checkpoint and which delta stream
-- are current. An append is retried while its result is ambiguous, with the same producer tuple.
--
-- The files, and the code that they model:
--
-- Prelude (Tests, Lists, Predicates, Results), Bytes, Cursor: Boolean tests, lists, results, checked
--   arithmetic and big-endian numbers, and the windows of a byte array that a cursor moves over.
--   `Cursor.take_bytes`, `take_bytes_until` and `read_be` are the shape of the readers of all codecs.
-- Hashes: SHA-256 and CRC-32, which come from crates, as a parameter with their output widths as laws.
--   `toy_hashes` is an instance on which definitions are run. No collision freedom is assumed.
-- Utf8: the test `std::str::from_utf8`.
-- Frame: src/frame.rs. Frame encodes, Frame/Decode decodes. Frame/Layout is the specification of the
--   bytes of a frame and of which frames fit; Read, Pieces, Header and RoundTrip go from the encoder to
--   the decoder; Accepted, AcceptedFields, AcceptedBody and Canonical go back; Stream, StreamSound and
--   Truncated are about streams and their ends.
-- Manifest: src/manifest.rs. Manifest encodes, Manifest/Decode decodes, Manifest/Chain validates a
--   chain and says what a chain is; Pieces, RoundTrip and ChainLaws are about these.
-- Checkpoint: src/checkpoint.rs, with its decoder in Checkpoint/Decode and the building of a record in
--   Checkpoint/Build, over the operations of the document that Loro names.
-- Names: src/names.rs, with names as lists of character codes.
-- Store: the trait `UrsulaStore` of src/ursula.rs, as operations that map a state of the service to a
--   result and a state; a call of several operations is a composition of these. Store/Laws says what
--   the gateway relies on of a store, and Store/Memory is a store that obeys it and loses
--   acknowledgements.
-- Ursula: `read_all` of the HTTP client in src/ursula.rs. A request with the redirects it follows is a
--   parameter. Windows is about one read, ReadAll about what is
--   read, Total about the end of the loop.
-- ExactAppend, CheckpointStore, ManifestStore, Recovery, Rotation: the files of src/ with the same
--   names. Once and Stored are about appends, Persisted about checkpoints, Published about manifest
--   records, Recovery/Link about what recovery accepts, Rotation/Linked about what a rotation returns.
-- LoroProtocol, Loro: what the code names of the crates loro_protocol and loro.
-- Protocol: src/protocol.rs. Varint is about LEB128 numbers, Accepted about messages that pass.
-- Server: src/server.rs, the handlers of one connection's messages, and Server/Events, its loop. Slots
--   and Fragments are about the batches and their map, Sound and Admitted about what the handlers keep
--   of them, Reachable about the connections that are reached, Asked and Served about the loop's calls,
--   Reassembly, Arrivals, Polls and Timely about an update whose fragments all arrive, on the handler
--   and on the loop.
-- Actor: src/actor.rs, the state of a room. Verify and Append are the retried append, Blobs the checks
--   and imports of updates, Sending what peers are sent, Initialize the activation, Update, Operate and
--   Commands the commands. Durable and Acked say what an acknowledgement tells, Refused what is left
--   alone, Consistent, Loads and Reachable what holds of every room, Retried what a retry leaves, and
--   Fragmented that the server reads what a room sends. Samples are instances for runs.
-- Manager: the room manager of src/actor.rs. Kept is about its map of rooms, Statuses about their list.
-- Examples, in several folders: runs on concrete inputs.
--
-- Numbers are natural numbers, with the bound of a Rust type checked where the code checks it;
-- `usize` has 64 bits. A loop over a stream has as much fuel as the stream has bytes, and a round
-- takes at least one byte. The loop of an append recurs on the retries that are left. The read loop
-- of the client has two rounds more than its limit in bytes, since all but the last add a byte. A
-- `?` is a bind, and errors carry what the code puts in them, but for messages that print numbers,
-- which keep their text; the texts that the actor makes of errors are a parameter, `Actor.Texts`.
-- Ten rounds read a LEB128 number, since a round adds seven to a shift of at most 63. A hash map or
-- set is a list, and its order of iteration is that of the list. What a handler sends over channels
-- is a list, in order; a channel is a number. The counter of the server's batches is threaded
-- through the functions that read it. States change only by the calls of one gateway: one active
-- writer for each room, as the README says.
--
-- Not modelled: the channels of src/actor.rs with their capacity, and commands that wait in them while
-- others are sent; the HTTP routes and the writer task in src/server.rs; the HTTP client in
-- src/ursula.rs but for its read loop, and so its requests, redirects and waits; and the entry point
-- (src/main.rs). Of crates, the codec and MAX_MESSAGE_SIZE of loro_protocol and the document of loro
-- are parameters.
pub mod Prelude
pub mod Bytes
pub mod Cursor
pub mod Hashes
pub mod Utf8
pub mod Frame
pub mod Manifest
pub mod Loro
pub mod Checkpoint
pub mod Names
pub mod Store
pub mod ExactAppend
pub mod CheckpointStore
pub mod ManifestStore
pub mod Recovery
pub mod Rotation
pub mod LoroProtocol
pub mod Protocol
pub mod Server
pub mod Ursula
pub mod Actor
pub mod Manager
pub mod Examples

-- ===== src/Lib.antt =====
-- rs-waku: a Waku v2 node in Rust.
--
-- The parts of the program that are modelled, each in the module that is named first:
--
--   Topic, Shard, Message, Hash   crates/waku-core/src: `ContentTopic::parse` and its `Display` are
--       Topic.parse and Topic.display; `ShardId::parse`, `pubsub_topic` and `autoshard` have their names
--       in Shard; Hash.deterministic_hash is the SHA-256 of Hash.preimage.
--   Enr     crates/waku-enr/src: `RelayShards`, its index list (at most 255 shards) and its bit vector of
--       1024 shards, as lists of bytes. The loops over bits and shards are recursion on lists.
--   Frame   the varint and the length prefix that the five request-response protocols share
--       (crates/waku-metadata, waku-filter, waku-lightpush, waku-peer-exchange, waku-store), and their
--       codecs. `read_uvarint` loops over the bytes; `write_uvarint` over the room in its ten-byte buffer,
--       which is enough for 64 bits.
--   Relay   crates/waku-relay/src: the validation policy and the message id.
--   Store   crates/waku-store/src: the table of messages as a list of rows, with each SQL statement of
--       sqlite.rs a function on it: Store.put, Store.get, Store.Query.query, and the retention in
--       Store.Retention. Store.Wire is the query protocol of store_query.rs.
--   Node    crates/waku-node/src/runtime.rs: Node.Loop.handle_event is `handle_event` with every arm, and
--       Node.Loop.run its turns, one event after the other, up to an event that the application, being gone,
--       should have been told of. The parts of the state that it keeps have modules of their own:
--       Node.Filters, Node.Connections, Node.PeerBook, Node.RateLimit (ratelimit.rs), Node.Serving (what is
--       answered, and metrics.rs), Node.Inbound (relay messages). Node.Requests has the commands of a
--       `NodeHandle`, `handle_command` and the requests that wait for a response; Node.Answers.run takes
--       commands and responses in any order, up to a shutdown or another end of the loop; Node.Handle and
--       Node.Client are the methods of the handle.
--       Node.Machine.Step is one step of the running node: of `run`, which takes a command or an event or
--       ends, of a task that it spawned to store a message, of the discovery task, or of an application
--       that drops its end of the channel. Node.Machine.Steps is any sequence of them, so it needs no fuel.
--       Node.Start is `NodeConfig` and `spawn`.
--   Rln     crates/waku-rln/src: the log of nullifiers, Rln.Relay for membership and proving,
--       Rln.Validator for the verdict on an inbound proof, and Rln.ProofBytes for proofs as bytes.
--   Dns     crates/waku-discv5/src/dns.rs: the address, the check of the root's signature, and the walk of
--       the tree. Dns.Walk.walk is the loop: its stack is a list, and it recurses on the budget of
--       MAX_RECORDS and, where a hash is skipped, on the stack, so that it needs no other fuel.
--   Rest    crates/waku-rest/src: the cache of messages, the REST form of a message, and the handlers in
--       Rest.Handlers. Rest.Pages.read_pages is a client that follows cursors; its fuel is the number of
--       requests, and one more than the rows to read is enough.
--       Rest.Router has the table of the routes, and Rest.Status the handlers that report on the node.
--   Discv5  crates/waku-discv5/src/lib.rs: the ENR that the node builds, the shards and the address that are
--       read from one, ENRs as bytes, the discovery service in Discv5.Service, and the discovery task of
--       runtime.rs.
--   Wakunode  wakunode/src: how the settings are resolved. Wakunode.resolve is the first part of `main`;
--       the flag of RLN, which only warns, and the path of the file are left out. Wakunode.KeyFile is
--       `load_or_create_key`, and Wakunode.Main the rest of `main`: what it asks of the node at the start,
--       and its loop over events and signals, with the calls of the REST API on the shared cache between
--       its turns.
--   Preset  crates/waku-core/src/preset.rs: the constants of the protocols and the preset of the network.
--
-- Prelude has the shared types and lemmas: native numbers, bytes and texts as lists of numbers, signed
-- integers with the wrap-around of `i64`, association lists for maps, sorting, results.
--
-- How they meet: Node.Inbound parses the topic with Shard, validates with Relay, pushes to the targets of
-- Node.Filters and asks for Store.put; Relay's message id and the store's key are Hash.deterministic_hash;
-- Store.Wire answers from Store.Query and its frames are those of Frame. Node.Loop answers store queries
-- with Store.Wire and settles what Node.Requests left waiting. Rest.Handlers calls the node through the
-- interface Rest.Handlers.NodeHandle and the store through Store.Query. Node.Machine puts Node.Loop,
-- Node.Requests, Store.put and Node.PeerBook together, with the table, the peer book and the channel shared
-- between the loop and the tasks; Node.Start gives its first state; Wakunode.Main takes the events that it
-- sends and fills the cache of Rest.
--
-- Parameters: SHA-256, the protobuf encoding that `prost` derives (which decodes what it encodes), the
-- clock, peer ids, IP addresses and ENRs with their equality, zerokit (the records Rln.Relay.Zerokit and
-- Rln.ProofBytes.ProofCalls), DNS and the crates that dns.rs calls (Dns.Calls), libp2p's calls
-- (Node.Requests.Swarm, and Node.Start.SpawnCalls at the start), base64 and hex (Rest.Calls), the enr and discv5 crates
-- (Discv5.EnrCalls, Discv5.EnrBytes.EnrText, Discv5.Service.ServiceCalls), the file system and the keys of
-- libp2p (Wakunode.KeyFile). Overflow is the wrap-around of a release build. The rate
-- limiter counts in whole units, not in `f64`.
--
-- Not modelled: how libp2p and gossipsub are built and configured, the parser of the command line and of
-- the configuration file, how axum matches a request against the routes, JSON and the text of the
-- metrics, logs, and failures of the database, which only Store.Query.query_on has.
pub mod Prelude
pub mod Topic
pub mod Shard
pub mod Preset
pub mod Message
pub mod Hash
pub mod Enr
pub mod Frame
pub mod Relay
pub mod Store
pub mod Node
pub mod Rln
pub mod Dns
pub mod Rest
pub mod Discv5
pub mod Wakunode

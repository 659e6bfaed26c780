-- ===== src/Lib.antt =====
-- A model of the MQTT broker library oximqtt (crate oximqtt, under oximqtt/src) and its theorems.
--
-- The parts and the files that model them:
--
--   Base        shared names; Base/Results is Rust's `Result` with `?`, Base/Bytes byte strings,
--               Base/OrdSet the standard library's `BTreeSet` as the ascending list of its elements.
--   Topic       oximqtt/src/topic.rs: `Level`, `Topic`, `from_str`, `is_valid`, `Display`. The topic
--               tests of the access rules (oximqtt/src/acl.rs) call `matches_str`. Topic/Validity,
--               Topic/Print and Topic/Match hold what is proved of them; Topic/Match also defines
--               the `matches!` macro and the two functions that use it.
--   Trie        oximqtt/src/trie.rs: the subscription tree that the router asks for each publish.
--               `insert` and `remove` stand in Trie, the lazy walk (`Matcher`, `MatchedIter`) in
--               Trie/Iter. Trie/Paths says what the tree holds at each path, Trie/Items lists what
--               the walk yields, Trie/Matching and Trie/Complete say which filters those are.
--
--   Codec       oximqtt/src/codec. Codec/Buffer and Codec/Writer are the buffers of the crate `bytes`
--               and the errors of codec/error.rs; Codec/Varlen and Codec/Utils model codec/utils.rs,
--               Codec/Qos the numbers of codec/types.rs. Codec/V3 has the packets of
--               codec/v3/packet.rs, with codec/v3/decode.rs in Codec/V3/Decode, codec/v3/encode.rs in
--               Codec/V3/Encode and the state machine of codec/v3/codec.rs in Codec/V3/Framing.
--               Codec/V3/Wire is the wire format itself, written down apart from the code, which
--               stands between the encoder and the decoder.
--
--   Queue       oximqtt/src/queue.rs: the bounded queue in front of a connection and `Sender::send`
--               with its overflow policies, as a call that no other interrupts. Queue/Calls has it by the
--               times it takes the lock, and calls between one another; Queue/Calls/Locks, /Accounts
--               and /Alone say what becomes of the items, and of a call that is alone.
--   Inflight    oximqtt/src/inflight.rs: the packet identifiers and time-outs of `OutInflight` in
--               Inflight/Ids, the window `InInflight` in Inflight/Window. The outbound map is with Session.
--   Breaker     oximqtt/src/utils/circuit_breaker.rs, one call after the other. Breaker/Machine has
--               its state machine, Breaker/Counts its thresholds.
--
--   Counter     oximqtt/src/utils/counter.rs: a count with its maximum, in the 64 bits of an `isize`.
--               Counter/Bounds says what it shows while it is within `isize`.
--   Subscription  of oximqtt/src/types.rs the identity of a client, the options of a subscription and
--               the collector of what a node delivers; Subscription/Choice is the default choice of
--               oximqtt/src/subscribe.rs among the members of a shared group.
--   Router      oximqtt/src/router.rs: the default router with `add` and `remove`, and in
--               Router/Publish `_matches`. Router/Keys, Router/Updates, Router/Counts and Router/Runs
--               say what the requests to it leave, Router/Sound and Router/Complete whom it delivers
--               to. It uses Trie for its tree, Subscription for what it collects and Counter.
--   Retain      oximqtt/src/retain.rs: the tree of the retained messages; Retain/Storage is the
--               storage over it, with the retainer of oximqtt/src/builtins/retainer.rs. Retain/Filters
--               compares its matching with that of the router's tree.
--
--   Types       of oximqtt/src/types.rs what a publish or a subscription comes to: the reason codes
--               and the results of the access rules.
--   Session     oximqtt/src/session.rs, `SessionState`: how it publishes, and in Session/Inbound what
--               it does with PUBLISH at each quality of service and with PUBREL: the window of QoS 2,
--               the deferral of messages while it is full, duplicates. Session/Inbound/Published,
--               /Acked, /Drained, /Handled and /AtLeastOnce follow the calls, Session/Inbound/Runs
--               and Session/Inbound/Order have the results. Session/Outbound is what it delivers:
--               `deliver`, PUBACK, PUBREC and PUBCOMP, timeouts, releases that are sent again. The
--               window of the messages, `OutInflight` of oximqtt/src/inflight.rs over its map, is
--               Session/Outbound/Window; Session/Outbound/Tracked and /Sizes follow its operations,
--               and Session/Outbound/Runs, /Fresh, /Bounds and /Timeouts have the results.
--   Acl         the access rules. Acl itself and Acl/Hooks are oximqtt/src/builtins/acl.rs, the rules
--               of the configuration and the hooks of `AclHandler`; Acl/Auth is oximqtt/src/acl.rs,
--               the rules that a client brings with its authentication. Acl/Hooks/Matches, /Applies
--               and /Decisions and Acl/Auth/Applies and /Decisions say what the rules cover and who decides, Acl/Hooks/Clients and
--               Acl/Hooks/Opened what coming and going clients leave. The rules use Trie, Topic and
--               Types.
--
-- The router asks the topic tree for each publication; what matches goes to the collectors of the
-- nodes. The session sends what the topic tree yields through the queue, with identifiers of the inflight
-- window, and the codec writes it; those files stand for themselves, and share only `QoS`. What comes in
-- from a client goes through Session, which uses the window of Inflight.
--
-- A decoder takes the bytes that are left and returns a value with what it leaves, or an error. The
-- error `panic`, which the source has not, marks a read past the end of a buffer and fuel that ran
-- out. The loops over the filters of a packet have one round of fuel for each byte of the buffer:
-- every round takes at least one. Whether bytes are UTF-8 is a parameter.
--
-- A text is the list of its UTF-8 bytes; the separators and wildcards are ASCII. A `HashMap` is the
-- list of its entries. A value that a method mutates is
-- passed in and returned. The iterator of the tree nests as deep as the topic has levels left, and
-- `next` runs on that much fuel; Trie/Items proves that one more than the number of levels is
-- enough.
--
-- Calls on the router or the storage follow one another here; in the router the tree and the relations
-- have locks of their own. Where a `HashMap` is walked, it is in the order of the list. The sessions that the router asks who is online,
-- and the choice among shared subscribers with its state, are the record `Context`, a parameter. Times
-- are numbers, and an operation reads one time. `Vec::remove` out of range is the error `panicked`.
--
-- A session keeps what it did, newest first. Hooks (the access rules among them), the delayed sender,
-- the forwarding and the connection are the record `Env` of functions that answer by all that was done
-- before, so that they may answer anew each time. A method that ends in an error keeps the state; the
-- session then ends. The loop over the deferred messages runs over the list of them.
--
-- The map of the outbound window is the crate rust_box, the record `DequeMap` of operations and laws in
-- Session/Outbound/Window; Session/Outbound/Tests has one, the list of the entries. The loop over the
-- messages that timed out has fuel for one round more than the window holds, each round takes one out,
-- and its time stands still. `OutInflight` counts its length on `usize` as a release build does. What is
-- delivered is kept without where it is from, and PUBREL without its reason code; what a session keeps
-- of it says whether the identifier was known. A message that is to be forwarded or released again goes
-- into the channel of the session, so that it comes back as an event of its own.
--
-- The rules of the configuration are shared by tasks; calls on them follow one another here, and the
-- task that builds the placeholders of a client is one step. The text functions of `str` that the rules
-- use are in Acl/Texts.
--
-- Not modelled: networking, TLS, the tokio runtime, logging, serialisation, the reading of JSON
-- configuration, and of the session subscribing, take-over and the offline loop.
pub mod Base
pub mod Topic
pub mod Trie
pub mod Codec
pub mod Queue
pub mod Inflight
pub mod Breaker
pub mod Counter
pub mod Subscription
pub mod Types
pub mod Session
pub mod Acl
pub mod Router
pub mod Retain

-- ===== src/Lib.antt =====
-- gwyh, a gossip broadcast library: a model of its node and what is proved of it.
--
-- A node is made of three actors that own their state and handle one message at a time: the peer
-- manager knows the peers, whom this node is subscribed to and who is subscribed to it; the
-- handshaker agrees on keys with another node; the packet handler owns the UDP socket, encrypts and
-- decrypts, and spreads messages. They reach one another through a registry, by calls that wait for
-- an answer and by casts that do not. A model of an operation is a function from the state to the
-- state, and its `io` gathers in order what the operation sends, calls, starts or writes (Actor).
-- The handlers that can panic return an Option, and `none` is the panic.
--
-- Which file is about which part:
--   Base          shared names; Base.Dict and Base.Set are HashMap and HashSet, as lists in the
--                 unspecified order of iteration
--   External      identifiers, addresses, keys, clocks and randomness of other crates
--   Sequence      src/sequence.rs          Peer       src/peer.rs
--   NodeInfo      src/nodeinfo.rs, and `DistributionStrategy` of src/lib.rs
--   Message       src/message.rs, and the requests of src/peer_manager.rs
--   Packet        src/packet.rs, and the handshakes of src/handshake.rs
--   Actor         the messages of the actors, their effects, and the timers of src/delayed.rs,
--                 src/interval.rs and src/and_then.rs
--   PeerManager   src/peer_manager.rs: State (the record and the timers), Choose (choose_peers),
--                 Subscriptions (the other methods), Handle (handle_message)
--   Handshaker    src/handshake.rs: Hmac, State (HandshakeState), Send, Handle (handle_handshake)
--   PacketHandler src/packet_handler.rs: State, RateControl, Send, Recv (recv, the receive loop,
--                 handle_message)
--   Server        src/server.rs            Interface  the builder and methods of src/lib.rs, src/error.rs
--   Session       the handshaker, the peer manager and the packet handler together
--   Waiting       which actor calls which, and which messages lead to which
--   Node          src/registry.rs and the calls of the three servers, with their queues, the spawned
--                 tasks and the timers: Control, State (what happens next), Run (the runs and the
--                 timers)
-- The functions have the names of the source. The other children of these modules are proofs, each
-- named for its subject; `Tests` and `Samples` have concrete runs.
--
-- What is assumed. Integers are natural numbers, and those of type u32 wrap as in a release build. A
-- delay in nanoseconds and the counts of a set fit in their machine types. Random values are drawn
-- by number from a supply (Entropy), so that every generator of the program is any function. Calls
-- and casts to the actors arrive: their errors, most of which the source ignores, are not modelled.
-- The loss rate is compared as an exact number and not as an f64. Encryption, hashes, MessagePack,
-- the choices of rand and the LRU cache are parameters, and a theorem that relies on what their
-- documentation promises has this as a hypothesis (Codec, Encrypts, Chooses, LruLaws,
-- WeighsPositive, DecodesPublic, FitsUdp for the length of a datagram). Of chrono it is a parameter
-- which timestamps have nanoseconds (`has_nanos`): a hash of any other panics.
--
-- The user's handler of broadcasts is run by the packet handler, which awaits it. In an operation it
-- is an effect; in the runs of a node the packet handler goes no further than a handler that does
-- not return (`returns` of `Outside` in Node/State.antt), and the theorems on progress assume that
-- it returns (HandlerReturns). One that calls `Gwyh::broadcast` and waits does not.
--
-- All loops of the source are over finite collections and are structural recursion here; the receive
-- loop runs for ever, and its round is the unit of the model. No fuel is used.
--
-- The runs of a node (Node) rest on what genserver documents: each server has one queue for calls and
-- casts, takes one message at a time in their order, and a call waits until its message is handled.
-- The queues have no bound here. A handler is one step, after which its messages are sent one by one;
-- nobody sees its state before it is done. A spawned task makes its call at any time, and a timer may
-- fire at any time while its value is held, so that the runs include those of the real durations.
--
-- Not modelled: the tasks of tokio, the bounds of the queues, logging, the wait of `Gwyh::shutdown`
-- of src/lib.rs for the acknowledgement, and src/broadcast.rs and src/framer.rs, which are not part
-- of the crate.
pub mod Base
pub mod External
pub mod Sequence
pub mod Peer
pub mod NodeInfo
pub mod Message
pub mod Packet
pub mod Actor
pub mod PeerManager
pub mod Handshaker
pub mod PacketHandler
pub mod Samples
pub mod Server
pub mod Interface
pub mod Session
pub mod Waiting
pub mod Node

-- ===== src/Lib.antt =====
-- A model of libatbus-go, a message bus: its buffers, the frames of its stream channels,
-- connections and endpoints, their encryption, addresses, and the registry of its topology.
--
-- The parts and their files. Bytes come in from a socket in pieces; the read path of a channel cuts
-- them into frames, with variable-length integers from the buffer package, and hands the payloads
-- up. Payloads wait in buffer managers. A connection belongs to an endpoint, which chooses one of
-- its connections for a message, and has a session that encrypts what it carries. The nodes of a
-- bus keep a registry of their peers.
--
--   Base            numbers, lists, slices with Go's bounds check (a call returns or panics), bits
--   Buffer/Vint     buffer/buffer_algorithm.go: ReadVint, WriteVint, VintEncodedSize
--   Buffer/Block    buffer/buffer_block.go: BufferBlock and the padding of sizes
--   Buffer/Manager  buffer/buffer_manager.go. Types has the records, Dynamic and Static the two
--                   modes, Ops the exported methods. Deque, Window, Ring, RingPush and RingPop are
--                   about how a ring of slots holds a deque, and View about what each method does
--                   to the deque, in both modes
--   Buffer/StaticBlock  buffer/static_buffer_block.go: temporary buffers and MimallocPaddingSize
--   IoStream/Frame    channel/io_stream/frame_codec.go: PackFrame, UnpackFrame and their helpers
--   IoStream/Reader   the same file: FrameReader
--   IoStream/Receive  channel/io_stream/channel_io_stream.go: the loop of readLoop over the bytes
--                   of a read, processReadHeadFrames, processCompleteLargeFrame. Stream, Head,
--                   Window, Parse, Large and Feed are about what a round makes of a part of a
--                   stream of frames, Delivery about the whole
--   Address           channel/utility/channel_utility.go: MakeAddress and the classes of addresses
--   Bus             impl/atbus_connection.go and impl/atbus_endpoint.go. Types has the objects and
--                   the store, Connection and Endpoint the operations, with Reset and
--                   RemoveConnection, which call each other, Select the choice of a connection and
--                   the addresses and schemes, Statistic the sums. Consistent says that bindings
--                   and lists agree; Attach is about adding a connection, Reset, Emptied and
--                   Remove are about taking apart
--   Crypto          impl/atbus_connection_context.go: the sizes of keys and nonces, CryptoSession, the
--                   compression session, the negotiation of algorithms, and the handshake
--   Topology        impl/atbus_topology.go and types/atbus_topology.go: TopologyPeer,
--                   TopologyRegistry with UpdatePeer, RemovePeer, GetRelation and CheckPolicy
--
-- How the code is read. A byte is a number, a slice a list; a write through a slice gives a new
-- list. An int that a peer controls is a pattern of 64 bits, with its sums modulo 2 ^ 64, and a
-- signed comparison where the code has one; sizes of buffers in memory stay far below 2 ^ 63 and
-- are plain numbers. A method that changes its receiver returns the new one. A pointer to a peer is
-- an index into a heap that only grows; a pointer to a connection or an endpoint is a number, and
-- the store a function from it. The calls of the node by these two are kept as a list. A map is an
-- association list. The hash of a frame (murmur3) is a parameter, of which only that it is a uint32
-- is used, as a hypothesis where it matters. The ciphers and the curves are parameters too, with
-- the record Sound for what their documentation promises. The channel's answers to a connection,
-- new ones for each call, and the node's OnNewConnection, are parameters.
--
-- Fuel. WriteVint's loops run on a fuel that a uint64 cannot exhaust, as the results on it show.
-- The loop of bitWidth has 64 rounds for a number below 2 ^ 63. The loops up a chain of upstreams
-- answer none where the fuel runs out, and the results on them give an amount from which on the
-- answer is always the same. RemovePeer has the same form. The loops of the read path take a byte
-- in each round and have at least as many rounds as bytes. Reset of a connection and of an endpoint
-- run on the number of nested calls, of which two are enough.
--
-- Not modelled: the sockets, goroutines, timers and callbacks of a channel; the write queue; nodes
-- and the message handler, which stand on the parts above; the layout of messages; locks, so that
-- an operation on an endpoint is one step; generated protocol code; and the memory that runs out.
-- ForEach, ForeachPeer and ForeachDownstream, which only call a function, have no definition.
pub mod Base
pub mod Buffer
pub mod IoStream
pub mod Address
pub mod Bus
pub mod Crypto
pub mod Topology

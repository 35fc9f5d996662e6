-- ===== src/Lib.antt =====
-- A TeamSpeak client library in TypeScript: a voice client over UDP, a query client, and the command
-- language that both speak. Modelled here are the transport of the voice client with its ciphers, the
-- language, the channel tree and the client's view of a server, and the reading of lines in the query
-- client.
--
-- Parts, and the files that model them (paths from the repository's root):
-- - Common: numbers, integers, lists and the association lists that stand for a `Map`.
-- - Transport/Window: the class `GenerationWindow` of src/client/transport/generation-window.ts, a
--   record `Window` with a function for each method. Place says where the window puts an id, and
--   Follow what happens over a run of arrivals.
-- - Transport/Packet: packets, flags and headers of src/client/transport/packet.ts; Packet/Header is
--   about building and reading them.
-- - Transport/Quicklz: the decompressor of src/client/transport/quicklz.ts. An error that the code
--   throws is a value of `QuickLzError`. Quicklz/Ends is about sizes and the end of the loops.
-- - Transport/Receive: the receive queue of src/client/transport/handler.ts (`#hold`, `#release`,
--   `#tryReassemble`, `#tryDecompress`, `#handlePacketQueue`, `#handleCommandWindowAndAck`). A `Lane`
--   is one of its two queues. Stream is the specification: what a server sends, and the commands in
--   it. Reassembly, Delivery and Arrival are about what the queue passes on, Bytes about the count of
--   held bytes, and Admits about which packets it takes.
-- - Transport/Cipher: what the handler uses of the class `Crypt` of src/client/crypto/crypt.ts.
-- - Crypto/Eax: src/client/crypto/eax.ts over the AES of node:crypto, the parameter `Aes`. Eax/Inverse
--   is about decrypting what was encrypted.
-- - Crypto/Crypt: the class `Crypt` itself, a record of its state with its cache of keys; what it throws
--   is a value. Keys and Packets compare it with a cipher that has no cache, and Session is about the
--   calls of it.
-- - Transport/Send: the send side of src/client/transport/handler.ts (`sendPacket`,
--   `#sendSplitPacket`, `#sendPacketRaw`, `#nextPacketIdentity`, `#trackResend`, `#checkResends`,
--   `#doResend`, `#updatePostReceiveState`). A `Sender` has the fields of the handler that these use.
--   Number is about the ids of packets, Flags, Piece and Split about how a payload is cut up, Reads
--   about how the other side puts it together, Again and Resends about packets that wait for an
--   acknowledgement, and Acks about its arrival.
-- - Transport/Dispatch: `#handleRawPacket` and `#decryptPacketData` of the same file, over a `Handler`
--   that holds both queues, the windows and the sender. Dispatch/Authentic is about what is refused.
-- - Transport/Voice: `sendVoicePacket`, `sendWhisperPacket` and `sendGroupWhisperPacket` of
--   src/client/transport/handler.ts. Layout reads a whisper back.
-- - Transport/Traffic: src/client/transport/traffic.ts. Ring is about the buckets of a counter, and
--   Minute about what a snapshot says of the last minute.
-- - Language/Escape and Language/Command: src/core/command/command.ts and src/core/command/parser.ts.
-- - Language/Rows: the rows of a line and the numbers in it, src/core/helpers.ts. Bounds is about how
--   much a line can grow to, Fields about what a row inherits, and Numbers about `parseUint64`.
-- - Channels/Tree: src/core/channel-tree.ts. A `Draft` is a tree, and a map of it is an association list;
--   Tree/Steps has the events. Lists, Settled, Placed, Removed, Written, Kept and Returns are about the
--   parts of an event, Events about the lists of a tree after one, and Flaws about trees that are not
--   consistent.
-- - Channels/Siblings: `sortSiblings` of the same file. Sorted is about its loops, Order
--   about a set that stays consistent and Once about its list.
-- - Client/View: the classes `ViewStore` and `Roster` of src/client/view.ts. View/Calls has the calls
--   that the packet handler makes of a store. Keeps is about one call, Contract about any calls, and
--   Waiters about the promises of `whenReady`.
-- - Query/Lines: src/query/lines.ts and src/query/trim.ts. The decoding of UTF-8 is a parameter.
--
-- How they interact: a raw packet is given its generation by the windows, is admitted or refused, is
-- held in its queue, and leaves it in order, reassembled and decompressed; what leaves the queue is a
-- line of the command language. Such a line is read into rows, and the client writes the rows of
-- channels and clients to the store of its view, which keeps a channel tree.
--
-- Bounds and fuel: the loop over the fragments of a command has one round more than the receive
-- window, 1024 packets, since a queue holds no packet further ahead; the loop over commands has
-- one round more than the queue has packets, since each round takes one off; the loop of the
-- decompressor has one round more than the block has bytes, since each round reads one; the loop
-- that splits a payload has one round more than the payload has bytes, since each round takes
-- some. The walks up and down the channel tree have fuel of their own, since the code has no bound for
-- them either: two rounds more than the tree is deep are enough for a tree without a loop, and an event
-- that runs out of fuel has no next tree. The walk over siblings has more rounds than the square of one
-- more than their number, since it enters each list once. JavaScript numbers here are whole and far
-- below 2^53, so they are natural numbers or integers; a 16-bit id wraps around as in the code.
--
-- Not modelled: sockets, timers and logging; AES, the hashes and the curves, which are those of
-- node:crypto and of other packages; the mean and the deviation of round-trip times, which are
-- floating-point numbers; the building of a channel tree from rows (`ChannelTree.from`, a parameter
-- of the store of the view); the puzzle, the identity and the handshake; the rest of the query client,
-- streams and the typed commands, which are named in the manifest with the reason.
pub mod Common
pub mod Transport
pub mod Language
pub mod Channels
pub mod Client
pub mod Crypto
pub mod Query

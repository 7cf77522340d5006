-- ===== src/Lib.antt =====
-- A model of fsend, a command-line file transfer in Go, with the theorems about its core: the wire
-- format of a transfer, the listing of files and the agreement on them, their packing into chunks and
-- their receiving, the signaling server at which two peers meet by a pairing code, and the relay that
-- carries their datagrams when no direct path opens.
--
-- The parts and how they interact. A sender registers a slot, which is derived from its code, at the
-- signaling server (internal/server); the receiver joins the slot, and both exchange ICE candidates
-- there under role tokens. If no direct path opens, the server has the relay (internal/relay)
-- allocate a token, under which both peers register their addresses and send datagrams. Over the
-- connection the peers agree on a protocol version, exchange control frames and stream the files as
-- chunks (internal/wire), which the sender's packer fills and a goroutine of its own compresses and
-- writes (internal/transfer).
--
-- The files:
--   Base: what all parts share: Boolean tests on the native numbers, lists, bytes and big-endian
--     words, Go maps with string keys.
--   Wire: internal/wire/wire.go (Negotiate and the constants). Wire.Reader: errors and io.ReadFull
--     on a list of bytes. Wire.Chunk: internal/wire/data.go (WriteChunk, ReadChunk, validate).
--     Wire.Control: internal/wire/control.go (WriteControl, ReadControlRaw, ReadControl, Decode);
--     encoding/gob is an encoder and a decoder that the theorems take.
--   Transfer: internal/transfer. Transfer.Packer: pack.go's chunkPacker with appendBytes, endFile,
--     skipFile, markRestart and flush, one function each; Packer.Runs is a sequence of these calls.
--     Transfer.Compress: the body of writeLoop; zstd's encoder is any function. Transfer.HashTree:
--     filehash.go (fileHasher's seed, Write, blocks and Sum); BLAKE3 is any function.
--     Transfer.Sparse: writeSparse of recv.go. Transfer.Plan: classifyOne, resumeCandidate,
--     summarize and conflicts of classify.go, and planToDecision and checkSpace of recv.go.
--     Transfer.Faults: the error codes and mapPeerError. Transfer.Receive: openFile, write, finalize
--     and abandon of recv.go; Receive.Commit: the committer and place; Receive.Session: the loop of
--     receiveData over chunks and their segments. Transfer.Batches: the loops of sendListing and
--     sendDecisions over frames of bounded size. Transfer.Listing: listing.go's sendListing,
--     recvListing and validateListing. Transfer.Negotiation: sendDecisions, and senderNegotiate and
--     verifyHashes of send.go. Transfer.Paths: sanitizeRelativePath of paths.go, on bytes.
--   Signaling: internal/server. Signaling.Session: the session and the server's maps (server.go,
--     types.go). Signaling.RateLimit: rateBucket.allow, bucket and allowNewSession.
--     Signaling.Pairing: createSession, joinSession and waitSession, with code.ValidateSlot and
--     update.Newer. Signaling.Endpoints: pushCandidates, pullCandidates, deleteSession and
--     allocateRelay. Signaling.Janitor: evict, and SaveState and LoadState (state.go).
--     Signaling.Step: all of them as one machine.
--   Relay: internal/relay. Relay.Framing: framing.go. Relay.Budget: budget.go. Relay.Server:
--     register, Allocate, evict, sweep, Status and Drain (server.go). Relay.Reply: allowReply, the
--     cookies, challenges and handleSTUN. Relay.Handle: handle, handleControl, the bodies of
--     readLoop and of ServeWS's loop (ws.go). Relay.Machine: all of them as one machine.
--   Pairing: internal/code. Pairing itself: Epoch and EpochsFor (slot.go). Pairing.Codes: IsCode,
--     Normalize and format (code.go), on characters.
--   Retry: internal/retry/retry.go (WithBackoff and jitter).
--   ConnId: internal/quicconn/connid.go (placesMagicCookie, GenerateConnectionID); a reading of
--     rand.Reader is one element of a list.
--   Each part's Tests module runs the model at concrete inputs.
--
-- How the code is read. A reader is the list of bytes that it still yields, a byte is a number below
-- 256, and a 32- or 64-bit counter wraps where the source's does (`% 2 ^ w`). A handler that holds
-- the server's lock is one step on the state; every reading of the clock in it is one argument, and
-- so are the random values that it draws. The relay handles one datagram at a time: its atomic
-- counters are read and written in one step. A pointer to a session that two maps share is the
-- session's ID, under which the one object is stored. The packer meets its writer's goroutine only
-- where it looks for an error, so what its looks find is a stream of Booleans, which the theorems
-- take as any. What the system calls of the receiver return is an argument of each of its steps, and
-- its files are lists of bytes.
--
-- Bounds and fuel. The only fuel is that of the loops over the bytes of one call of the packer and of
-- the hasher: each round takes a byte or more, so the number of bytes is enough, and `run-content`
-- and `sum-write_all` show that no byte is left; the loop of writeSparse moves a block on in each
-- round, and has as many rounds as there are bytes; each round of recvListing and of senderNegotiate
-- reads six bytes or more, and `recv_listing-IsSound` and `sender_negotiate-IsOnce` show that their
-- fuel is enough. All other loops are structural. The theorem on the relay's cap asks that the cap
-- plus one datagram is below 2^64, the one on the daily budget that the bytes of all datagrams are,
-- and the one on retries that the triples of the waits are below 2^63.
--
-- Taken as parameters, since their code is not in the repository: the parsing of IP addresses (net),
-- HMAC-SHA256, the seeded hash of a prefix, the STUN library, zstd, BLAKE3, gob and pion's STUN test.
-- Of the standard library, filepath.Clean, strings.Split, FieldsFunc, the trims and the changes of
-- case are written out as far as the code's results depend on them.
--
-- Not modelled: the command line and its user interface (cmd/fsend, internal/uxlog), sockets, ICE,
-- PAKE and QUIC (internal/iceconn, internal/pake, internal/landisc, internal/quicconn but for
-- connid.go), HTTP routing, JSON and metrics, and updates (internal/update but for Newer): glue of
-- libraries and of the terminal. Of internal/transfer: the sender's loop, the walk, the store of
-- partials and its manifest, the folders and links that materialize makes, and receives to a sink or
-- of a stream. Of internal/code, generation and stretching; of internal/retry, the classifier, which
-- inspects error chains of other packages.
pub mod Base
pub mod Wire
pub mod Relay
pub mod Transfer
pub mod ConnId
pub mod Pairing
pub mod Signaling
pub mod Retry

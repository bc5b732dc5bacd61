-- ===== src/Lib.antt =====
-- A model of shmipc-go, interprocess communication through shared memory, with proofs.
--
-- Two processes share a block of memory for payload and a pair of queues of small elements, and talk
-- over a Unix socket. The sender writes its payload into buffers, links them, puts the offset of the
-- first one into the queue, and wakes the receiver with an event on the socket if the flag of the
-- queue says that it sleeps. Without a free buffer, payload and status go over the socket.
--
-- Parts and files:
--   Memory, Command: memory as bytes at addresses with little-endian words, as the program sees it
--     through unsafe.Pointer; code that reads and writes it ends with a value, an error or a panic.
--     Byte slices are windows with Go's bounds checks.
--   Errors: errors.go.
--   Queue: queue.go. Queue (the handle), put, pop, isFull, isEmpty, the flag, and the creation and
--     mapping of one queue; Queue.Manager is queueManager, with both ways of sharing the file.
--     Queue.Wakeup is the dance of wakeUpPeer (session.go), handlePolling (protocol_manager.go) and
--     markNotWorking (queue.go), at the grain of their atomic accesses, with their error paths.
--   Protocol: protocol_event.go, the header of an event and its check.
--   Events: handleEvents of session.go, its handlers in protocol_manager.go, and the writers of the
--     events in stream.go, session.go and protocol_event.go.
--   Metadata: generateShmMetadata and extractShmMetadata of session.go.
--   BufferSlice: buffer_slice.go, a buffer's header in shared memory, and bufferSlice with its cursors.
--   BufferList: the bufferList of buffer_manager.go, created, mapped, popped and pushed. A buffer is
--     named by its offset in the region, and the invariant IsFree says which are free, in order.
--   BufferManager: the bufferManager of buffer_manager.go: creation, mapping, allocation and return of
--     single buffers and of chains of them, and the slice at an offset that the peer sent. Held is about
--     the buffers that are handed out while others are given back.
--   LinkedBuffer: linkedBuffer of buffer.go, a list of slices with a front and a write slice.
--     Reading and Writing have its operations; Contents is the sequence of bytes that a reader sees.
--     Owned says whose the slices are, Returns what giving one back leaves of the others.
--     Slow, Texts and Front are about the loops over slices, ReadBytes, ReadString, Discards, Peeks and
--     Copies about the five ways to read, Room and Writes about WriteBytes, Windows about the windows
--     that go to the socket.
--   Stream: the state of a stream of stream.go, and what a stream does with its data alone.
--   Session: the tables of a session of session.go, the operations of streams in stream.go, and the
--     handlers of protocol_manager.go that reach a stream. Sending and Receiving have the operations,
--     Turns the turns of a process, Users the calls of a user and callbacks as programs of such calls,
--     and Reach the runs that these and the messages of the peer make; Advance, Registry, Calls,
--     Progress, Closing, Messages and Opening are about single operations. A stream is a place in a table of objects, so
--     that the map of the session, the queue of accepted streams and the user may hold the same one.
--   Handshake: protocol_initializer.go and its parts of protocol_manager.go, the two ends as
--     processes that write to and read from a socket, one message of the schedule at a time.
--   StreamPool: the ring of idle streams of session_manager.go.
--   HotRestart: handleSessionManagerHotRestart and checkHotRestart of session_manager.go, with a pool
--     known by its pointer and its epoch. Renewal and Kept are about the runs of a manager.
--   Config: config.go, VerifyConfig with the platform as an argument.
--   BlockIo: block_io.go, the loops that move a whole buffer over a blocking socket.
--   Prelude: the library names that the files share, Boolean tests, and lists over native numbers.
-- A pub mod line below names each part; its parts are named in its own file.
--
-- Words and bounds: a word of w bits is a natural number below 2^w and its arithmetic is written out
-- modulo 2^w; an int64 counter is compared as two's complement. A Go int that the code never makes
-- negative is a natural number. The invariants bound the counters of a queue by 2^63 and a block of
-- memory by 2^31 bytes, where the program would need years or a larger configuration to go beyond.
--
-- Fuel: handleEvents runs on as much fuel as its buffer has bytes, which suffices since every round
-- takes at least a header. The loops of block_io.go run over the answers of the system, one per call.
-- The 200 rounds of pop are the program's own bound. The loop of push ends in its first round, as no
-- other call comes between. A loop over the slices of a linked buffer has one round more than there
-- are slices, since every round but the first leaves a slice behind. allocShmBuffers has a round for
-- each byte asked for, as a buffer holds at least one. The loop over a pool has one round more than
-- the pool has streams. The bounds on the length of a chain of buffers in shared memory, on the rounds
-- of pop and on the calls of a stream's callback are arguments of the turns of a session.
--
-- Not modelled here: timers and the scheduling of goroutines, channels, whose receipt is a value of
-- the state, the rebuilding of lost sessions and the listener, what Close of a session posts to the event loop, epoll,
-- system calls, metrics and log output. What the operating system answers to the creation or mapping of
-- a file and what a connection answers to a write are arguments, and so is the memory of a process.
-- Both processes see a mapping at one address.
pub mod Prelude
pub mod Memory
pub mod Errors
pub mod Command
pub mod Queue
pub mod Protocol
pub mod Events
pub mod Metadata
pub mod BufferSlice
pub mod BufferList
pub mod BufferManager
pub mod Config
pub mod BlockIo
pub mod LinkedBuffer
pub mod Stream
pub mod Session
pub mod Handshake
pub mod StreamPool
pub mod HotRestart

-- ===== src/Lib.antt =====
-- Verification of the core packages of this Go repository: its containers, its caches, and the
-- logic of its servers. Each component is a file named for it, with children for its proofs and a
-- child Tests for runs on concrete data and for the witnesses. Paths are from the repository's root.
--
-- Conventions. A Go method becomes a function from the receiver's state to the new state and the
-- results. A run-time panic (an index out of range, a nil dereference, a nil function's call) is
-- the `none` of an option; an error result is a value. Lengths, counts and indices are natural
-- numbers; a difference that the source may make negative is written as a comparison of sums. A
-- signed byte count is a `ℤ`. A Go string is the list of its bytes. Mutexes order whole method
-- calls, so one call is one step.
--
-- Ring: go/range/buffer.go, the generic ring buffer (`Ring` is `RingBuffer`, `push` is `Push` with
--   `grow`, and so on). Contents has the validity of the indices and the queue that a ring holds,
--   Queue the growth and `Push`, Drain the removals, Run whole sequences of calls.
--   `ForEachReverse` is not modelled; of `ForEach` only the definition stands here. `Discard` is taken
--   to get a count that is not negative.
-- Lru: gocache/lrucache/lru/lru.go. An element of container/list is named by a number, and the map
--   leads to such names. The eviction loop takes fuel: one more round than there are entries is
--   enough for a limit that is not negative. `int64` sums are taken not to overflow.
-- ConsistentHash: gocache/lrucache/consistenthash/consistenthash.go. The hash function is a
--   parameter.
-- Group: gocache/lrucache/geecache.go, cache.go and byteview.go, over Lru. The getter is a
--   parameter, a function of the key.
-- HttpPool: gocache/lrucache/http.go, over Group and ConsistentHash. The client half, which calls
--   `http.Get`, is not modelled, nor is logging.
-- BytesQueue: go/container/bytesqyeye/bytes_queue.go. `encoding/binary` comes in by the encoding
--   that it documents. Push has the growth, Room where an entry fits, Store `Push` and then `Get`.
-- TtlCache: go_cache_strategy/internal/cache/cache.go. The clock is an argument of the calls that
--   read it; `time.Duration` sums are taken not to overflow. Keys has the lookups, Clock the runs.
-- Strategies: go_cache_strategy/strategy (cache-aside, read-through, write-through, write-around)
--   over the interface `Database` of internal/database/database.go, which is a record of functions.
--   A pointer stored in the cache is taken not to be written through. An error is its message.
-- WriteBehind: go_cache_strategy/strategy/writebehind/wirtebehind.go. The client calls and the
--   turns of the worker are events in one sequence; which case a `select` takes is the choice of the
--   sequence. Outlook follows what the database will answer, Delivery has whole runs, Conserved the
--   users before `Stop`.
-- Ip: net/ip/strategy.go and checker.go. Parsing and comparing addresses are a record of functions;
--   of `strings`, `Split` and `TrimSpace` (on ASCII) are written out.
-- Labels: yaml/labels.go. The order of a map is that of a list of its entries, and `strconv.AppendQuote`
--   is a parameter; the marshalling methods are not modelled.
-- Linked: go/container/stack/stack.go and go/container/queue/queue.go, the global lists with their
--   sizes; `traverse`, which prints, is not modelled.
-- Orders: gRPC/stream/server.go, the order service. A stream is the list of what `Recv` yields; whether
--   `Send` takes a message is a function of the messages before.
-- FsPoll: uvgo/fspoll.go, the answers of `os.Stat` and the callbacks for them.
-- UvLoop: uvgo/loop.go, loop_meta.go, timer.go, tcp.go and eventloop.go. Hooks, Timers, Scheduler and
--   Phases have the definitions of these parts; Wakeups, Due, Order, Drains and Teardown prove. What a
--   callback does to the loop is a parameter, and the cases that selects take are a schedule, with what
--   the goroutines put into the queues during a teardown.
--   The pending phase and the last drain take fuel: one round more than the queue has entries is
--   enough where the callbacks add none.
-- UdpConn: net/proxy/udp_conn.go, the sessions of a UDP listener. Steps has the sections of the goroutines
--   as a step relation; a send and its receive on an unbuffered channel are one step. Validity and
--   Reachable have the invariant, Delivery and Queue the datagrams, Closing `Shutdown`. No session
--   begins under a timeout below 10 ns, where its ticker panics.
-- LockedFile: linux/lockedfile/lockedfile.go and lockedfile_filelock.go. What each call of the operating
--   system does (a full write or a part, an error) is an argument. Transform and Handles prove.
-- Transports: net/proxy/http_transport.go, http_builder.go and certificate.go. Files, key pairs and SPIFFE
--   names come in by a record of functions; Manager has `Update` and the getters, Refreshed and Added
--   its two loops, Updates whole sequences of calls, Tls the TLS configurations. What the files hold is
--   taken not to change between the calls.
-- HttpProxy: net/proxy/http_proxy.go, the rewriting of a forwarded request (`rewrite` is the function of
--   `rewriteRequestBuilder`). net/url and the comparisons of tokens come in by a record of functions.
-- Prelude: shared names and lemmas: Boolean tests, lists and slices over the native numbers,
--   panics, strings and maps (Dict), signed integers (Int).
--
-- Not modelled: generated code (*.pb.go), vendored documentation, tests, and code that only calls
-- other libraries (gRPC, Gin, Kubernetes, GORM, Redis, SQLite, zap), which has no logic of its own.
pub mod Prelude
pub mod Ring
pub mod BytesQueue
pub mod Lru
pub mod ConsistentHash
pub mod Group
pub mod HttpPool
pub mod TtlCache
pub mod Strategies
pub mod WriteBehind
pub mod Ip
pub mod Labels
pub mod Linked
pub mod Orders
pub mod FsPoll
pub mod UvLoop
pub mod UdpConn
pub mod LockedFile
pub mod Transports
pub mod HttpProxy

-- ===== src/UdpConn.antt =====
-- net/proxy/udp_conn.go: the sessions of a UDP listener. A `*UDPConn` is a number that names it, and
-- `sessions` is the memory they lead to. The goroutines meet at channels without a buffer: a send and
-- its receive are one step. A section under a mutex is a step too. A timeout is in nanoseconds.
pub mod Steps
pub mod Validity
pub mod Reachable
pub mod Moves
pub mod Delivery
pub mod Queue
pub mod Closing
mod Tests
use go_example.Prelude.{
  ℕ, zero, suc, ◌+◌, Bool, true, false, ◌||◌, Option, none, some, List, [], ◌∷◌, ◌++◌, ◌==◌, ltb,
  min, length, if◌then◌else◌,
}
use go_example.Prelude.Dict.{Str, lookup, insert, delete}

-- `UDPConn`. `done` says that `doneCh` is closed, `running` that its `readLoop` runs.
pub record UdpConn : Type 0 where
  pub r_addr : Str
  pub msgs : List Str
  pub last_activity : ℕ
  pub timeout : ℕ
  pub done : Bool
  pub running : Bool

-- Where the listener's `readLoop` is: in `ReadFrom`, before `getConn` with a datagram, within
-- `getConn` at the send of a new session to `acceptCh`, at the `select` that gives a session its
-- datagram, or at its end.
pub data LoopPhase : Type 0 where
  reading : LoopPhase
  looking : Str → Str → LoopPhase
  handing : ℕ → Str → LoopPhase
  offering : ℕ → Str → LoopPhase
  ended : LoopPhase

-- `UDPListener`. `shutdown_end` is the `end` of the `Shutdown` that waits, and `closed` says that
-- `acceptCh` and the packet conn are closed; `count` is the number of sessions made.
pub record UdpListener : Type 0 where
  pub conns : List (Str × ℕ)
  pub sessions : ℕ → UdpConn
  pub count : ℕ
  pub accepting : Bool
  pub timeout : ℕ
  pub phase : LoopPhase
  pub shutdown_end : Option ℕ
  pub closed : Bool

abbrev pub no_conn : UdpConn
no_conn = record {
  r_addr = [];
  msgs = [];
  last_activity = 0;
  timeout = 0;
  done = false;
  running = false;
}

-- `ListenUDPPacketConn` on a UDP conn: an error where the timeout is not positive.
unfoldable pub listen_udp_packet_conn : ℕ → Option UdpListener
listen_udp_packet_conn zero = none
listen_udp_packet_conn (suc t) = some (record {
  conns = [];
  sessions = λ i. no_conn;
  count = 0;
  accepting = true;
  timeout = suc t;
  phase = reading;
  shutdown_end = none;
  closed = false;
})

-- A write to the session with a name.
abbrev pub write : ℕ → UdpConn → (ℕ → UdpConn) → ℕ → UdpConn
write i c f j = if i == j then c else f j

abbrev pub with_conn : ℕ → UdpConn → UdpListener → UdpListener
with_conn i c l = record l { sessions = write i c l.sessions }

-- `newConn`
abbrev pub new_conn : UdpListener → Str → ℕ → UdpConn
new_conn l addr now = record {
  r_addr = addr;
  msgs = [];
  last_activity = now;
  timeout = l.timeout;
  done = false;
  running = false;
}

-- The listener's mutex is held while the read loop hands a new session over, within `getConn`.
abbrev pub is_unlocked : LoopPhase → Bool
is_unlocked (handing i b) = false
is_unlocked reading = true
is_unlocked (looking a b) = true
is_unlocked (offering i b) = true
is_unlocked ended = true

-- `getConn` up to its send, with the datagram `b`, for the entry of the map.
unfoldable pub find_conn : Str → Str → ℕ → Option ℕ → UdpListener → UdpListener
find_conn addr b now (some i) l = record l { phase = offering i b }
find_conn addr b now none l =
    if l.accepting
    then record l {
      conns = insert addr l.count l.conns;
      sessions = write l.count (new_conn l addr now) l.sessions;
      count = suc l.count;
      phase = handing l.count b;
    }
    else record l { phase = reading }

unfoldable pub get_conn : Str → Str → ℕ → UdpListener → UdpListener
get_conn addr b now l = find_conn addr b now (lookup addr l.conns) l

-- `Accept` takes the session, and `getConn` starts its `readLoop`.
unfoldable pub accepted : ℕ → Str → UdpListener → UdpListener
accepted i b l = record l {
  sessions = write i (record (l.sessions i) { running = true }) l.sessions;
  phase = offering i b;
}

-- The session's `readLoop` receives a datagram.
unfoldable pub received : ℕ → Str → UdpListener → UdpListener
received i b l =
    let c = l.sessions i in
    record l {
      sessions = write i (record c { msgs = c.msgs ++ (b ∷ []) }) l.sessions;
      phase = reading;
    }

-- `copy` of a datagram into a buffer of a length, with the number of bytes.
abbrev pub copied : ℕ → Str → ℕ
copied size b = min size (length b)

-- `lastActivity = time.Now()`, at the end of `Read` and the begin of `Write`.
unfoldable pub touch : ℕ → ℕ → UdpListener → UdpListener
touch i now l = with_conn i (record (l.sessions i) { last_activity = now }) l

-- `UDPConn.close`
unfoldable pub close_conn : ℕ → UdpListener → UdpListener
close_conn i l = with_conn i (record (l.sessions i) { done = true }) l

-- The rest of `Close`, under the mutex.
unfoldable pub forget : ℕ → UdpListener → UdpListener
forget i l = record l { conns = delete (l.sessions i).r_addr l.conns }

-- The test of a tick: the deadline has passed.
unfoldable pub is_idle : ℕ → UdpConn → Bool
is_idle now c = ltb (c.last_activity + c.timeout) now

-- The loop ends at a tick; the deletion of its `Close` is a `forget`.
unfoldable pub expire : ℕ → UdpListener → UdpListener
expire i l = with_conn i (record (l.sessions i) { done = true; running = false }) l

-- The first section of `Shutdown`: nothing where it has run before.
unfoldable pub shutdown : ℕ → ℕ → UdpListener → UdpListener
shutdown grace now l =
    if l.accepting then record l { accepting = false; shutdown_end = some (now + grace) } else l

abbrev pub is_empty : List (Str × ℕ) → Bool
is_empty [] = true
is_empty (e ∷ m) = false

-- `Shutdown` leaves its loop.
unfoldable pub is_over : ℕ → Option ℕ → List (Str × ℕ) → Bool
is_over now none conns = false
is_over now (some end) conns = ltb end now || is_empty conns

abbrev pub close_all : List (Str × ℕ) → (ℕ → UdpConn) → ℕ → UdpConn
close_all [] f = f
close_all ((a, i) ∷ m) f = close_all m (write i (record (f i) { done = true }) f)

-- `UDPListener.close`
unfoldable pub close : UdpListener → UdpListener
close l = record l {
  conns = [];
  sessions = close_all l.conns l.sessions;
  shutdown_end = none;
  closed = true;
}

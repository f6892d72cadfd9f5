-- ===== src/UvLoop.antt =====
-- uvgo/loop.go, loop_meta.go, timer.go, tcp.go and eventloop.go: the event loop. A handle is a number
-- that names it. The callbacks are arbitrary functions of the program: what one does to the loop is a
-- parameter `exec` of the definitions that call it, and each call is recorded in `calls`.
pub mod Hooks
pub mod Timers
pub mod Scheduler
pub mod Phases
pub mod Order
pub mod Drains
pub mod Teardown
pub mod Wakeups
pub mod Due
mod Tests
use go_example.Prelude.{
  ℕ, Bool, true, false, ◌||◌, Option, none, some, List, [], ◌∷◌, ◌++◌, length, ◌==◌, ltb,
  if◌then◌else◌,
}
use go_example.Prelude.Int.{ℤ}

-- `ctx.Err()`
pub data CtxState : Type 0 where
  live : CtxState
  canceled : CtxState
  deadline_exceeded : CtxState

-- A call of a callback: of a posted function, of a hook's function, of a timer's, of `onTCPConn` with
-- a connection, of a completed send with its error; or the work on a job of a file poll or on a
-- datagram, which calls the callback of its handle.
pub data Call : Type 0 where
  posted : ℕ → Call
  hook : ℕ → Call
  timer : ℕ → Call
  tcp_conn : ℕ → ℕ → Call
  send_done : ℕ → Bool → Call
  fs_job : ℕ → Call
  udp_recv : ℕ → Call

-- `phaseHook`, with the number that stands for its pointer.
pub record PhaseHook : Type 0 where
  pub id : ℕ
  pub fn : ℕ

-- `timerHandle`, with the number that stands for its pointer.
pub record TimerHandle : Type 0 where
  pub id : ℕ
  pub next : ℤ
  pub repeat : ℤ
  pub cb : Option ℕ
  pub active : Bool

-- `udpSendDone`
pub record UdpSendDone : Type 0 where
  pub cb : Option ℕ
  pub err : Bool

-- `Loop`. `handles` has every timer handle that there is, `timers` the pointers that the loop keeps.
-- `closed` records the listeners, sockets and connections that were closed.
pub record Loop : Type 0 where
  pub ctx : CtxState
  pub stopped : Bool
  pub stop_flag : Bool
  pub timer_once : Bool
  pub cached_now : ℕ
  pub pending_q : List ℕ
  pub prepare_hooks : List PhaseHook
  pub idle_hooks : List PhaseHook
  pub check_hooks : List PhaseHook
  pub next_id : ℕ
  pub accept_q : List ℕ
  pub fire : List ℕ
  pub fspoll_q : List ℕ
  pub udp_in : List ℕ
  pub listeners : List ℕ
  pub handles : List TimerHandle
  pub timers : List ℕ
  pub timer_wake : Bool
  pub on_tcp_conn : Option ℕ
  pub udp_send_done : List UdpSendDone
  pub udps : List ℕ
  pub calls : List Call
  pub closed : List ℕ

-- The capacities of the channels.
abbrev pub pending_capacity : ℕ
pending_capacity = 1024

abbrev pub fire_capacity : ℕ
fire_capacity = 32

-- `NewLoop` on a context in some state; `UpdateTime` reads 0 milliseconds.
unfoldable pub new_loop : CtxState → Loop
new_loop ctx = record {
  ctx = ctx;
  stopped = false;
  stop_flag = false;
  timer_once = false;
  cached_now = 0;
  pending_q = [];
  prepare_hooks = [];
  idle_hooks = [];
  check_hooks = [];
  next_id = 0;
  accept_q = [];
  fire = [];
  fspoll_q = [];
  udp_in = [];
  listeners = [];
  handles = [];
  timers = [];
  timer_wake = false;
  on_tcp_conn = none;
  udp_send_done = [];
  udps = [];
  calls = [];
  closed = [];
}

-- `cancel()`: the first reason stays.
abbrev pub cancel : CtxState → CtxState
cancel live = canceled
cancel canceled = canceled
cancel deadline_exceeded = deadline_exceeded

abbrev pub is_done : CtxState → Bool
is_done live = false
is_done canceled = true
is_done deadline_exceeded = true

-- `UpdateTime`, at some milliseconds since the loop was made.
abbrev pub update_time : ℕ → Loop → Loop
update_time ms l = record l { cached_now = ms }

-- `Now`
unfoldable pub now : ℕ → Loop → ℕ
now ms l = if l.cached_now == 0 then ms else l.cached_now

-- `RequestStop`
unfoldable pub request_stop : Loop → Loop
request_stop l = record l { stop_flag = true; ctx = cancel l.ctx }

-- `shutdownSockets`: closing a UDP socket takes it off the list, which is empty by then.
unfoldable pub shutdown_sockets : Loop → Loop
shutdown_sockets l = record l {
  listeners = [];
  udps = [];
  closed = l.closed ++ (l.listeners ++ l.udps);
}

-- `Stop`
unfoldable pub stop : Loop → Loop
stop l =
    if l.stopped
    then l
    else (let s = shutdown_sockets (record l { stopped = true }) in record s { ctx = cancel s.ctx })

-- `Post` of a function; a full queue drops it.
unfoldable pub post : ℕ → Loop → Loop
post fn l =
    if ltb (length l.pending_q) pending_capacity
    then record l { pending_q = l.pending_q ++ (fn ∷ []) }
    else l

-- `ListenTCP`, for the callback and what `net.Listen` returns; the result is the error, if any.
pub data ListenError : Type 0 where
  err_stopped : ListenError
  listen_failed : ListenError

unfoldable pub add_listener : Option ℕ → Loop → Loop × Option ListenError
add_listener none l = (l, some listen_failed)
add_listener (some ln) l = (record l { listeners = l.listeners ++ (ln ∷ []) }, none)

unfoldable pub listen_tcp : Option ℕ → Option ℕ → Loop → Loop × Option ListenError
listen_tcp on_conn listened l =
    if l.stopped
    then (l, some err_stopped)
    else add_listener listened (record l { on_tcp_conn = on_conn })

-- The handle of a pointer.
unfoldable pub handle_at : ℕ → List TimerHandle → Option TimerHandle
handle_at p [] = none
handle_at p (th ∷ ths) = if th.id == p then some th else handle_at p ths

-- A write through a pointer.
unfoldable pub update_handle : TimerHandle → List TimerHandle → List TimerHandle
update_handle h [] = []
update_handle h (th ∷ ths) =
    let rest = update_handle h ths in if th.id == h.id then h ∷ rest else th ∷ rest

abbrev pub is_active : Option TimerHandle → Bool
is_active none = false
is_active (some th) = th.active

-- `Alive`
unfoldable pub any_active : List ℕ → List TimerHandle → Bool
any_active [] ths = false
any_active (p ∷ ps) ths = is_active (handle_at p ths) || any_active ps ths

unfoldable pub alive : Loop → Bool
alive l =
    if ltb 0 (length l.listeners) || ltb 0 (length l.udps)
    then true
    else any_active l.timers l.handles

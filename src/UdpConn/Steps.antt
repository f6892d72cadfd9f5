-- ===== src/UdpConn/Steps.antt =====
-- net/proxy/udp_conn.go: the steps of the goroutines, and runs of them.
use go_example.Prelude.{
  leb, ℕ, Bool, true, false, not, ◌&&◌, Option, none, some, List, [], ◌∷◌, ltb, ◌≡◌, refl, some_inj,
  if◌then◌else◌,
}
use go_example.Prelude.Dict.{Str}
use mathlib.Core.Path.{subst}
use go_example.UdpConn.{
  UdpListener, LoopPhase, reading, looking, handing, offering, ended, is_unlocked, get_conn,
  accepted, received, copied, touch, close_conn, forget, is_idle, expire, shutdown, is_over, close,
  with_conn,
}

-- The steps: `ReadFrom` returns a datagram or fails, `getConn` at a time, `Accept` takes a session, or
-- finds the channel closed, the session receives the offered datagram, or the offer ends with its
-- `doneCh`, `Read` of a session into a buffer of a length, or its end of file, `touch` at a time, the two
-- halves of a session's `Close`, a tick at a time after the deadline, `Shutdown` with a grace at a
-- time, and `close` once its loop is over.
pub data Event : Type 0 where
  read_from : Str → Str → Event
  read_failed : Event
  get : ℕ → Event
  accept : Event
  accept_closed : Event
  receive : Event
  refuse : Event
  read : ℕ → ℕ → Event
  read_eof : ℕ → Event
  touched : ℕ → ℕ → Event
  close_done : ℕ → Event
  close_forget : ℕ → Event
  tick : ℕ → ℕ → Event
  shut : ℕ → ℕ → Event
  shut_close : ℕ → Event

-- What a step yields: the session that `Accept` returns, or its error; the datagram that a session with
-- an address receives; the datagram of which `Read` returns the first bytes, as many as the number
-- says; `io.EOF`.
pub data Output : Type 0 where
  silent : Output
  got_conn : ℕ → Output
  err_closed : Output
  took : ℕ → Str → Str → Output
  returned : ℕ → Str → ℕ → Output
  eof : ℕ → Output

abbrev pub Step : Type 0
Step = Option (Output × UdpListener)

abbrev pub guard : Bool → Output → UdpListener → Step
guard b o l = if b then some (o, l) else none

-- A step that was taken, by its guard.
pub guard_lem :
    (b : Bool) (o p : Output) (l m : UdpListener)
    → guard b o l ≡ some (p, m)
    → (b ≡ true) × (o ≡ p) × (l ≡ m)
guard_lem true o p l m e = let q = some_inj e in (refl, (λ i. (q i).0), (λ i. (q i).1))
guard_lem false o p l m e = absurd (cc)

-- What holds of the only result of a step holds of it.
pub guard_elim {ℓ} :
    (P : Output → UdpListener → Type ℓ) (b : Bool) (o p : Output) (l m : UdpListener)
    → guard b o l ≡ some (p, m)
    → (b ≡ true → P o l)
    → P p m
guard_elim P true o p l m e f =
    let q = some_inj e in subst (λ (x : Output × UdpListener). P x.0 x.1) q (f refl)
guard_elim P false o p l m e f = absurd (cc)

-- The steps of the listener's `readLoop`, each from its phase.
abbrev pub on_read_from : Str → Str → LoopPhase → UdpListener → Step
on_read_from addr b reading l = guard (not l.closed) silent (record l { phase = looking addr b })
on_read_from addr b (looking a c) l = none
on_read_from addr b (handing i c) l = none
on_read_from addr b (offering i c) l = none
on_read_from addr b ended l = none

abbrev pub on_failure : LoopPhase → UdpListener → Step
on_failure reading l = some (silent, record l { phase = ended })
on_failure (looking a c) l = none
on_failure (handing i c) l = none
on_failure (offering i c) l = none
on_failure ended l = none

abbrev pub on_get : ℕ → LoopPhase → UdpListener → Step
on_get now (looking addr b) l = some (silent, get_conn addr b now l)
on_get now reading l = none
on_get now (handing i c) l = none
on_get now (offering i c) l = none
on_get now ended l = none

-- The session's `readLoop` begins then. Its ticker has a tenth of the timeout, and panics where that is
-- no nanosecond: the program has no further step.
abbrev pub on_accept : LoopPhase → UdpListener → Step
on_accept (handing i b) l = guard (leb 10 l.timeout) (got_conn i) (accepted i b l)
on_accept reading l = none
on_accept (looking a c) l = none
on_accept (offering i c) l = none
on_accept ended l = none

abbrev pub on_receive : LoopPhase → UdpListener → Step
on_receive (offering i b) l =
    guard (l.sessions i).running (took i (l.sessions i).r_addr b) (received i b l)
on_receive reading l = none
on_receive (looking a c) l = none
on_receive (handing i c) l = none
on_receive ended l = none

abbrev pub on_refuse : LoopPhase → UdpListener → Step
on_refuse (offering i b) l = guard (l.sessions i).done silent (record l { phase = reading })
on_refuse reading l = none
on_refuse (looking a c) l = none
on_refuse (handing i c) l = none
on_refuse ended l = none

-- The session's `readLoop` gives the first of its datagrams to a `Read`.
abbrev pub on_read : ℕ → ℕ → List Str → UdpListener → Step
on_read i size [] l = none
on_read i size (b ∷ msgs) l =
    guard (l.sessions i).running (returned i b (copied size b))
      (with_conn i (record (l.sessions i) { msgs = msgs }) l)

unfoldable pub act : Event → UdpListener → Step
act (read_from addr b) l = on_read_from addr b l.phase l
act read_failed l = on_failure l.phase l
act (get now) l = on_get now l.phase l
act accept l = on_accept l.phase l
act accept_closed l = guard l.closed err_closed l
act receive l = on_receive l.phase l
act refuse l = on_refuse l.phase l
act (read i size) l = on_read i size (l.sessions i).msgs l
act (read_eof i) l = guard (l.sessions i).done (eof i) l
act (touched i now) l = guard (ltb i l.count) silent (touch i now l)
act (close_done i) l = guard (ltb i l.count) silent (close_conn i l)
act (close_forget i) l = guard ((l.sessions i).done && is_unlocked l.phase) silent (forget i l)
act (tick i now) l =
    guard ((l.sessions i).running && is_idle now (l.sessions i)) silent (expire i l)
act (shut grace now) l = guard (is_unlocked l.phase) silent (shutdown grace now l)
act (shut_close now) l =
    guard (is_unlocked l.phase && is_over now l.shutdown_end l.conns) silent (close l)

-- The states that steps lead to from `l`, with what they yield, the oldest first.
pub data Run : UdpListener → List Event → List Output → UdpListener → Type 0 where
  finished : {l : UdpListener} → Run l [] [] l
  step :
      {l m n : UdpListener} {e : Event} {o : Output} {es : List Event} {os : List Output}
      → act e l ≡ some (o, m)
      → Run m es os n
      → Run l (e ∷ es) (o ∷ os) n

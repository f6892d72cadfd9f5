-- ===== src/UdpConn/Reachable.antt =====
-- net/proxy/udp_conn.go: the steps keep a listener valid.
use go_example.Prelude.{
  leb, ℕ, zero, suc, Bool, true, false, some, List, [], ◌∷◌, ◌++◌, ◌&&◌, some_inj, ◌≡◌, refl, arith,
  ltb→lt,
}
use go_example.Prelude.Dict.{Str, lookup}
use mathlib.Core.Path.{subst}
use go_example.UdpConn.{
  UdpConn, UdpListener, LoopPhase, reading, looking, handing, offering, ended,
  listen_udp_packet_conn, get_conn, with_conn, accepted, received, touch, close_conn, expire,
}
use go_example.UdpConn.Steps.{
  guard_elim, Event, Output, Step, Run, finished, step, act, guard_lem, on_read_from, on_failure,
  on_get, on_accept, on_receive, on_refuse, on_read,
}
use go_example.UdpConn.Validity.{
  PhaseOk, IsValid, with_conn-IsValid, phase-IsValid, find_conn-IsValid, forget-IsValid,
  shutdown-IsValid, close-IsValid,
}

on_read_from-IsValid :
    (addr b : Str) (p : LoopPhase) (o : Output) (l m : UdpListener)
    → on_read_from addr b p l ≡ some (o, m)
    → IsValid l
    → IsValid m
on_read_from-IsValid addr b reading o l m e v =
    let (_, _, q) = guard_lem _ _ o _ m e in subst IsValid q (phase-IsValid (looking addr b) l tt v)
on_read_from-IsValid addr b (looking a c) o l m e v = absurd (cc)
on_read_from-IsValid addr b (handing i c) o l m e v = absurd (cc)
on_read_from-IsValid addr b (offering i c) o l m e v = absurd (cc)
on_read_from-IsValid addr b ended o l m e v = absurd (cc)

-- The state of a step that was taken.
state_lem :
    {o p : Output} {l m : UdpListener}
    → ◌≡◌ {A = Step} (some (o, l)) (some (p, m))
    → IsValid l
    → IsValid m
state_lem e v = let q = some_inj e in subst IsValid (λ i. (q i).1) v

on_failure-IsValid :
    (p : LoopPhase) (o : Output) (l m : UdpListener)
    → on_failure p l ≡ some (o, m)
    → IsValid l
    → IsValid m
on_failure-IsValid reading o l m e v = state_lem e (phase-IsValid ended l tt v)
on_failure-IsValid (looking a c) o l m e v = absurd (cc)
on_failure-IsValid (handing i c) o l m e v = absurd (cc)
on_failure-IsValid (offering i c) o l m e v = absurd (cc)
on_failure-IsValid ended o l m e v = absurd (cc)

on_get-IsValid :
    (now : ℕ) (p : LoopPhase) (o : Output) (l m : UdpListener)
    → on_get now p l ≡ some (o, m)
    → IsValid l
    → IsValid m
unfolding get_conn
on_get-IsValid now reading o l m e v = absurd (cc)
on_get-IsValid now (looking addr b) o l m e v =
    state_lem e (find_conn-IsValid addr b now (lookup addr l.conns) l refl v)
on_get-IsValid now (handing i c) o l m e v = absurd (cc)
on_get-IsValid now (offering i c) o l m e v = absurd (cc)
on_get-IsValid now ended o l m e v = absurd (cc)

on_accept-IsValid :
    (p : LoopPhase) (o : Output) (l m : UdpListener)
    → PhaseOk p l.accepting l.count
    → on_accept p l ≡ some (o, m)
    → IsValid l
    → IsValid m
unfolding accepted
on_accept-IsValid reading o l m ok e v = absurd (cc)
on_accept-IsValid (looking addr b) o l m ok e v = absurd (cc)
on_accept-IsValid (handing i b) o l m ok e v =
    let c : UdpConn = record (l.sessions i) { running = true } in
    guard_elim (λ _. IsValid) (leb 10 l.timeout) _ o _ m e
      (λ _.
        phase-IsValid (offering i b) (with_conn i c l) ok.1 (with_conn-IsValid i c l ok.1 refl v))
on_accept-IsValid (offering i c) o l m ok e v = absurd (cc)
on_accept-IsValid ended o l m ok e v = absurd (cc)

on_receive-IsValid :
    (p : LoopPhase) (o : Output) (l m : UdpListener)
    → on_receive p l ≡ some (o, m)
    → PhaseOk p l.accepting l.count
    → IsValid l
    → IsValid m
unfolding received
on_receive-IsValid reading o l m e ok v = absurd (cc)
on_receive-IsValid (looking addr b) o l m e ok v = absurd (cc)
on_receive-IsValid (handing i b) o l m e ok v = absurd (cc)
on_receive-IsValid (offering i b) o l m e ok v =
    let (_, _, q) = guard_lem _ _ o _ m e in
    let c : UdpConn = record (l.sessions i) { msgs = (l.sessions i).msgs ++ (b ∷ []) } in
    subst IsValid q (phase-IsValid reading (with_conn i c l) tt (with_conn-IsValid i c l ok refl v))
on_receive-IsValid ended o l m e ok v = absurd (cc)

on_refuse-IsValid :
    (p : LoopPhase) (o : Output) (l m : UdpListener)
    → on_refuse p l ≡ some (o, m)
    → IsValid l
    → IsValid m
on_refuse-IsValid reading o l m e v = absurd (cc)
on_refuse-IsValid (looking addr b) o l m e v = absurd (cc)
on_refuse-IsValid (handing i b) o l m e v = absurd (cc)
on_refuse-IsValid (offering i b) o l m e v =
    let (_, _, q) = guard_lem _ _ o _ m e in subst IsValid q (phase-IsValid reading l tt v)
on_refuse-IsValid ended o l m e v = absurd (cc)

on_read-IsValid :
    (i size : ℕ) (msgs : List Str) (o : Output) (l m : UdpListener)
    → on_read i size msgs l ≡ some (o, m)
    → IsValid l
    → IsValid m
on_read-IsValid i size [] o l m e v = absurd (cc)
on_read-IsValid i size (b ∷ msgs) o l m e v =
    let (r, _, q) = guard_lem _ _ o _ m e in
    let c : UdpConn = record (l.sessions i) { msgs = msgs } in
    subst IsValid q (with_conn-IsValid i c l (v.running i r) refl v)

and_left : (a b : Bool) → (a && b) ≡ true → a ≡ true
and_left a b h = ground arith

pub and_right : (a b : Bool) → (a && b) ≡ true → b ≡ true
and_right a b h = ground arith

pub act-IsValid :
    (e : Event) (o : Output) (l m : UdpListener) → act e l ≡ some (o, m) → IsValid l → IsValid m
unfolding act touch close_conn expire
act-IsValid (Event.read_from addr b) o l m e v = on_read_from-IsValid addr b l.phase o l m e v
act-IsValid Event.read_failed o l m e v = on_failure-IsValid l.phase o l m e v
act-IsValid (Event.get now) o l m e v = on_get-IsValid now l.phase o l m e v
act-IsValid Event.accept o l m e v = on_accept-IsValid l.phase o l m v.in_phase e v
act-IsValid Event.accept_closed o l m e v =
    let (_, _, q) = guard_lem _ _ o _ m e in subst IsValid q v
act-IsValid Event.receive o l m e v = on_receive-IsValid l.phase o l m e v.in_phase v
act-IsValid Event.refuse o l m e v = on_refuse-IsValid l.phase o l m e v
act-IsValid (Event.read i size) o l m e v = on_read-IsValid i size (l.sessions i).msgs o l m e v
act-IsValid (Event.read_eof i) o l m e v =
    let (_, _, q) = guard_lem _ _ o _ m e in subst IsValid q v
act-IsValid (Event.touched i now) o l m e v =
    let (h, _, q) = guard_lem _ _ o _ m e in
    let c : UdpConn = record (l.sessions i) { last_activity = now } in
    subst IsValid q (with_conn-IsValid i c l (ltb→lt i l.count h) refl v)
act-IsValid (Event.close_done i) o l m e v =
    let (h, _, q) = guard_lem _ _ o _ m e in
    let c : UdpConn = record (l.sessions i) { done = true } in
    subst IsValid q (with_conn-IsValid i c l (ltb→lt i l.count h) refl v)
act-IsValid (Event.close_forget i) o l m e v =
    let (_, _, q) = guard_lem _ _ o _ m e in subst IsValid q (forget-IsValid i l v)
act-IsValid (Event.tick i now) o l m e v =
    let (h, _, q) = guard_lem _ _ o _ m e in
    let c : UdpConn = record (l.sessions i) { done = true; running = false } in
    subst IsValid q (with_conn-IsValid i c l (v.running i (and_left _ _ h)) refl v)
act-IsValid (Event.shut grace now) o l m e v =
    let (h, _, q) = guard_lem _ _ o _ m e in subst IsValid q (shutdown-IsValid grace now l h v)
act-IsValid (Event.shut_close now) o l m e v =
    let (h, _, q) = guard_lem _ _ o _ m e in
    subst IsValid q (close-IsValid now l (and_right _ _ h) v)

run-IsValid_from :
    {l m : UdpListener} {es : List Event} {os : List Output} → Run l es os m → IsValid l → IsValid m
run-IsValid_from finished v = v
run-IsValid_from (step {l = l} {m = m} {e = e} {o = o} h r) v =
    run-IsValid_from r (act-IsValid e o l m h v)

pub listen-IsValid :
    (timeout : ℕ) (l : UdpListener) → listen_udp_packet_conn timeout ≡ some l → IsValid l
unfolding listen_udp_packet_conn lookup
listen-IsValid zero l e = absurd (cc)
listen-IsValid (suc t) l e = subst IsValid (some_inj e) (record {
  in_phase = tt;
  entry = λ a i f. absurd (cc);
  running = λ i r. absurd (cc);
  blank = λ i big. refl;
  ending = λ t f. absurd (cc);
  closed = λ c. absurd (cc);
})

-- After whatever steps from a new listener: an entry of the map leads to a session that was made for
-- its address; an unmade session has no datagrams; while `Shutdown` waits, and when it has closed,
-- no session is made, and then the map is empty and none is on its way to the closed `acceptCh`.
pub run-IsValid :
    (timeout : ℕ) {l m : UdpListener} {es : List Event} {os : List Output}
    → listen_udp_packet_conn timeout ≡ some l
    → Run l es os m
    → IsValid m
run-IsValid timeout {l} e r = run-IsValid_from r (listen-IsValid timeout l e)

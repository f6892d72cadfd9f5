-- ===== src/UdpConn/Queue.antt =====
-- net/proxy/udp_conn.go: the datagrams of a session, from its `receiveCh` to its `Read`s.
use go_example.Prelude.{
  leb, ℕ, zero, suc, Bool, true, false, Option, none, some, List, [], ◌∷◌, ◌++◌, ◌==◌, ◌≡◌, refl,
  sym, ap, ◌∙◌, arith, if◌then◌else◌, if_elim, some_inj, append-nil, append_assoc,
}
use go_example.Prelude.Dict.{Str, lookup}
use go_example.UdpConn.{
  UdpConn, UdpListener, LoopPhase, reading, looking, handing, offering, ended,
  listen_udp_packet_conn, find_conn, get_conn, new_conn, write, accepted, received, touch,
  close_conn, forget, expire, shutdown, close,
}
use go_example.UdpConn.Steps.{
  Event, Output, Run, finished, step, act, guard, guard_elim, on_read_from, on_failure, on_get,
  on_accept, on_receive, on_refuse, on_read,
}
use go_example.UdpConn.Validity.{IsValid, close_all_lem}
use go_example.UdpConn.Reachable.{act-IsValid, listen-IsValid}

-- The datagrams that a session receives, and those of which its `Read`s return a part.
abbrev pub taken_by : ℕ → Output → List Str
taken_by i (Output.took j addr b) = if j == i then b ∷ [] else []
taken_by i _ = []

unfoldable pub all_taken_by : ℕ → List Output → List Str
all_taken_by i [] = []
all_taken_by i (o ∷ os) = taken_by i o ++ all_taken_by i os

abbrev pub returned_by : ℕ → Output → List Str
returned_by i (Output.returned j b n) = if j == i then b ∷ [] else []
returned_by i _ = []

unfoldable pub all_returned_by : ℕ → List Output → List Str
all_returned_by i [] = []
all_returned_by i (o ∷ os) = returned_by i o ++ all_returned_by i os

-- A step is one of the queue of session `i`.
abbrev Queues : ℕ → List Str → Output → UdpListener → Type 0
Queues i before o m = before ++ taken_by i o ≡ returned_by i o ++ (m.sessions i).msgs

-- A step without datagrams for the session.
still :
    (i : ℕ) (b : Bool) (q o : Output) (l n m : UdpListener)
    → guard b q n ≡ some (o, m)
    → taken_by i q ≡ []
    → returned_by i q ≡ []
    → (n.sessions i).msgs ≡ (l.sessions i).msgs
    → Queues i (l.sessions i).msgs o m
still i b q o l n m e t r same = guard_elim (Queues i (l.sessions i).msgs) b q o n m e (λ h.
    ap (λ x. (l.sessions i).msgs ++ x) t
    ∙ append-nil (l.sessions i).msgs
    ∙ sym same
    ∙ ap (λ x. x ++ (n.sessions i).msgs) (sym r))

write_msgs :
    (i j : ℕ) (c : UdpConn) (f : ℕ → UdpConn)
    → c.msgs ≡ (f j).msgs
    → (write j c f i).msgs ≡ (f i).msgs
write_msgs i j c f e = ground (arith, e)

find_msgs :
    (i : ℕ) (addr b : Str) (now : ℕ) (r : Option ℕ) (l : UdpListener)
    → IsValid l
    → ((find_conn addr b now r l).sessions i).msgs ≡ (l.sessions i).msgs
unfolding find_conn
find_msgs i addr b now (some j) l v = refl
find_msgs i addr b now none l v =
    if_elim (λ (n : UdpListener). (n.sessions i).msgs ≡ (l.sessions i).msgs) l.accepting
      (λ _.
        write_msgs i l.count (new_conn l addr now) l.sessions (sym (v.blank l.count (omega arith))))
      (λ _. refl)

on_read_from-Queues :
    (i : ℕ) (addr b : Str) (p : LoopPhase) (o : Output) (l m : UdpListener)
    → on_read_from addr b p l ≡ some (o, m)
    → Queues i (l.sessions i).msgs o m
on_read_from-Queues i addr b reading o l m e = still i _ _ o l _ m e refl refl refl
on_read_from-Queues i addr b (looking a c) o l m e = absurd (cc)
on_read_from-Queues i addr b (handing j c) o l m e = absurd (cc)
on_read_from-Queues i addr b (offering j c) o l m e = absurd (cc)
on_read_from-Queues i addr b ended o l m e = absurd (cc)

on_failure-Queues :
    (i : ℕ) (p : LoopPhase) (o : Output) (l m : UdpListener)
    → on_failure p l ≡ some (o, m)
    → Queues i (l.sessions i).msgs o m
on_failure-Queues i reading o l m e = still i true _ o l _ m e refl refl refl
on_failure-Queues i (looking a c) o l m e = absurd (cc)
on_failure-Queues i (handing j c) o l m e = absurd (cc)
on_failure-Queues i (offering j c) o l m e = absurd (cc)
on_failure-Queues i ended o l m e = absurd (cc)

on_get-Queues :
    (i now : ℕ) (p : LoopPhase) (o : Output) (l m : UdpListener)
    → IsValid l
    → on_get now p l ≡ some (o, m)
    → Queues i (l.sessions i).msgs o m
unfolding get_conn
on_get-Queues i now reading o l m v e = absurd (cc)
on_get-Queues i now (looking addr b) o l m v e =
    still i true _ o l _ m e refl refl (find_msgs i addr b now (lookup addr l.conns) l v)
on_get-Queues i now (handing j c) o l m v e = absurd (cc)
on_get-Queues i now (offering j c) o l m v e = absurd (cc)
on_get-Queues i now ended o l m v e = absurd (cc)

on_accept-Queues :
    (i : ℕ) (p : LoopPhase) (o : Output) (l m : UdpListener)
    → on_accept p l ≡ some (o, m)
    → Queues i (l.sessions i).msgs o m
unfolding accepted
on_accept-Queues i reading o l m e = absurd (cc)
on_accept-Queues i (looking addr b) o l m e = absurd (cc)
on_accept-Queues i (handing j b) o l m e =
    still i (leb 10 l.timeout) _ o l _ m e refl refl
      (write_msgs i j (record (l.sessions j) { running = true }) l.sessions refl)
on_accept-Queues i (offering j c) o l m e = absurd (cc)
on_accept-Queues i ended o l m e = absurd (cc)

received_lem :
    (i j : ℕ) (a b : Str) (f : ℕ → UdpConn)
    → (f i).msgs ++ (if j == i then b ∷ [] else [])
      ≡ (write j (record (f j) { msgs = (f j).msgs ++ (b ∷ []) }) f i).msgs
received_lem i j a b f = ground (arith, append-nil (f i).msgs)

on_receive-Queues :
    (i : ℕ) (p : LoopPhase) (o : Output) (l m : UdpListener)
    → on_receive p l ≡ some (o, m)
    → Queues i (l.sessions i).msgs o m
unfolding received
on_receive-Queues i reading o l m e = absurd (cc)
on_receive-Queues i (looking addr b) o l m e = absurd (cc)
on_receive-Queues i (handing j b) o l m e = absurd (cc)
on_receive-Queues i (offering j b) o l m e =
    guard_elim (Queues i (l.sessions i).msgs) _ _ o _ m e (λ h. received_lem i j [] b l.sessions)
on_receive-Queues i ended o l m e = absurd (cc)

on_refuse-Queues :
    (i : ℕ) (p : LoopPhase) (o : Output) (l m : UdpListener)
    → on_refuse p l ≡ some (o, m)
    → Queues i (l.sessions i).msgs o m
on_refuse-Queues i reading o l m e = absurd (cc)
on_refuse-Queues i (looking addr b) o l m e = absurd (cc)
on_refuse-Queues i (handing j b) o l m e = absurd (cc)
on_refuse-Queues i (offering j b) o l m e = still i _ _ o l _ m e refl refl refl
on_refuse-Queues i ended o l m e = absurd (cc)

returned_lem :
    (i j : ℕ) (b : Str) (msgs : List Str) (f : ℕ → UdpConn)
    → (f j).msgs ≡ b ∷ msgs
    → (f i).msgs ++ []
      ≡ (if j == i then b ∷ [] else []) ++ (write j (record (f j) { msgs = msgs }) f i).msgs
returned_lem i j b msgs f e = ground (arith, append-nil (f i).msgs, e)

on_read-Queues :
    (i j size : ℕ) (msgs : List Str) (o : Output) (l m : UdpListener)
    → (l.sessions j).msgs ≡ msgs
    → on_read j size msgs l ≡ some (o, m)
    → Queues i (l.sessions i).msgs o m
on_read-Queues i j size [] o l m q e = absurd (cc)
on_read-Queues i j size (b ∷ msgs) o l m q e =
    guard_elim (Queues i (l.sessions i).msgs) _ _ o _ m e
      (λ h. returned_lem i j b msgs l.sessions q)

shutdown_msgs :
    (i grace now : ℕ) (l : UdpListener)
    → ((shutdown grace now l).sessions i).msgs ≡ (l.sessions i).msgs
unfolding shutdown
shutdown_msgs i grace now l =
    if_elim (λ (n : UdpListener). (n.sessions i).msgs ≡ (l.sessions i).msgs) l.accepting (λ _. refl)
      (λ _. refl)

act-Queues :
    (i : ℕ) (e : Event) (o : Output) (l m : UdpListener)
    → act e l ≡ some (o, m)
    → IsValid l
    → Queues i (l.sessions i).msgs o m
unfolding act touch close_conn expire forget close
act-Queues i (Event.read_from addr b) o l m e v = on_read_from-Queues i addr b l.phase o l m e
act-Queues i Event.read_failed o l m e v = on_failure-Queues i l.phase o l m e
act-Queues i (Event.get now) o l m e v = on_get-Queues i now l.phase o l m v e
act-Queues i Event.accept o l m e v = on_accept-Queues i l.phase o l m e
act-Queues i Event.accept_closed o l m e v = still i _ _ o l l m e refl refl refl
act-Queues i Event.receive o l m e v = on_receive-Queues i l.phase o l m e
act-Queues i Event.refuse o l m e v = on_refuse-Queues i l.phase o l m e
act-Queues i (Event.read j size) o l m e v =
    on_read-Queues i j size (l.sessions j).msgs o l m refl e
act-Queues i (Event.read_eof j) o l m e v = still i _ _ o l l m e refl refl refl
act-Queues i (Event.touched j now) o l m e v =
    still i _ _ o l _ m e refl refl
      (write_msgs i j (record (l.sessions j) { last_activity = now }) l.sessions refl)
act-Queues i (Event.close_done j) o l m e v =
    still i _ _ o l _ m e refl refl
      (write_msgs i j (record (l.sessions j) { done = true }) l.sessions refl)
act-Queues i (Event.close_forget j) o l m e v = still i _ _ o l _ m e refl refl refl
act-Queues i (Event.tick j now) o l m e v =
    still i _ _ o l _ m e refl refl
      (write_msgs i j (record (l.sessions j) { done = true; running = false }) l.sessions refl)
act-Queues i (Event.shut grace now) o l m e v =
    still i _ _ o l _ m e refl refl (shutdown_msgs i grace now l)
act-Queues i (Event.shut_close now) o l m e v =
    still i _ _ o l _ m e refl refl (close_all_lem l.conns l.sessions i).1

run-queues :
    (i : ℕ) {l m : UdpListener} {es : List Event} {os : List Output}
    → Run l es os m
    → IsValid l
    → (l.sessions i).msgs ++ all_taken_by i os ≡ all_returned_by i os ++ (m.sessions i).msgs
unfolding all_taken_by all_returned_by
run-queues i (finished {l = l}) v = append-nil (l.sessions i).msgs
run-queues i (step {l = l} {m = m} {n = n} {e = e} {o = o} {os = os} h r) v =
    sym (append_assoc (l.sessions i).msgs (taken_by i o) (all_taken_by i os))
    ∙ ap (λ x. x ++ all_taken_by i os) (act-Queues i e o l m h v)
    ∙ append_assoc (returned_by i o) (m.sessions i).msgs (all_taken_by i os)
    ∙ ap (λ x. returned_by i o ++ x) (run-queues i r (act-IsValid e o l m h v))
    ∙ sym (append_assoc (returned_by i o) (all_returned_by i os) (n.sessions i).msgs)

listen_msgs :
    (timeout i : ℕ) (l : UdpListener)
    → listen_udp_packet_conn timeout ≡ some l
    → (l.sessions i).msgs ≡ []
unfolding listen_udp_packet_conn
listen_msgs zero i l e = absurd (cc)
listen_msgs (suc t) i l e = ap (λ (n : UdpListener). (n.sessions i).msgs) (sym (some_inj e))

-- Whatever the goroutines do after the start of a listener, the datagrams that a session has received
-- are those that its `Read`s have returned a part of, in this order and each once, and then those in
-- its `msgs`.
pub run-queues_started :
    (timeout i : ℕ) {l m : UdpListener} {es : List Event} {os : List Output}
    → listen_udp_packet_conn timeout ≡ some l
    → Run l es os m
    → all_taken_by i os ≡ all_returned_by i os ++ (m.sessions i).msgs
run-queues_started timeout i {l} {es = es} {os = os} e r =
    ap (λ x. x ++ all_taken_by i os) (sym (listen_msgs timeout i l e))
    ∙ run-queues i r (listen-IsValid timeout l e)

-- ===== src/UvLoop/Drains.antt =====
-- The teardown of the loop of uvgo/loop.go and eventloop.go: what is closed and drained.
use go_example.Prelude.{
  ℕ, zero, suc, Bool, Option, none, some, List, [], ◌∷◌, ◌++◌, ◌>>=◌, ◌≡◌, refl, sym, ap, ◌∙◌,
  arith, inl, inr, Option-cases, ◌<◌, length, append_assoc, append-nil, some_inj,
}
use mathlib.Core.Path.{subst}
use go_example.UvLoop.{Loop, CtxState, Call, UdpSendDone, send_done, shutdown_sockets}
use go_example.UvLoop.Timers.{invoke}
use go_example.UvLoop.Phases.{
  Turn, returned, dispatch_send_done, drain_sent, teardown_after_run, leave, arrive,
}

-- The calls of the callbacks of completed sends.
unfoldable pub sent_calls : List UdpSendDone → List Call
sent_calls [] = []
sent_calls (sd ∷ q) = elim sd.cb [
  | none ↦ sent_calls q
  | some fn ↦ send_done fn sd.err ∷ sent_calls q
]

-- What the teardown of a loop `m` leaves: the listeners, the sockets and the waiting connections are
-- closed, in this order, the callbacks of the completed sends are called, and the queues have nothing
-- but what arrived after they were drained.
pub record IsTornDown (m : Loop) (turn : Turn) (l : Loop) : Type 0 where
  pub listeners : l.listeners ≡ []
  pub udps : l.udps ≡ []
  pub closed :
      l.closed ≡ (m.closed ++ (m.listeners ++ m.udps)) ++ (m.accept_q ++ turn.during.accepts)
  pub calls : l.calls ≡ m.calls ++ sent_calls (m.udp_send_done ++ turn.during.sends)
  pub accept_q : l.accept_q ≡ turn.late.accepts
  pub udp_in : l.udp_in ≡ turn.late.datagrams
  pub udp_send_done : l.udp_send_done ≡ turn.late.sends

-- What of a loop is as it was.
pub record Keeps (l l' : Loop) : Type 0 where
  pub listeners : l'.listeners ≡ l.listeners
  pub udps : l'.udps ≡ l.udps
  pub closed : l'.closed ≡ l.closed
  pub calls : l'.calls ≡ l.calls
  pub accept_q : l'.accept_q ≡ l.accept_q
  pub udp_in : l'.udp_in ≡ l.udp_in
  pub udp_send_done : l'.udp_send_done ≡ l.udp_send_done

-- The loop after its queue `q` of sends is drained.
record Drained (q : List UdpSendDone) (l l' : Loop) : Type 0 where
  listeners : l'.listeners ≡ l.listeners
  udps : l'.udps ≡ l.udps
  closed : l'.closed ≡ l.closed
  calls : l'.calls ≡ l.calls ++ sent_calls q
  accept_q : l'.accept_q ≡ l.accept_q
  udp_in : l'.udp_in ≡ l.udp_in
  udp_send_done : l'.udp_send_done ≡ []

module _ (exec : Call → Loop → Loop)
    (calm : (fn : ℕ) (err : Bool) (l : Loop) → Keeps l (exec (send_done fn err) l)) where
  -- One send, before the rest of the queue.
  add-Drained :
      (sd : UdpSendDone) (cb : Option ℕ) (q : List UdpSendDone) (l l' : Loop)
      → sd.cb ≡ cb
      → Drained q (dispatch_send_done exec sd cb (record l { udp_send_done = q })) l'
      → Drained (sd ∷ q) l l'
  unfolding dispatch_send_done invoke sent_calls
  add-Drained sd none q l l' e d = record {
    listeners = d.listeners;
    udps = d.udps;
    closed = d.closed;
    calls = rw e d.calls;
    accept_q = d.accept_q;
    udp_in = d.udp_in;
    udp_send_done = d.udp_send_done;
  }
  add-Drained sd (some fn) q l l' e d =
      let k =
        calm fn sd.err
          (record l { udp_send_done = q; calls = l.calls ++ (send_done fn sd.err ∷ []) }) in
      record {
        listeners = d.listeners ∙ k.listeners;
        udps = d.udps ∙ k.udps;
        closed = d.closed ∙ k.closed;
        calls = rw e (
            d.calls
            ∙ ap (λ c. c ++ sent_calls q) k.calls
            ∙ append_assoc l.calls (send_done fn sd.err ∷ []) (sent_calls q));
        accept_q = d.accept_q ∙ k.accept_q;
        udp_in = d.udp_in ∙ k.udp_in;
        udp_send_done = d.udp_send_done;
      }

  dispatch_queue :
      (sd : UdpSendDone) (cb : Option ℕ) (l : Loop)
      → (dispatch_send_done exec sd cb l).udp_send_done ≡ l.udp_send_done
  unfolding dispatch_send_done invoke
  dispatch_queue sd none l = refl
  dispatch_queue sd (some fn) l =
      (calm fn sd.err (record l { calls = l.calls ++ (send_done fn sd.err ∷ []) })).udp_send_done

  drain_lem :
      (fuel : ℕ) (q : List UdpSendDone) (l l' : Loop)
      → l.udp_send_done ≡ q
      → drain_sent exec fuel l ≡ some l'
      → Drained q l l'
  unfolding drain_sent sent_calls
  drain_lem zero q l l' e h = absurd (ground (arith, h))
  drain_lem (suc fuel) [] l l' e h =
      let same : l ≡ l' = ground (arith, e, h) in
      subst (Drained [] l) same (record {
        listeners = refl;
        udps = refl;
        closed = refl;
        calls = sym (append-nil l.calls);
        accept_q = refl;
        udp_in = refl;
        udp_send_done = e;
      })
  drain_lem (suc fuel) (sd ∷ q) l l' e h =
      let next = dispatch_send_done exec sd sd.cb (record l { udp_send_done = q }) in
      add-Drained sd sd.cb q l l' refl (
        drain_lem fuel q next l' (dispatch_queue sd sd.cb (record l { udp_send_done = q }))
          (ground (arith, e, h)))

  -- As much fuel as there are sends, and one, is enough.
  drain-some :
      (fuel : ℕ) (q : List UdpSendDone) (l : Loop)
      → l.udp_send_done ≡ q
      → length q < fuel
      → (l' : Loop) × (drain_sent exec fuel l ≡ some l')
  unfolding drain_sent
  drain-some zero q l e h = absurd (omega arith)
  drain-some (suc fuel) [] l e h = (l, ground (arith, e))
  drain-some (suc fuel) (sd ∷ q) l e h =
      let next = dispatch_send_done exec sd sd.cb (record l { udp_send_done = q }) in
      let (l', run) =
        drain-some fuel q next (dispatch_queue sd sd.cb (record l { udp_send_done = q }))
          (omega arith) in
      (l', ground (arith, e, run))

  -- The loop when the sends are drained.
  abbrev before_sends : Turn → Loop → Loop
  before_sends turn m =
      let s = arrive turn.during (shutdown_sockets m) in
      record s { accept_q = []; closed = s.closed ++ s.accept_q; udp_in = [] }

  teardown-Drained :
      (turn : Turn) (m d : Loop)
      → Drained (m.udp_send_done ++ turn.during.sends) (before_sends turn m) d
      → IsTornDown m turn (arrive turn.late d)
  unfolding arrive shutdown_sockets
  teardown-Drained turn m d k = record {
    listeners = k.listeners;
    udps = k.udps;
    closed = k.closed;
    calls = k.calls;
    accept_q = ap (λ q. q ++ turn.late.accepts) k.accept_q;
    udp_in = ap (λ q. q ++ turn.late.datagrams) k.udp_in;
    udp_send_done = ap (λ q. q ++ turn.late.sends) k.udp_send_done;
  }

  pub teardown_lem :
      (fuel : ℕ) (turn : Turn) (m l' : Loop)
      → teardown_after_run exec fuel turn m ≡ some l'
      → IsTornDown m turn l'
  unfolding teardown_after_run arrive shutdown_sockets
  teardown_lem fuel turn m l' h = elim (Option-cases (drain_sent exec fuel (before_sends turn m))) [
    | inl n ↦ absurd (ground (arith, sym (ap (λ o. o >>= λ d. some (arrive turn.late d)) n) ∙ h))
    | inr (d, run) ↦
        let same : some (arrive turn.late d) ≡ some l' =
          sym (ap (λ o. o >>= λ d. some (arrive turn.late d)) run) ∙ h in
        subst (IsTornDown m turn) (some_inj same) (
          teardown-Drained turn m d (
            drain_lem fuel (m.udp_send_done ++ turn.during.sends) (before_sends turn m) d refl run))
  ]

  teardown-some :
      (fuel : ℕ) (turn : Turn) (m : Loop)
      → length (m.udp_send_done ++ turn.during.sends) < fuel
      → (l' : Loop) × (teardown_after_run exec fuel turn m ≡ some l') × IsTornDown m turn l'
  unfolding teardown_after_run arrive shutdown_sockets
  teardown-some fuel turn m h =
      let (d, run) =
        drain-some fuel (m.udp_send_done ++ turn.during.sends) (before_sends turn m) refl h in
      (
        arrive turn.late d,
        ap (λ o. o >>= λ d. some (arrive turn.late d)) run,
        teardown-Drained turn m d (
            drain_lem fuel (m.udp_send_done ++ turn.during.sends) (before_sends turn m) d refl run),
      )

  -- The loop that a round tears down, and the error that it then returns.
  pub leave-some :
      (fuel : ℕ) (turn : Turn) (r : Option CtxState) (m : Loop)
      → length (m.udp_send_done ++ turn.during.sends) < fuel
      → (l' : Loop) × (leave exec fuel turn r m ≡ some (l', returned r)) × IsTornDown m turn l'
  unfolding leave
  leave-some fuel turn r m h =
      let (l', run, down) = teardown-some fuel turn m h in
      (l', ap (λ o. o >>= λ l'. some (l', returned r)) run, down)

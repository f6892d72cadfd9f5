-- ===== src/UdpConn/Closing.antt =====
-- net/proxy/udp_conn.go: `Shutdown` and the lock that a new session holds.
use go_example.Prelude.{
  ℕ, ◌+◌, ◌<◌, Bool, true, false, Option, none, some, List, [], ◌∷◌, ◌≡◌, ◌⊎◌, refl, ◌∙◌, arith,
  inl, inr, All,
}
use go_example.Prelude.Dict.{Str, lookup}
use go_example.UdpConn.{
  UdpListener, LoopPhase, reading, looking, handing, offering, ended, find_conn, get_conn, accepted,
  received, touch, close_conn, forget, expire, shutdown, close, is_over,
}
use go_example.UdpConn.Reachable.{and_right}
use go_example.UdpConn.Steps.{
  Event, Output, Run, finished, step, act, guard, guard_lem, guard_elim, on_get, on_read,
}

abbrev pub is_accept : Event → Bool
is_accept Event.accept = true
is_accept _ = false

-- A listener that holds its lock until `Accept` takes the new session.
abbrev pub Waits : ℕ → Str → UdpListener → Type 0
Waits i b l = (l.phase ≡ handing i b) × (l.accepting ≡ true) × (l.closed ≡ false)

Waits-guard :
    (i : ℕ) (b : Str) (c : Bool) (q o : Output) (l n m : UdpListener)
    → guard c q n ≡ some (o, m)
    → n.phase ≡ l.phase
    → n.accepting ≡ l.accepting
    → n.closed ≡ l.closed
    → Waits i b l
    → Waits i b m
Waits-guard i b c q o l n m e p a d w =
    guard_elim (λ _ x. Waits i b x) c q o n m e (λ h. (p ∙ w.0, a ∙ w.1, d ∙ w.2))

read-Waits :
    (i : ℕ) (b : Str) (j size : ℕ) (msgs : List Str) (o : Output) (l m : UdpListener)
    → on_read j size msgs l ≡ some (o, m)
    → Waits i b l
    → Waits i b m
read-Waits i b j size [] o l m e w = absurd (cc)
read-Waits i b j size (d ∷ msgs) o l m e w = Waits-guard i b _ _ o l _ m e refl refl refl w

-- A step that needs another phase.
act-Waits :
    (i : ℕ) (b : Str) (e : Event) (o : Output) (l m : UdpListener)
    → act e l ≡ some (o, m)
    → is_accept e ≡ false
    → Waits i b l
    → Waits i b m
unfolding act touch close_conn expire
act-Waits i b (Event.read_from addr d) o l m e n w = ground (arith, e, w)
act-Waits i b Event.read_failed o l m e n w = ground (arith, e, w)
act-Waits i b (Event.get now) o l m e n w = ground (arith, e, w)
act-Waits i b Event.accept o l m e n w = absurd (cc)
act-Waits i b Event.accept_closed o l m e n w = ground (arith, e, w)
act-Waits i b Event.receive o l m e n w = ground (arith, e, w)
act-Waits i b Event.refuse o l m e n w = ground (arith, e, w)
act-Waits i b (Event.read j size) o l m e n w = read-Waits i b j size (l.sessions j).msgs o l m e w
act-Waits i b (Event.read_eof j) o l m e n w = Waits-guard i b _ _ o l l m e refl refl refl w
act-Waits i b (Event.touched j now) o l m e n w = Waits-guard i b _ _ o l _ m e refl refl refl w
act-Waits i b (Event.close_done j) o l m e n w = Waits-guard i b _ _ o l _ m e refl refl refl w
act-Waits i b (Event.close_forget j) o l m e n w = ground (arith, e, w)
act-Waits i b (Event.tick j now) o l m e n w = Waits-guard i b _ _ o l _ m e refl refl refl w
act-Waits i b (Event.shut grace now) o l m e n w = ground (arith, e, w)
act-Waits i b (Event.shut_close now) o l m e n w = ground (arith, e, w)

-- While `getConn` hands a new session over and nothing accepts it, no step of whatever goroutine gets
-- past that: the listener stays in `getConn` with its lock, and neither `Shutdown` nor `Close` ends.
pub run-Waits :
    (i : ℕ) (b : Str) {l m : UdpListener} {es : List Event} {os : List Output}
    → Waits i b l
    → All (λ e. is_accept e ≡ false) es
    → Run l es os m
    → Waits i b m
run-Waits i b w n finished = w
run-Waits i b w n (step {l = l} {m = m} {e = e} {o = o} h r) =
    run-Waits i b (act-Waits i b e o l m h n.0 w) n.1 r

phase_cases :
    (p : LoopPhase)
    → (p ≡ reading)
      ⊎ (((a : Str) × (b : Str) × (p ≡ looking a b))
          ⊎ (((i : ℕ) × (b : Str) × (p ≡ handing i b))
              ⊎ (((i : ℕ) × (b : Str) × (p ≡ offering i b)) ⊎ (p ≡ ended))))
phase_cases reading = inl refl
phase_cases (looking a b) = inr (inl (a, b, refl))
phase_cases (handing i b) = inr (inr (inl (i, b, refl)))
phase_cases (offering i b) = inr (inr (inr (inl (i, b, refl))))
phase_cases ended = inr (inr (inr (inr refl)))

-- A `Shutdown` waits until `t`, or has ended.
abbrev IsShut : ℕ → UdpListener → Type 0
IsShut t l = (l.accepting ≡ false) × ((l.shutdown_end ≡ some t) ⊎ (l.shutdown_end ≡ none))

get-IsShut :
    (t : ℕ) (addr b : Str) (now : ℕ) (r : Option ℕ) (l : UdpListener)
    → IsShut t l
    → IsShut t (find_conn addr b now r l)
unfolding find_conn
get-IsShut t addr b now (some i) l s = s
get-IsShut t addr b now none l s = ground (arith, s)

on_get-IsShut :
    (t now : ℕ) (p : LoopPhase) (o : Output) (l m : UdpListener)
    → on_get now p l ≡ some (o, m)
    → IsShut t l
    → IsShut t m
unfolding get_conn
on_get-IsShut t now reading o l m e s = absurd (cc)
on_get-IsShut t now (looking addr b) o l m e s =
    guard_elim (λ _ x. IsShut t x) true _ o _ m e
      (λ h. get-IsShut t addr b now (lookup addr l.conns) l s)
on_get-IsShut t now (handing i c) o l m e s = absurd (cc)
on_get-IsShut t now (offering i c) o l m e s = absurd (cc)
on_get-IsShut t now ended o l m e s = absurd (cc)

on_read-IsShut :
    (t j size : ℕ) (msgs : List Str) (o : Output) (l m : UdpListener)
    → on_read j size msgs l ≡ some (o, m)
    → IsShut t l
    → IsShut t m
on_read-IsShut t j size [] o l m e s = absurd (cc)
on_read-IsShut t j size (d ∷ msgs) o l m e s = guard_elim (λ _ x. IsShut t x) _ _ o _ m e (λ h. s)

act-IsShut :
    (t : ℕ) (e : Event) (o : Output) (l m : UdpListener)
    → act e l ≡ some (o, m)
    → IsShut t l
    → IsShut t m
unfolding act touch close_conn expire forget get_conn accepted received shutdown close
act-IsShut t (Event.read_from addr d) o l m e s = ground (arith, e, s, phase_cases l.phase)
act-IsShut t Event.read_failed o l m e s = ground (arith, e, s, phase_cases l.phase)
act-IsShut t (Event.get now) o l m e s = on_get-IsShut t now l.phase o l m e s
act-IsShut t Event.accept o l m e s = ground (arith, e, s, phase_cases l.phase)
act-IsShut t Event.accept_closed o l m e s = ground (arith, e, s)
act-IsShut t Event.receive o l m e s = ground (arith, e, s, phase_cases l.phase)
act-IsShut t Event.refuse o l m e s = ground (arith, e, s, phase_cases l.phase)
act-IsShut t (Event.read j size) o l m e s = on_read-IsShut t j size (l.sessions j).msgs o l m e s
act-IsShut t (Event.read_eof j) o l m e s = ground (arith, e, s)
act-IsShut t (Event.touched j now) o l m e s = ground (arith, e, s)
act-IsShut t (Event.close_done j) o l m e s = ground (arith, e, s)
act-IsShut t (Event.close_forget j) o l m e s = ground (arith, e, s)
act-IsShut t (Event.tick j now) o l m e s = ground (arith, e, s)
act-IsShut t (Event.shut grace now) o l m e s = ground (arith, e, s)
act-IsShut t (Event.shut_close now) o l m e s = ground (arith, e, s)

run-IsShut :
    (t : ℕ) {l m : UdpListener} {es : List Event} {os : List Output}
    → Run l es os m
    → IsShut t l
    → IsShut t m
run-IsShut t finished s = s
run-IsShut t (step {l = l} {m = m} {e = e} {o = o} h r) s =
    run-IsShut t r (act-IsShut t e o l m h s)

shut_lem :
    (grace t : ℕ) (o : Output) (l m : UdpListener)
    → l.accepting ≡ true
    → act (Event.shut grace t) l ≡ some (o, m)
    → IsShut (t + grace) m
unfolding act shutdown
shut_lem grace t o l m a e = ground (arith, a, e)

is_over_lem :
    (now t : ℕ) (end : Option ℕ) (conns : List (Str × ℕ)) (a : Str) (i : ℕ)
    → is_over now end conns ≡ true
    → (end ≡ some t) ⊎ (end ≡ none)
    → lookup a conns ≡ some i
    → t < now
unfolding is_over lookup
is_over_lem now t none conns a i h s e = absurd (cc)
is_over_lem now t (some end) [] a i h s e = absurd (cc)
is_over_lem now t (some end) (c ∷ conns) a i h s e = ground (arith, h, s)

-- Where `Shutdown` with a grace began on an accepting listener: when it closes the listener while an
-- entry of the map is left, the grace has passed since, whatever the goroutines did between.
pub run-grace :
    (grace t now : ℕ) (a : Str) (i : ℕ) (o p : Output) (l m n q : UdpListener) {es : List Event}
    {os : List Output}
    → l.accepting ≡ true
    → act (Event.shut grace t) l ≡ some (o, m)
    → Run m es os n
    → act (Event.shut_close now) n ≡ some (p, q)
    → lookup a n.conns ≡ some i
    → t + grace < now
unfolding act
run-grace grace t now a i o p l m n q acc shut r over found =
    let (h, _, _) = guard_lem _ _ p _ q over in
    let (_, s) = run-IsShut (t + grace) r (shut_lem grace t o l m acc shut) in
    is_over_lem now (t + grace) n.shutdown_end n.conns a i (and_right _ _ h) s found

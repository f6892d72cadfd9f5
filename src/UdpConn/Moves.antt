-- ===== src/UdpConn/Moves.antt =====
-- net/proxy/udp_conn.go: the way of a datagram in a step, from the packet conn to a session.
use go_example.Prelude.{
  leb, ℕ, Bool, true, false, Option, none, some, List, [], ◌∷◌, ◌++◌, ◌≡◌, ◌⊎◌, refl, sym, ap, ◌∙◌,
  arith, if_elim, inl, inr,
}
use go_example.Prelude.Dict.{Str, lookup}
use go_example.UdpConn.{
  UdpConn, UdpListener, LoopPhase, reading, looking, handing, offering, ended, find_conn, get_conn,
  new_conn, write, accepted, received, touch, close_conn, forget, expire, shutdown, close,
}
use go_example.UdpConn.Steps.{
  Event, Output, silent, act, guard, guard_elim, on_read_from, on_failure, on_get, on_accept,
  on_receive, on_refuse, on_read,
}
use go_example.UdpConn.Validity.{IsValid, close_all_lem}

-- Datagrams with their addresses.
abbrev pub Datagrams : Type 0
Datagrams = List (Str × Str)

-- What a step reads from the packet conn.
abbrev pub heard_at : Event → Datagrams
heard_at (Event.read_from addr b) = (addr, b) ∷ []
heard_at _ = []

-- What the sessions receive in a step, with their addresses.
abbrev pub taken_at : Output → Datagrams
taken_at (Output.took i addr b) = (addr, b) ∷ []
taken_at _ = []

-- The datagram on its way, with the address of the session that it is for.
abbrev pub pending : LoopPhase → (ℕ → UdpConn) → Datagrams
pending reading f = []
pending (looking a b) f = (a, b) ∷ []
pending (handing i b) f = ((f i).r_addr, b) ∷ []
pending (offering i b) f = ((f i).r_addr, b) ∷ []
pending ended f = []

-- A step moves what is on its way, or drops it.
abbrev pub Moves : Datagrams → Datagrams → Output → UdpListener → Type 0
Moves before new o m =
    (before ++ new ≡ taken_at o ++ pending m.phase m.sessions)
    ⊎ ((taken_at o ≡ []) × (pending m.phase m.sessions ≡ []))

abbrev Same : (ℕ → UdpConn) → (ℕ → UdpConn) → Type 0
Same f g = (j : ℕ) → (f j).r_addr ≡ (g j).r_addr

pending-Same : (p : LoopPhase) (f g : ℕ → UdpConn) → Same f g → pending p f ++ [] ≡ pending p g
pending-Same reading f g h = refl
pending-Same (looking a b) f g h = refl
pending-Same (handing i b) f g h = ap (λ a. (a, b) ∷ []) (h i)
pending-Same (offering i b) f g h = ap (λ a. (a, b) ∷ []) (h i)
pending-Same ended f g h = refl

write-Same :
    (i : ℕ) (c : UdpConn) (f : ℕ → UdpConn) → c.r_addr ≡ (f i).r_addr → Same f (write i c f)
write-Same i c f e j = ground (arith, e)

on_read_from_moves :
    (addr b : Str) (p : LoopPhase) (o : Output) (l m : UdpListener)
    → on_read_from addr b p l ≡ some (o, m)
    → Moves (pending p l.sessions) ((addr, b) ∷ []) o m
on_read_from_moves addr b reading o l m e =
    guard_elim (Moves [] ((addr, b) ∷ [])) _ _ o _ m e (λ h. inl refl)
on_read_from_moves addr b (looking a c) o l m e = absurd (cc)
on_read_from_moves addr b (handing i c) o l m e = absurd (cc)
on_read_from_moves addr b (offering i c) o l m e = absurd (cc)
on_read_from_moves addr b ended o l m e = absurd (cc)

on_failure_moves :
    (p : LoopPhase) (o : Output) (l m : UdpListener)
    → on_failure p l ≡ some (o, m)
    → Moves (pending p l.sessions) [] o m
on_failure_moves reading o l m e = guard_elim (Moves [] []) true _ o _ m e (λ h. inl refl)
on_failure_moves (looking a c) o l m e = absurd (cc)
on_failure_moves (handing i c) o l m e = absurd (cc)
on_failure_moves (offering i c) o l m e = absurd (cc)
on_failure_moves ended o l m e = absurd (cc)

fresh_address :
    (addr : Str) (n now : ℕ) (l : UdpListener)
    → addr ≡ (write n (new_conn l addr now) l.sessions n).r_addr
fresh_address addr n now l = ground arith

find_moves :
    (addr b : Str) (now : ℕ) (r : Option ℕ) (l : UdpListener)
    → ((i : ℕ) → r ≡ some i → (l.sessions i).r_addr ≡ addr)
    → Moves ((addr, b) ∷ []) [] silent (find_conn addr b now r l)
unfolding find_conn
find_moves addr b now (some i) l h = inl (ap (λ a. (a, b) ∷ []) (sym (h i refl)))
find_moves addr b now none l h =
    if_elim (Moves ((addr, b) ∷ []) [] silent) l.accepting
      (λ _. inl (ap (λ a. (a, b) ∷ []) (fresh_address addr l.count now l))) (λ _. inr (refl, refl))

on_get_moves :
    (now : ℕ) (p : LoopPhase) (o : Output) (l m : UdpListener)
    → IsValid l
    → on_get now p l ≡ some (o, m)
    → Moves (pending p l.sessions) [] o m
unfolding get_conn
on_get_moves now reading o l m v e = absurd (cc)
on_get_moves now (looking addr b) o l m v e =
    guard_elim (Moves ((addr, b) ∷ []) []) true _ o _ m e
      (λ h. find_moves addr b now (lookup addr l.conns) l (λ i f. (v.entry addr i f).1))
on_get_moves now (handing i c) o l m v e = absurd (cc)
on_get_moves now (offering i c) o l m v e = absurd (cc)
on_get_moves now ended o l m v e = absurd (cc)

on_accept_moves :
    (p : LoopPhase) (o : Output) (l m : UdpListener)
    → on_accept p l ≡ some (o, m)
    → Moves (pending p l.sessions) [] o m
unfolding accepted
on_accept_moves reading o l m e = absurd (cc)
on_accept_moves (looking addr b) o l m e = absurd (cc)
on_accept_moves (handing i b) o l m e =
    guard_elim (Moves (((l.sessions i).r_addr, b) ∷ []) []) (leb 10 l.timeout) _ o _ m e (λ h. inl (
      ap (λ a. (a, b) ∷ [])
        (write-Same i (record (l.sessions i) { running = true }) l.sessions refl i)))
on_accept_moves (offering i c) o l m e = absurd (cc)
on_accept_moves ended o l m e = absurd (cc)

on_receive_moves :
    (p : LoopPhase) (o : Output) (l m : UdpListener)
    → on_receive p l ≡ some (o, m)
    → Moves (pending p l.sessions) [] o m
unfolding received
on_receive_moves reading o l m e = absurd (cc)
on_receive_moves (looking addr b) o l m e = absurd (cc)
on_receive_moves (handing i b) o l m e = absurd (cc)
on_receive_moves (offering i b) o l m e =
    guard_elim (Moves (((l.sessions i).r_addr, b) ∷ []) []) _ _ o _ m e (λ h. inl refl)
on_receive_moves ended o l m e = absurd (cc)

on_refuse_moves :
    (p : LoopPhase) (o : Output) (l m : UdpListener)
    → on_refuse p l ≡ some (o, m)
    → Moves (pending p l.sessions) [] o m
on_refuse_moves reading o l m e = absurd (cc)
on_refuse_moves (looking addr b) o l m e = absurd (cc)
on_refuse_moves (handing i b) o l m e = absurd (cc)
on_refuse_moves (offering i b) o l m e =
    guard_elim (Moves (((l.sessions i).r_addr, b) ∷ []) []) _ _ o _ m e (λ h. inr (refl, refl))
on_refuse_moves ended o l m e = absurd (cc)

-- A step of another goroutine.
kept :
    (b : Bool) (q o : Output) (l n m : UdpListener)
    → guard b q n ≡ some (o, m)
    → taken_at q ≡ []
    → n.phase ≡ l.phase
    → Same l.sessions n.sessions
    → Moves (pending l.phase l.sessions) [] o m
kept b q o l n m e quiet p s = guard_elim (Moves (pending l.phase l.sessions) []) b q o n m e (λ h.
    inl (
      pending-Same l.phase l.sessions n.sessions s
      ∙ ap (λ x. pending x n.sessions) (sym p)
      ∙ ap (λ x. x ++ pending n.phase n.sessions) (sym quiet)))

on_read_moves :
    (i size : ℕ) (msgs : List Str) (o : Output) (l m : UdpListener)
    → on_read i size msgs l ≡ some (o, m)
    → Moves (pending l.phase l.sessions) [] o m
on_read_moves i size [] o l m e = absurd (cc)
on_read_moves i size (b ∷ msgs) o l m e =
    kept _ _ o l _ m e refl refl
      (write-Same i (record (l.sessions i) { msgs = msgs }) l.sessions refl)

shutdown_phase : (grace now : ℕ) (l : UdpListener) → (shutdown grace now l).phase ≡ l.phase
unfolding shutdown
shutdown_phase grace now l =
    if_elim (λ (n : UdpListener). n.phase ≡ l.phase) l.accepting (λ _. refl) (λ _. refl)

shutdown-Same : (grace now : ℕ) (l : UdpListener) → Same l.sessions (shutdown grace now l).sessions
unfolding shutdown
shutdown-Same grace now l =
    if_elim (λ (n : UdpListener). Same l.sessions n.sessions) l.accepting (λ _ j. refl)
      (λ _ j. refl)

pub act_moves :
    (e : Event) (o : Output) (l m : UdpListener)
    → act e l ≡ some (o, m)
    → IsValid l
    → Moves (pending l.phase l.sessions) (heard_at e) o m
unfolding act touch close_conn expire forget close
act_moves (Event.read_from addr b) o l m e v = on_read_from_moves addr b l.phase o l m e
act_moves Event.read_failed o l m e v = on_failure_moves l.phase o l m e
act_moves (Event.get now) o l m e v = on_get_moves now l.phase o l m v e
act_moves Event.accept o l m e v = on_accept_moves l.phase o l m e
act_moves Event.accept_closed o l m e v = kept _ _ o l l m e refl refl (λ j. refl)
act_moves Event.receive o l m e v = on_receive_moves l.phase o l m e
act_moves Event.refuse o l m e v = on_refuse_moves l.phase o l m e
act_moves (Event.read i size) o l m e v = on_read_moves i size (l.sessions i).msgs o l m e
act_moves (Event.read_eof i) o l m e v = kept _ _ o l l m e refl refl (λ j. refl)
act_moves (Event.touched i now) o l m e v =
    kept _ _ o l _ m e refl refl
      (write-Same i (record (l.sessions i) { last_activity = now }) l.sessions refl)
act_moves (Event.close_done i) o l m e v =
    kept _ _ o l _ m e refl refl
      (write-Same i (record (l.sessions i) { done = true }) l.sessions refl)
act_moves (Event.close_forget i) o l m e v = kept _ _ o l _ m e refl refl (λ j. refl)
act_moves (Event.tick i now) o l m e v =
    kept _ _ o l _ m e refl refl
      (write-Same i (record (l.sessions i) { done = true; running = false }) l.sessions refl)
act_moves (Event.shut grace now) o l m e v =
    kept _ _ o l _ m e refl (shutdown_phase grace now l) (shutdown-Same grace now l)
act_moves (Event.shut_close now) o l m e v =
    kept _ _ o l _ m e refl refl (λ j. sym (close_all_lem l.conns l.sessions j).0)

-- ===== src/UdpConn/Validity.antt =====
-- net/proxy/udp_conn.go: what holds of a listener between any two steps.
use go_example.Prelude.{
  ℕ, suc, ◌≤◌, ◌<◌, Bool, true, false, Option, none, some, List, [], ◌∷◌, ◌≡◌, refl, ap, arith,
  if_elim,
}
use go_example.Prelude.Dict.{Str, lookup, insert, delete, lookup-insert, lookup-delete, str_eq_iff}
use go_example.UdpConn.{
  UdpConn, UdpListener, LoopPhase, reading, looking, handing, offering, ended, find_conn, new_conn,
  write, with_conn, close_all, forget, shutdown, is_over, close, is_unlocked,
}

-- What a phase needs of `accepting` and of the number of sessions.
abbrev pub PhaseOk : LoopPhase → Bool → ℕ → Type 0
PhaseOk reading acc n = Unit
PhaseOk (looking a b) acc n = Unit
PhaseOk (handing i b) acc n = (acc ≡ true) × (i < n)
PhaseOk (offering i b) acc n = i < n
PhaseOk ended acc n = Unit

-- An entry of the map leads to a session with its address; the sessions that are not made yet have
-- nothing; from `Shutdown` on there are no new ones, and from `close` on no entries.
pub record IsValid (l : UdpListener) : Type 0 where
  pub in_phase : PhaseOk l.phase l.accepting l.count
  pub entry :
      (a : Str) (i : ℕ) → lookup a l.conns ≡ some i → (i < l.count) × ((l.sessions i).r_addr ≡ a)
  pub running : (i : ℕ) → (l.sessions i).running ≡ true → i < l.count
  pub blank : (i : ℕ) → l.count ≤ i → (l.sessions i).msgs ≡ []
  pub ending : (t : ℕ) → l.shutdown_end ≡ some t → l.accepting ≡ false
  pub closed : l.closed ≡ true → (l.accepting ≡ false) × (l.conns ≡ [])

-- The fields of a session that its closing leaves alone.
pub close_all_lem :
    (m : List (Str × ℕ)) (f : ℕ → UdpConn) (j : ℕ)
    → ((close_all m f j).r_addr ≡ (f j).r_addr)
      × ((close_all m f j).msgs ≡ (f j).msgs)
      × ((close_all m f j).running ≡ (f j).running)
close_all_lem [] f j = (refl, refl, refl)
close_all_lem ((a, i) ∷ m) f j =
    ground (arith, close_all_lem m (write i (record (f i) { done = true }) f) j)

-- A write to a session that is there and keeps its address.
pub with_conn-IsValid :
    (i : ℕ) (c : UdpConn) (l : UdpListener)
    → i < l.count
    → c.r_addr ≡ (l.sessions i).r_addr
    → IsValid l
    → IsValid (with_conn i c l)
with_conn-IsValid i c l h e v = record {
  in_phase = v.in_phase;
  entry = λ a j found. ground (arith, v.entry a j found, h, e);
  running = λ j r. ground (arith, v.running j, h, r);
  blank = λ j big. ground (arith, v.blank j big, h);
  ending = v.ending;
  closed = v.closed;
}

-- A change of the phase alone.
pub phase-IsValid :
    (p : LoopPhase) (l : UdpListener)
    → PhaseOk p l.accepting l.count
    → IsValid l
    → IsValid (record l { phase = p })
phase-IsValid p l ok v = record {
  in_phase = ok;
  entry = v.entry;
  running = v.running;
  blank = v.blank;
  ending = v.ending;
  closed = v.closed;
}

grown : (p : LoopPhase) (a : Bool) (n : ℕ) → PhaseOk p a n → PhaseOk p a (suc n)
grown reading a n ok = tt
grown (looking c b) a n ok = tt
grown (handing i b) a n ok = (ok.0, omega (arith, ok.1))
grown (offering i b) a n ok = omega (arith, ok)
grown ended a n ok = tt

-- Without the lock the phase does not depend on `accepting`.
unlocked :
    (p : LoopPhase) (a b : Bool) (n : ℕ) → is_unlocked p ≡ true → PhaseOk p a n → PhaseOk p b n
unlocked reading a b n u ok = tt
unlocked (looking c d) a b n u ok = tt
unlocked (handing i d) a b n u ok = absurd (cc)
unlocked (offering i d) a b n u ok = ok
unlocked ended a b n u ok = tt

new_entry :
    (addr a : Str) (i : ℕ) (now : ℕ) (l : UdpListener)
    → IsValid l
    → lookup a (insert addr l.count l.conns) ≡ some i
    → (i < suc l.count) × ((write l.count (new_conn l addr now) l.sessions i).r_addr ≡ a)
new_entry addr a i now l v e =
    ground (arith, lookup-insert addr a l.count l.conns, v.entry a i, str_eq_iff addr a, e)

pub find_conn-IsValid :
    (addr b : Str) (now : ℕ) (o : Option ℕ) (l : UdpListener)
    → lookup addr l.conns ≡ o
    → IsValid l
    → IsValid (find_conn addr b now o l)
unfolding find_conn
find_conn-IsValid addr b now (some i) l e v = phase-IsValid (offering i b) l (v.entry addr i e).0 v
find_conn-IsValid addr b now none l e v =
    if_elim IsValid l.accepting
      (λ acc. record {
        in_phase = (acc, omega arith);
        entry = λ a i f. new_entry addr a i now l v f;
        running = λ i r. ground (arith, v.running i, r);
        blank = λ i big. ground (arith, v.blank i, big);
        ending = v.ending;
        closed = λ c. absurd (ground (arith, v.closed c, acc));
      })
      (λ _. phase-IsValid reading l tt v)

pub forget-IsValid : (i : ℕ) (l : UdpListener) → IsValid l → IsValid (forget i l)
unfolding forget delete
forget-IsValid i l v = record {
  in_phase = v.in_phase;
  entry = λ a j e. ground (arith, lookup-delete (l.sessions i).r_addr a l.conns, v.entry a j, e);
  running = v.running;
  blank = v.blank;
  ending = v.ending;
  closed = λ c. ((v.closed c).0, ap (λ m. delete (l.sessions i).r_addr m) (v.closed c).1);
}

pub shutdown-IsValid :
    (grace now : ℕ) (l : UdpListener)
    → is_unlocked l.phase ≡ true
    → IsValid l
    → IsValid (shutdown grace now l)
unfolding shutdown
shutdown-IsValid grace now l u v =
    if_elim IsValid l.accepting
      (λ acc. record {
        in_phase = unlocked l.phase l.accepting false l.count u v.in_phase;
        entry = v.entry;
        running = v.running;
        blank = v.blank;
        ending = λ t e. refl;
        closed = λ c. (refl, (v.closed c).1);
      })
      (λ _. v)

over_lem :
    (now : ℕ) (o : Option ℕ) (m : List (Str × ℕ)) → is_over now o m ≡ true → (t : ℕ) × (o ≡ some t)
unfolding is_over
over_lem now none m h = absurd (cc)
over_lem now (some t) m h = (t, refl)

pub close-IsValid :
    (now : ℕ) (l : UdpListener)
    → is_over now l.shutdown_end l.conns ≡ true
    → IsValid l
    → IsValid (close l)
unfolding close lookup
close-IsValid now l over v =
    let (t, e) = over_lem now l.shutdown_end l.conns over in
    record {
      in_phase = v.in_phase;
      entry = λ a i f. absurd (cc);
      running = λ i r. ground (arith, close_all_lem l.conns l.sessions i, v.running i, r);
      blank = λ i big. ground (arith, close_all_lem l.conns l.sessions i, v.blank i big);
      ending = λ s f. absurd (cc);
      closed = λ c. (v.ending t e, refl);
    }

-- ===== src/UdpConn/Delivery.antt =====
-- net/proxy/udp_conn.go: the way of a datagram from the packet conn to a session.
use go_example.Prelude.{
  ℕ, zero, suc, some, List, [], ◌∷◌, ◌++◌, ◌≡◌, refl, sym, ap, ◌∙◌, inl, inr, some_inj,
  append_assoc,
}
use mathlib.Core.Path.{subst}
use mathlib.Core.List.{Sublistᴰ, Sublist}
use go_example.UdpConn.{UdpListener, listen_udp_packet_conn}
use go_example.UdpConn.Steps.{Event, Output, Run, finished, step}
use go_example.UdpConn.Validity.{IsValid}
use go_example.UdpConn.Reachable.{act-IsValid, listen-IsValid}
use go_example.UdpConn.Moves.{Datagrams, heard_at, taken_at, pending, Moves, act_moves}

-- What steps read from the packet conn.
unfoldable pub heard : List Event → Datagrams
heard [] = []
heard (e ∷ es) = heard_at e ++ heard es

-- What the sessions receive in steps.
unfoldable pub taken : List Output → Datagrams
taken [] = []
taken (o ∷ os) = taken_at o ++ taken os

module _ {ℓ} {A : Type ℓ} where
  both : (p : List A) {a b : List A} → Sublistᴰ a b → Sublistᴰ (p ++ a) (p ++ b)
  both [] s = s
  both (x ∷ p) s = Sublistᴰ.cons-cons refl (both p s)

  skip : (p : List A) {a b : List A} → Sublistᴰ a b → Sublistᴰ a (p ++ b)
  skip [] s = s
  skip (x ∷ p) s = Sublistᴰ.cons (skip p s)

moved :
    (before new rest tail : Datagrams) (o : Output) (m : UdpListener)
    → Moves before new o m
    → Sublistᴰ tail (pending m.phase m.sessions ++ rest)
    → Sublistᴰ (taken_at o ++ tail) (before ++ (new ++ rest))
moved before new rest tail o m (inl e) s =
    subst (Sublistᴰ (taken_at o ++ tail))
      (sym (append_assoc (taken_at o) (pending m.phase m.sessions) rest)
        ∙ ap (λ x. x ++ rest) (sym e)
        ∙ append_assoc before new rest)
      (both (taken_at o) s)
moved before new rest tail o m (inr (quiet, gone)) s =
    subst (λ x. Sublistᴰ (x ++ tail) (before ++ (new ++ rest))) (sym quiet)
      (skip before (skip new (subst (λ x. Sublistᴰ tail (x ++ rest)) gone s)))

run-taken :
    {l m : UdpListener} {es : List Event} {os : List Output}
    → Run l es os m
    → IsValid l
    → Sublistᴰ (taken os) (pending l.phase l.sessions ++ heard es)
unfolding heard taken
run-taken (finished {l = l}) v = skip (pending l.phase l.sessions) Sublistᴰ.slnil
run-taken (step {l = l} {m = m} {e = e} {o = o} {es = es} {os = os} h r) v =
    moved (pending l.phase l.sessions) (heard_at e) (heard es) (taken os) o m
      (act_moves e o l m h v) (run-taken r (act-IsValid e o l m h v))

listen_phase :
    (timeout : ℕ) (l : UdpListener)
    → listen_udp_packet_conn timeout ≡ some l
    → pending l.phase l.sessions ≡ []
unfolding listen_udp_packet_conn
listen_phase zero l e = absurd (cc)
listen_phase (suc t) l e = ap (λ (n : UdpListener). pending n.phase n.sessions) (sym (some_inj e))

-- Whatever the goroutines do after the start of a listener, the datagrams that sessions receive, each
-- with the address of its session, are among those read from the packet conn, each with the address
-- that it came from, in the same order.
pub run-taken_started :
    (timeout : ℕ) {l m : UdpListener} {es : List Event} {os : List Output}
    → listen_udp_packet_conn timeout ≡ some l
    → Run l es os m
    → Sublist (taken os) (heard es)
run-taken_started timeout {l} {es = es} {os = os} e r =
    ∣ subst (λ x. Sublistᴰ (taken os) (x ++ heard es)) (listen_phase timeout l e)
      (run-taken r (listen-IsValid timeout l e)) ∣₁

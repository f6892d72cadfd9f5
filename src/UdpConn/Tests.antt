-- ===== src/UdpConn/Tests.antt =====
-- Runs of the listener of net/proxy/udp_conn.go, and the witnesses of its theorems.
use go_example.Prelude.{◌<◌, true, false, none, some, List, [], ◌∷◌, ◌++◌, ◌≡◌, refl}
use mathlib.Core.List.{Sublist}
use go_example.Prelude.Dict.{lookup, insert, delete, str_eq}
use go_example.UdpConn.{
  UdpListener, LoopPhase, reading, handing, no_conn, write, listen_udp_packet_conn, find_conn,
  get_conn, new_conn, accepted, received, with_conn, forget, shutdown, close, is_over, expire,
  close_conn,
}
use go_example.UdpConn.Steps.{
  Event, read_from, get, accept, receive, read, close_done, close_forget, shut, shut_close, Output,
  silent, got_conn, took, returned, Run, finished, step, act,
}
use go_example.UdpConn.Validity.{IsValid}
use go_example.UdpConn.Reachable.{run-IsValid}
use go_example.UdpConn.Delivery.{taken, heard, run-taken_started}
use go_example.UdpConn.Queue.{all_taken_by, all_returned_by, run-queues_started}
use go_example.UdpConn.Closing.{Waits, run-Waits, run-grace}

abbrev idle : UdpListener
idle = record {
  conns = [];
  sessions = λ i. no_conn;
  count = 0;
  accepting = true;
  timeout = 100;
  phase = reading;
  shutdown_end = none;
  closed = false;
}

idle-listen : listen_udp_packet_conn 100 ≡ some idle
unfolding listen_udp_packet_conn
idle-listen = refl

-- The address 1 sends the datagram 7, 8, 9.
abbrev asked : UdpListener
asked = record idle { phase = LoopPhase.looking (1 ∷ []) (7 ∷ 8 ∷ 9 ∷ []) }

abbrev held : UdpListener
held = record asked {
  conns = (1 ∷ [], 0) ∷ [];
  sessions = write 0 (new_conn idle (1 ∷ []) 5) idle.sessions;
  count = 1;
  phase = handing 0 (7 ∷ 8 ∷ 9 ∷ []);
}

abbrev accepted_one : UdpListener
accepted_one = accepted 0 (7 ∷ 8 ∷ 9 ∷ []) held

abbrev filled : UdpListener
filled = received 0 (7 ∷ 8 ∷ 9 ∷ []) accepted_one

abbrev first_events : List Event
first_events = read_from (1 ∷ []) (7 ∷ 8 ∷ 9 ∷ []) ∷ get 5 ∷ accept ∷ receive ∷ []

abbrev first_outputs : List Output
first_outputs = silent ∷ silent ∷ got_conn 0 ∷ took 0 (1 ∷ []) (7 ∷ 8 ∷ 9 ∷ []) ∷ []

one_datagram : Run idle first_events first_outputs filled
unfolding act get_conn find_conn lookup insert accepted received
one_datagram =
    step {m = asked} refl
      (step {m = held} refl (step {m = accepted_one} refl (step {m = filled} refl finished)))

run-IsValid_example : IsValid filled
run-IsValid_example = run-IsValid 100 idle-listen one_datagram

run-taken_started_example : Sublist (taken first_outputs) (heard first_events)
run-taken_started_example = run-taken_started 100 idle-listen one_datagram

run-queues_started_example :
    all_taken_by 0 first_outputs ≡ all_returned_by 0 first_outputs ++ (filled.sessions 0).msgs
run-queues_started_example = run-queues_started 100 0 idle-listen one_datagram

-- `Read` into two bytes returns two, and the third is lost.
short_read :
    act (read 0 2) filled
    ≡ some (
      returned 0 (7 ∷ 8 ∷ 9 ∷ []) 2,
      with_conn 0 (record (filled.sessions 0) { msgs = [] }) filled,
    )
unfolding act received accepted
short_read = refl

closed_first : Run held (close_done 0 ∷ []) (silent ∷ []) (close_conn 0 held)
unfolding act
closed_first = step {m = close_conn 0 held} refl finished

run-Waits_example : Waits 0 (7 ∷ 8 ∷ 9 ∷ []) (close_conn 0 held)
run-Waits_example = run-Waits 0 (7 ∷ 8 ∷ 9 ∷ []) (refl, refl, refl) (refl, tt) closed_first

abbrev in_shutdown : UdpListener
in_shutdown = shutdown 20 10 filled

shut_ok : act (shut 20 10) filled ≡ some (silent, in_shutdown)
unfolding act received
shut_ok = refl

close_ok : act (shut_close 31) in_shutdown ≡ some (silent, close in_shutdown)
unfolding act shutdown received is_over accepted
close_ok = refl

found_ok : lookup (1 ∷ []) in_shutdown.conns ≡ some 0
unfolding lookup shutdown received accepted str_eq
found_ok = refl

accepting_ok : filled.accepting ≡ true
unfolding received accepted
accepting_ok = refl

run-grace_example : 30 < 31
run-grace_example =
    run-grace 20 10 31 (1 ∷ []) 0 silent silent filled in_shutdown in_shutdown (close in_shutdown)
      accepting_ok shut_ok finished close_ok found_ok

-- Two sessions of one address: the first was closed, the second came after.
abbrev replaced : UdpListener
replaced = record idle {
  conns = (1 ∷ [], 1) ∷ [];
  sessions =
      write 0 (record no_conn { r_addr = 1 ∷ []; done = true; running = true })
        (write 1 (record no_conn { r_addr = 1 ∷ []; running = true }) idle.sessions);
  count = 2;
}

-- The tick of the first ends with a `Close`, which takes the second off the map.
stale_close :
    act (close_forget 0) (expire 0 replaced)
    ≡ some (silent, record (expire 0 replaced) { conns = [] })
unfolding act expire forget delete str_eq
stale_close = refl

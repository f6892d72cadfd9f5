-- ===== src/WriteBehind/Tests.antt =====
-- Runs of the write-behind strategy of go_cache_strategy over a table of users, and the witnesses
-- of its theorems.
use go_example.Prelude.{
  Bool, true, false, Option, none, some, List, [], ◌∷◌, ◌++◌, ◌≡◌, refl, arith,
}
use go_example.Prelude.Dict.{Str, insert, lookup, lookup-insert}
use go_example.Prelude.Int.{pos}
use go_example.Strategies.{User, Fetched, found, missing, Database, Cache}
use go_example.WriteBehind.{
  Config, new, Event, update, receive, tick, shut_down, drain, stop, run, finished, turn, accepted,
  update_user, collect, receive_from, tick_worker, begin_drain, drain_from, flush_batch_to_db,
  size_or,
}
use go_example.WriteBehind.Bounds.{IsBounded}
use go_example.WriteBehind.Conserved.{Records, all_of, run-all_of}
use go_example.WriteBehind.Outlook.{Bulk, newest}
use go_example.WriteBehind.Delivery.{prompt, run-newest}

abbrev Table : Type 0
Table = List (Str × User)

abbrev row : Option User → Fetched User
row none = missing
row (some u) = found u

unfoldable put_all : List User → Table → Table
put_all [] d = d
put_all (u ∷ us) d = put_all us (insert u.id u d)

abbrev bulk : Bool → Table → List User → Option Table
bulk true d us = none
bulk false d us = some (put_all us d)

abbrev table : Database Table
table = record {
  get_user = λ d id. row (lookup id d);
  update_user = λ d u. none;
  bulk_update_users = bulk;
  insert_log_entry = λ d entry. none;
  get_log_by_id = λ d id. missing;
}

put_all_lem :
    (us : List User) (d : Table) (id : Str)
    → row (lookup id (put_all us d)) ≡ newest us id (row (lookup id d))
unfolding put_all newest
put_all_lem [] d id = refl
put_all_lem (u ∷ us) d id =
    ground (arith, put_all_lem us (insert u.id u d) id, lookup-insert u.id id u d)

table-Bulk : Bulk table
table-Bulk d us = (put_all us d, refl, put_all_lem us d)

abbrev ann : User
ann = record { id = b'a' ∷ []; name = b'A' ∷ [] }

abbrev anna : User
anna = record { id = b'a' ∷ []; name = b'A' ∷ b'a' ∷ [] }

abbrev bob : User
bob = record { id = b'b' ∷ []; name = b'B' ∷ [] }

abbrev no_cache : Cache
no_cache = record { items = []; cleaning = false; stopped = false }

abbrev small : Config Table
small = record {
  cache = no_cache;
  db = [];
  key_prefix = [];
  ttl = pos 60;
  queue_size = pos 2;
  batch_size = pos 2;
  interval = pos 0;
}

-- Two updates of one user around another's; a fourth finds the queue full.
abbrev events : List Event
events =
    update (pos 0) ann
    ∷ receive
    ∷ update (pos 1) bob
    ∷ update (pos 2) anna
    ∷ update (pos 3) bob
    ∷ stop
    ∷ shut_down
    ∷ drain
    ∷ drain
    ∷ drain
    ∷ []

run-events : (run table events (new small)).0.mode ≡ finished
unfolding run turn accepted update_user receive_from collect tick_worker begin_drain drain_from new
    size_or
run-events = refl

-- The ticker fires after `Stop` has cancelled the context and before the worker looks at it: the
-- update was accepted and is lost.
abbrev late_tick : List Event
late_tick = update (pos 0) ann ∷ receive ∷ stop ∷ tick ∷ shut_down ∷ drain ∷ []

late_tick_loses :
    ((run table late_tick (new small)).0.mode ≡ finished)
    × ((run table late_tick (new small)).1 ≡ ann ∷ [])
    × ((run table late_tick (new small)).0.db ≡ [])
unfolding run turn accepted update_user receive_from collect tick_worker begin_drain drain_from new
    size_or flush_batch_to_db
late_tick_loses = (refl, refl, refl)

-- A database that keeps the users in the order in which they are written.
abbrev recorder : Database (List User)
recorder = record {
  get_user = λ d id. missing;
  update_user = λ d u. none;
  bulk_update_users = λ cancelled d us. some (d ++ us);
  insert_log_entry = λ d entry. none;
  get_log_by_id = λ d id. missing;
}

abbrev recording : Config (List User)
recording = record {
  cache = no_cache;
  db = [];
  key_prefix = [];
  ttl = pos 60;
  queue_size = pos 2;
  batch_size = pos 2;
  interval = pos 0;
}

abbrev open_events : List Event
open_events =
    update (pos 0) ann ∷ receive ∷ update (pos 1) bob ∷ receive ∷ update (pos 2) anna ∷ receive ∷ []

recorder-Records : Records recorder (λ d. d)
recorder-Records d us = (d ++ us, refl, refl)

run-all_of_example :
    (all_of recorder (λ d. d) (run recorder open_events (new recording)).0
      ≡ (run recorder open_events (new recording)).1)
    × IsBounded recorder (run recorder open_events (new recording)).0
run-all_of_example =
    run-all_of recorder (λ d. d) recorder-Records recording open_events
      (
        (λ e. absurd (cc)),
        (
          (λ e. absurd (cc)),
          (
            (λ e. absurd (cc)),
            ((λ e. absurd (cc)), ((λ e. absurd (cc)), ((λ e. absurd (cc)), tt))),
          ),
        ),
      )

run-newest_example :
    table.get_user (run table events (new small)).0.db (b'a' ∷ [])
    ≡ newest (run table events (new small)).1 (b'a' ∷ []) missing
unfolding run turn accepted update_user receive_from collect tick_worker begin_drain drain_from new
    size_or prompt lookup
run-newest_example = run-newest table table-Bulk small events refl refl refl (b'a' ∷ [])

-- ===== src/WriteBehind.antt =====
-- go_cache_strategy/strategy/writebehind/wirtebehind.go: updates go to the cache and into a queue,
-- from which one worker writes them to the database in batches. An event is one call of a client,
-- or one turn of the worker: a case of its `select`, or a turn of its loop that drains the queue.
pub mod Bounds
pub mod Conserved
pub mod Outlook
pub mod Delivery
mod Tests
use go_example.Prelude.{
  ℕ, Bool, true, false, Option, none, some, List, [], ◌∷◌, ◌++◌, length, ltb, leb, ◌==◌,
  if◌then◌else◌,
}
use go_example.Prelude.Dict.{Str}
use go_example.Prelude.Int.{ℤ, pos, negsuc, ltb_ℤ}
use go_example.TtlCache
use go_example.Strategies.{User, Database, user, Cache}

abbrev pub default_queue_size : ℕ
default_queue_size = 100

abbrev pub default_batch_size : ℕ
default_batch_size = 10

-- Two seconds.
abbrev pub default_interval : ℤ
default_interval = pos 2000000000

-- Where the worker is: in its first loop, in the loop that drains the queue, or at its end.
pub data Mode : Type 0 where
  listening : Mode
  draining : Mode
  finished : Mode

pub record Config (D : Type 0) : Type 0 where
  pub cache : Cache
  pub db : D
  pub key_prefix : Str
  pub ttl : ℤ
  pub queue_size : ℤ
  pub batch_size : ℤ
  pub interval : ℤ

-- `Strategy`, with the worker's local `batch`; `cancelled` is the state of `cancelCtx`.
pub record Strategy (D : Type 0) : Type 0 where
  pub cache : Cache
  pub db : D
  pub update_queue : List User
  pub queue_size : ℕ
  pub cancelled : Bool
  pub key_prefix : Str
  pub ttl : ℤ
  pub batch_size : ℕ
  pub interval : ℤ
  pub batch : List User
  pub mode : Mode

-- A size of a configuration, or the default where it is not positive.
unfoldable pub size_or : ℤ → ℕ → ℕ
size_or (pos n) d = if n == 0 then d else n
size_or (negsuc n) d = d

pub data Event : Type 0 where
  update : ℤ → User → Event
  receive : Event
  tick : Event
  shut_down : Event
  drain : Event
  stop : Event

module _ {D : Type 0} where
  unfoldable pub new : Config D → Strategy D
  new cfg = record {
    cache = cfg.cache;
    db = cfg.db;
    update_queue = [];
    queue_size = size_or cfg.queue_size default_queue_size;
    cancelled = false;
    key_prefix = cfg.key_prefix;
    ttl = cfg.ttl;
    batch_size = size_or cfg.batch_size default_batch_size;
    interval = if ltb_ℤ (pos 0) cfg.interval then cfg.interval else default_interval;
    batch = [];
    mode = listening;
  }

  -- `UpdateUser`: the result tells whether the queue took the user.
  unfoldable pub update_user : ℤ → User → Strategy D → Strategy D × Bool
  update_user now u s =
      let cached = record s {
        cache = TtlCache.set now (s.key_prefix ++ u.id) (user (some u)) s.ttl s.cache;
      } in
      if ltb (length s.update_queue) s.queue_size
      then (record cached { update_queue = s.update_queue ++ (u ∷ []) }, true)
      else (cached, false)

module _ {D : Type 0} (db : Database D) where
  -- The database after a write that may fail.
  abbrev pub kept : D → Option D → D
  kept d none = d
  kept d (some d') = d'

  -- The context of the write is cancelled, or not.
  unfoldable pub flush_batch_to_db : Bool → List User → D → D
  flush_batch_to_db cancelled [] d = d
  flush_batch_to_db cancelled (u ∷ batch) d = kept d (db.bulk_update_users cancelled d (u ∷ batch))

  -- A user from the queue joins the batch, which is written where it is full.
  unfoldable pub collect : Bool → User → Strategy D → Strategy D
  collect cancelled u s =
      let batch = s.batch ++ (u ∷ []) in
      if leb s.batch_size (length batch)
      then record s { db = flush_batch_to_db cancelled batch s.db; batch = [] }
      else record s { batch = batch }

  -- `case user, ok := <-s.updateQueue`; nothing closes the queue.
  unfoldable pub receive_from : List User → Strategy D → Strategy D
  receive_from [] s = s
  receive_from (u ∷ queue) s = collect s.cancelled u (record s { update_queue = queue })

  -- `case <-ticker.C`; an empty batch is not written.
  unfoldable pub tick_worker : Strategy D → Strategy D
  tick_worker s = record s { db = flush_batch_to_db s.cancelled s.batch s.db; batch = [] }

  -- `case <-s.cancelCtx.Done()`, up to the loop that drains the queue.
  unfoldable pub begin_drain : Strategy D → Strategy D
  begin_drain s =
      if s.cancelled
      then record s { db = flush_batch_to_db false s.batch s.db; mode = draining }
      else s

  -- A turn of the loop that drains the queue; the last one is the final flush.
  unfoldable pub drain_from : List User → Strategy D → Strategy D
  drain_from [] s = record s { db = flush_batch_to_db false s.batch s.db; mode = finished }
  drain_from (u ∷ queue) s = collect false u (record s { update_queue = queue })

  -- The worker's turn for an event, where it is.
  unfoldable pub turn : Event → Mode → Strategy D → Strategy D
  turn receive listening s = receive_from s.update_queue s
  turn tick listening s = tick_worker s
  turn shut_down listening s = begin_drain s
  turn drain draining s = drain_from s.update_queue s
  turn (update now u) m s = (update_user now u s).0
  -- `Stop` cancels the context; its wait is for the mode `finished`.
  turn stop m s = record s { cancelled = true }
  turn receive draining s = s
  turn receive finished s = s
  turn tick draining s = s
  turn tick finished s = s
  turn shut_down draining s = s
  turn shut_down finished s = s
  turn drain listening s = s
  turn drain finished s = s

  -- The users that the event puts into the queue.
  unfoldable pub accepted : Event → Strategy D → List User
  accepted (update now u) s = if (update_user now u s).1 then u ∷ [] else []
  accepted receive s = []
  accepted tick s = []
  accepted shut_down s = []
  accepted drain s = []
  accepted stop s = []

  -- A sequence of events: the last state, and the users that were accepted.
  unfoldable pub run : List Event → Strategy D → Strategy D × List User
  run [] s = (s, [])
  run (e ∷ es) s = let rest = run es (turn e s.mode s) in (rest.0, accepted e s ++ rest.1)

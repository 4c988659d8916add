-- ===== src/Web/EventQueue.antt =====
-- The buffer of analytics events, webapp/core/event_queue.py: `EventQueue` with its flusher task, and
-- the table `resume_events` that it fills.
--
-- The event loop runs one thing at a time: rows arrive between the flusher's awaits. What a write
-- or an opened connection comes to is an argument.
pub mod Order
pub mod Accounts
use vakant.Prelude.{
  ℕ, ◌+◌, Bool, true, false, not, ◌||◌, Option, none, some, List, [], ◌∷◌, ◌++◌, leb, length,
  if◌then◌else◌, max, ◌≡◌,
}
use vakant.Prelude.Text.{Text}

-- `EventRow`
pub record EventRow : Type 0 where
  pub user_id : ℕ
  pub event_name : Text
  pub step : Option Text
  pub meta_json : Option Text
  pub created_at : ℕ

-- `EventQueue`: `wakeup` is the event that the flusher waits for, and whether it is set.
pub record EventQueue : Type 0 where
  pub buffer : List EventRow
  pub max_size : ℕ
  pub batch_size : ℕ
  pub wakeup : Option Bool
  pub running : Bool
  pub stopping : Bool
  pub dropped : ℕ
  pub written : ℕ

-- The queue and the committed rows of `resume_events`.
pub record Api : Type 0 where
  pub queue : EventQueue
  pub table : List EventRow

-- `__init__`
abbrev pub new_queue : ℕ → ℕ → EventQueue
new_queue max_size batch_size = record {
  buffer = [];
  max_size = max 1 max_size;
  batch_size = max 1 batch_size;
  wakeup = none;
  running = false;
  stopping = false;
  dropped = 0;
  written = 0;
}

-- The queue of a process that starts, on an empty table.
abbrev pub new_api : ℕ → ℕ → Api
new_api max_size batch_size = record { queue = new_queue max_size batch_size; table = [] }

abbrev pub is_empty : List EventRow → Bool
is_empty [] = true
is_empty (r ∷ rs) = false

-- `self._wakeup.set()`, if there is one
abbrev pub set_wakeup : Option Bool → Option Bool
set_wakeup none = none
set_wakeup (some b) = some true

-- The row is appended; a full batch wakes the flusher.
abbrev pub append_row : EventRow → EventQueue → EventQueue
append_row r q =
    let rows = q.buffer ++ (r ∷ []) in
    record q {
      buffer = rows;
      wakeup = if leb q.batch_size (length rows) then set_wakeup q.wakeup else q.wakeup;
    }

-- `enqueue`: false if the row was dropped
abbrev pub enqueue : EventRow → EventQueue → Bool × EventQueue
enqueue r q =
    if leb q.max_size (length q.buffer)
    then (false, record q { dropped = q.dropped + 1 })
    else (true, append_row r q)

abbrev pub with_queue : (EventQueue → EventQueue) → Api → Api
with_queue f a = record a { queue = f a.queue }

-- Rows that arrive one after the other.
unfoldable pub arrive : List EventRow → Api → Api
arrive [] a = a
arrive (r ∷ rs) a = arrive rs (with_queue (λ q. (enqueue r q).1) a)

-- How the write of a batch ends: committed, with an exception and rolled back, or the flusher is
-- cancelled in it, after the commit or before.
pub data Insert : Type 0 where
  inserted failed : Insert
  cut_off : Bool → Insert

abbrev pub settle_rows : Insert → List EventRow → Api → Api
settle_rows inserted rows a = record a {
  queue = record a.queue { written = a.queue.written + length rows };
  table = a.table ++ rows;
}
settle_rows failed rows a = with_queue (λ q. record q { dropped = q.dropped + length rows }) a
settle_rows (cut_off true) rows a = record a { table = a.table ++ rows }
settle_rows (cut_off false) rows a = a

abbrev pub taken : Api → Api
taken a = with_queue (λ q. record q { buffer = [] }) a

-- `flush` on an open connection: it takes every row, others arrive during the write
abbrev pub flush : Insert → List EventRow → Api → Api
flush ins meanwhile a =
    if is_empty a.queue.buffer
    then arrive meanwhile a
    else settle_rows ins a.queue.buffer (arrive meanwhile (taken a))

-- What happens in a round of the flusher: the rows that arrive before it wakes, whether its
-- connection is open, the write, and the rows that arrive during it.
pub record Round : Type 0 where
  pub arrived : List EventRow
  pub opened : Bool
  pub write : Insert
  pub meanwhile : List EventRow

abbrev pub clear_wakeup : EventQueue → EventQueue
clear_wakeup q = record q { wakeup = elim q.wakeup [ none ↦ none | some b ↦ some false ] }

-- A round of `_run`: without a connection, the rows stay in the buffer
abbrev pub run_round : Round → Api → Api
run_round r a =
    let woken = with_queue clear_wakeup (arrive r.arrived a) in
    if r.opened then flush r.write r.meanwhile woken else arrive r.meanwhile woken

unfoldable pub run_rounds : List Round → Api → Api
run_rounds [] a = a
run_rounds (r ∷ rs) a = run_rounds rs (run_round r a)

-- `start`
abbrev pub start : Api → Api
start a =
    if a.queue.running
    then a
    else with_queue (λ q. record q { running = true; stopping = false; wakeup = some false }) a

-- The last flush, on a connection of its own: the rows are taken before it is opened, and are lost
-- if it cannot be.
abbrev pub last_flush : Round → Api → Api
last_flush r a =
    let a' = arrive r.arrived a in
    if r.opened || is_empty a'.queue.buffer
    then flush r.write r.meanwhile a'
    else arrive r.meanwhile (taken a')

-- `stop`: the flusher may make some rounds until the time is up, then the rest is flushed
abbrev pub stop : List Round → Round → Api → Api
stop rounds r a =
    let asked = with_queue (λ q. record q { stopping = true; wakeup = set_wakeup q.wakeup }) a in
    let drained = run_rounds rounds asked in
    last_flush r (with_queue (λ q. record q { running = false; wakeup = none }) drained)

-- What may happen to the queue.
pub data Event : Type 0 where
  emits : EventRow → Event
  flushes : Round → Event
  starts : Event
  stops : List Round → Round → Event

abbrev pub happen : Event → Api → Api
happen (emits r) a = with_queue (λ q. (enqueue r q).1) a
happen (flushes r) a = run_round r a
happen starts a = start a
happen (stops rounds r) a = stop rounds r a

unfoldable pub history : List Event → Api → Api
history [] a = a
history (e ∷ es) a = history es (happen e a)

-- The rows of a round and of an event, in the order of their arrival.
abbrev pub rows_of : Round → List EventRow
rows_of r = r.arrived ++ r.meanwhile

unfoldable pub rows_of_all : List Round → List EventRow
rows_of_all [] = []
rows_of_all (r ∷ rs) = rows_of r ++ rows_of_all rs

abbrev pub emitted : Event → List EventRow
emitted (emits r) = r ∷ []
emitted (flushes r) = rows_of r
emitted starts = []
emitted (stops rounds r) = rows_of_all rounds ++ rows_of r

unfoldable pub all_emitted : List Event → List EventRow
all_emitted [] = []
all_emitted (e ∷ es) = emitted e ++ all_emitted es

-- The writes that are not cut off.
abbrev pub Whole : Insert → Type 0
Whole inserted = Unit
Whole failed = Unit
Whole (cut_off _) = ⊥

unfoldable pub AllWhole : List Round → Type 0
AllWhole [] = Unit
AllWhole (r ∷ rs) = Whole r.write × AllWhole rs

-- A stop whose last connection opens, with no write cut off.
abbrev pub WholeEvent : Event → Type 0
WholeEvent (emits r) = Unit
WholeEvent (flushes r) = Whole r.write
WholeEvent starts = Unit
WholeEvent (stops rounds r) = AllWhole rounds × Whole r.write × (r.opened ≡ true)

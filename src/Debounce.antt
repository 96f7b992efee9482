-- ===== src/Debounce.antt =====
-- kenjutsu/server/debounce.py: the manager, and the event loop's timers and tasks as numbered objects
-- that it refers to. Each call of a method, and each event of the loop, is one step.
mod Timers
mod Latest
mod Slots
pub mod Waiting
pub mod Keys
mod Tests
use kenjutsu.Base.{
  ℕ, String, Bool, true, false, not, ◌+◌, ◌&&◌, ◌||◌, ◌≡◌, Option, none, some, List, [], ◌∷◌, ◌==◌,
  nat_eq, string_eq, pair_eq, if◌then◌else◌,
}
use kenjutsu.Dict.{Dict, empty, get, put, remove}

-- `(repo_full_name, pr_number)`
abbrev pub PrKey : Type 0
PrKey = String × ℕ

-- A TimerHandle of `call_later(quiet_period, _fire, pr_key, coro_factory)`; the factory is a number.
pub record Timer : Type 0 where
  pub pr_key : PrKey
  pub coro_factory : ℕ
  pub cancelled : Bool

-- A Task of `_run(pr_key, coro_factory)`; `cancelled` after `cancel()` was called on it.
pub record Task : Type 0 where
  pub pr_key : PrKey
  pub coro_factory : ℕ
  pub cancelled : Bool

-- DebounceManager with the timers that have not fired and the tasks that have not ended.
pub record DebounceManager : Type 0 where
  pub pending : Dict PrKey ℕ
  pub in_flight : Dict PrKey ℕ
  pub timers : Dict ℕ Timer
  pub tasks : Dict ℕ Task
  pub next_handle : ℕ

-- `handle.cancel()`
unfoldable pub cancel_timer : Dict ℕ Timer → ℕ → Dict ℕ Timer
cancel_timer timers handle = elim (get timers handle) [
  | none ↦ timers
  | some t ↦ put timers handle (record t { cancelled = true })
]

-- `task.cancel()`
unfoldable pub cancel_task : Dict ℕ Task → ℕ → Dict ℕ Task
cancel_task tasks task = elim (get tasks task) [
  | none ↦ tasks
  | some t ↦ put tasks task (record t { cancelled = true })
]

unfoldable pub cancel_pending : DebounceManager → PrKey → Bool × DebounceManager
cancel_pending m pr_key = elim (get m.pending pr_key) [
  | none ↦ (false, m)
  | some handle ↦
      (true, record m { pending = remove m.pending pr_key; timers = cancel_timer m.timers handle })
]

unfoldable pub cancel_in_flight : DebounceManager → PrKey → Bool × DebounceManager
cancel_in_flight m pr_key = elim (get m.in_flight pr_key) [
  | none ↦ (false, m)
  | some task ↦
      (true, record m { in_flight = remove m.in_flight pr_key; tasks = cancel_task m.tasks task })
]

-- `loop.call_later(...)` and the entry in `_pending`.
unfoldable pub start_timer : DebounceManager → PrKey → ℕ → DebounceManager
start_timer m pr_key coro_factory = record m {
  pending = put m.pending pr_key m.next_handle;
  timers =
      put m.timers m.next_handle
        (record { pr_key = pr_key; coro_factory = coro_factory; cancelled = false });
  next_handle = m.next_handle + 1;
}

unfoldable pub schedule : DebounceManager → PrKey → ℕ → DebounceManager
schedule m pr_key coro_factory =
    start_timer (cancel_in_flight (cancel_pending m pr_key).1 pr_key).1 pr_key coro_factory

unfoldable pub cancel : DebounceManager → PrKey → Bool × DebounceManager
cancel m pr_key =
    let (cancelled_pending, m1) = cancel_pending m pr_key in
    let (cancelled_in_flight, m2) = cancel_in_flight m1 pr_key in
    (cancelled_pending || cancelled_in_flight, m2)

-- `_fire`: the pending entry goes, and a task is made and entered.
unfoldable pub fire : DebounceManager → PrKey → ℕ → DebounceManager
fire m pr_key coro_factory = record m {
  pending = remove m.pending pr_key;
  in_flight = put m.in_flight pr_key m.next_handle;
  tasks =
      put m.tasks m.next_handle
        (record { pr_key = pr_key; coro_factory = coro_factory; cancelled = false });
  next_handle = m.next_handle + 1;
}

-- The loop comes to a timer that is due: it calls `_fire` unless the timer was cancelled.
unfoldable pub timer_due : DebounceManager → ℕ → DebounceManager
timer_due m handle = elim (get m.timers handle) [
  | none ↦ m
  | some t ↦
      let rest = record m { timers = remove m.timers handle } in
      if t.cancelled then rest else fire rest t.pr_key t.coro_factory
]

-- `_run` ends, however it does: its `finally` clears the slot of its key.
unfoldable pub run_ends : DebounceManager → ℕ → DebounceManager
run_ends m task = elim (get m.tasks task) [
  | none ↦ m
  | some t ↦ record m { in_flight = remove m.in_flight t.pr_key; tasks = remove m.tasks task }
]

pub data Event : Type 0 where
  scheduled : PrKey → ℕ → Event
  cancelled : PrKey → Event
  due ended : ℕ → Event

unfoldable pub step : DebounceManager → Event → DebounceManager
step m (scheduled k f) = schedule m k f
step m (cancelled k) = (cancel m k).1
step m (due handle) = timer_due m handle
step m (ended task) = run_ends m task

unfoldable pub run : DebounceManager → List Event → DebounceManager
run m [] = m
run m (e ∷ es) = run (step m e) es

abbrev pub new_manager : DebounceManager
new_manager = record {
  pending = empty;
  in_flight = empty;
  timers = empty;
  tasks = empty;
  next_handle = 0;
}

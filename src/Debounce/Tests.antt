-- ===== src/Debounce/Tests.antt =====
-- The debounce manager at concrete timers and tasks.
use kenjutsu.Base.{
  ℕ, List, true, false, some, [], ◌∷◌, ◌≡◌, refl, arith, nat_eq, string_eq, pair_eq, ◌∙◌, ap,
}
use kenjutsu.Dict.{Dict, empty, get, put, get-put, get-empty}
use kenjutsu.Debounce.{
  PrKey, Timer, Task, DebounceManager, schedule, run_ends, run, step, new_manager, Event, scheduled,
  due, ended, cancel_pending, cancel_in_flight, start_timer,
}
use kenjutsu.Debounce.Slots.{run_ends-successor}
use kenjutsu.Debounce.Waiting.{wait_all, nothing_waits}
use kenjutsu.Debounce.Waiting.Refinement.{Keeps, run-Keeps}

abbrev key : PrKey
key = ("owner/repo", 42)

abbrev first_timer : Timer
first_timer = record { pr_key = key; coro_factory = 5; cancelled = false }

-- With no timer pending and no task in flight, nothing is cancelled.
idle_pending : cancel_pending new_manager key ≡ (false, new_manager)
unfolding cancel_pending
idle_pending = rw (get-empty key, cancel_pending) refl

idle_in_flight : cancel_in_flight new_manager key ≡ (false, new_manager)
unfolding cancel_in_flight
idle_in_flight = rw (get-empty key, cancel_in_flight) refl

scheduled_once : schedule new_manager key 5 ≡ start_timer new_manager key 5
unfolding schedule
scheduled_once = rw (idle_pending, schedule) (rw (idle_in_flight, schedule) refl)

-- The first call makes the timer number 0.
timer_there : get (schedule new_manager key 5).timers 0 ≡ some first_timer
unfolding start_timer
timer_there =
    ap (λ m. get m.timers 0) scheduled_once ∙ rw (get-put new_manager.timers 0 first_timer 0) refl

at_start : get (schedule (run new_manager []) key 5).timers 0 ≡ some first_timer
unfolding run
at_start = timer_there

there_after : get (run new_manager (scheduled key 5 ∷ [])).timers 0 ≡ some first_timer
unfolding run step
there_after = timer_there

abbrev first_handle : ℕ
first_handle = 0

-- A task that was cancelled has not ended when its successor, number 3, was started.
abbrev superseded : Task
superseded = record { pr_key = key; coro_factory = 5; cancelled = true }

abbrev successor : Task
successor = record { pr_key = key; coro_factory = 6; cancelled = false }

abbrev started : Dict ℕ Task
started = put empty 1 superseded

abbrev both : DebounceManager
both = record new_manager {
  in_flight = put empty key 3;
  tasks = put started 3 successor;
  next_handle = 4;
}

old_there : get both.tasks 1 ≡ some superseded
old_there =
    rw (get-put started 3 successor 1) (rw (get-put (empty {K = ℕ} {V = Task}) 1 superseded 1) refl)

new_there : get both.tasks 3 ≡ some successor
new_there = rw (get-put started 3 successor 3) refl

run_ends-successor_example : get (schedule (run_ends both 1) key 7).tasks 3 ≡ some successor
run_ends-successor_example =
    run_ends-successor both 1 3 7 superseded successor old_there new_there (λ e. ground (arith, e))
      refl

abbrev events : List Event
events =
    scheduled key 5
    ∷ scheduled ("owner/repo", 43) 6
    ∷ scheduled key 7
    ∷ due 0
    ∷ due 2
    ∷ ended 3
    ∷ []

run-Keeps_example : Keeps (run new_manager events) (wait_all new_manager nothing_waits events)
run-Keeps_example = run-Keeps events

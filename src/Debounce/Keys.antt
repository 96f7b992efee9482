-- ===== src/Debounce/Keys.antt =====
-- kenjutsu/server/debounce.py: the pull requests that timers and tasks belong to.
use kenjutsu.Base.{
  ℕ, ◌≡◌, ap, subst, some, nat_eq, string_eq, pair_eq, arith, Option-cases, Bool-cases, inl, inr,
}
use kenjutsu.Dict.{Dict, get, remove, get-empty}
use kenjutsu.Debounce.{
  PrKey, Timer, Task, DebounceManager, cancel_timer, cancel_task, cancel_pending, cancel_in_flight,
  start_timer, schedule, fire, timer_due, run_ends, new_manager,
}
use kenjutsu.Debounce.Timers.{put-cases, remove-cases}

-- The keys of all timers and tasks have a property.
pub record Keyed (Q : PrKey → Type 0) (m : DebounceManager) : Type 0 where
  pub timers : (h : ℕ) (t : Timer) → get m.timers h ≡ some t → Q t.pr_key
  pub tasks : (h : ℕ) (t : Task) → get m.tasks h ≡ some t → Q t.pr_key

module _ (Q : PrKey → Type 0) where
  cancel_timer-keys :
      (timers : Dict ℕ Timer) (handle : ℕ)
      → ((h : ℕ) (t : Timer) → get timers h ≡ some t → Q t.pr_key)
      → (h : ℕ) (t : Timer) → get (cancel_timer timers handle) h ≡ some t
      → Q t.pr_key
  unfolding cancel_timer
  cancel_timer-keys timers handle w h t e = elim (Option-cases (get timers handle)) [
    | inl absent ↦ w h t (rw (absent, cancel_timer) at e)
    | inr (u, found) ↦ elim (put-cases timers handle h _ t (rw (found, cancel_timer) at e)) [
      | inl (_, same) ↦ subst Q (ap (λ x. x.pr_key) same) (w handle u found)
      | inr (_, old) ↦ w h t old
    ]
  ]

  cancel_task-keys :
      (tasks : Dict ℕ Task) (task : ℕ)
      → ((h : ℕ) (t : Task) → get tasks h ≡ some t → Q t.pr_key)
      → (h : ℕ) (t : Task) → get (cancel_task tasks task) h ≡ some t
      → Q t.pr_key
  unfolding cancel_task
  cancel_task-keys tasks task w h t e = elim (Option-cases (get tasks task)) [
    | inl absent ↦ w h t (rw (absent, cancel_task) at e)
    | inr (u, found) ↦ elim (put-cases tasks task h _ t (rw (found, cancel_task) at e)) [
      | inl (_, same) ↦ subst Q (ap (λ x. x.pr_key) same) (w task u found)
      | inr (_, old) ↦ w h t old
    ]
  ]

  cancel_pending-Keyed :
      (m : DebounceManager) (k : PrKey) → Keyed Q m → Keyed Q (cancel_pending m k).1
  unfolding cancel_pending
  cancel_pending-Keyed m k w = elim (Option-cases (get m.pending k)) [
    | inl absent ↦ rw (absent, cancel_pending) w
    | inr (handle, p) ↦
        rw (p, cancel_pending)
          (record { timers = cancel_timer-keys m.timers handle w.timers; tasks = w.tasks })
  ]

  cancel_in_flight-Keyed :
      (m : DebounceManager) (k : PrKey) → Keyed Q m → Keyed Q (cancel_in_flight m k).1
  unfolding cancel_in_flight
  cancel_in_flight-Keyed m k w = elim (Option-cases (get m.in_flight k)) [
    | inl absent ↦ rw (absent, cancel_in_flight) w
    | inr (task, p) ↦
        rw (p, cancel_in_flight)
          (record { timers = w.timers; tasks = cancel_task-keys m.tasks task w.tasks })
  ]

  start_timer-Keyed :
      (m : DebounceManager) (k : PrKey) (f : ℕ) → Q k → Keyed Q m → Keyed Q (start_timer m k f)
  unfolding start_timer
  start_timer-Keyed m k f q w = record {
    timers = λ h t e. elim (put-cases m.timers m.next_handle h _ t e) [
      | inl (_, same) ↦ subst Q (ap (λ x. x.pr_key) same) q
      | inr (_, old) ↦ w.timers h t old
    ];
    tasks = w.tasks;
  }

  pub schedule-Keyed :
      (m : DebounceManager) (k : PrKey) (f : ℕ) → Q k → Keyed Q m → Keyed Q (schedule m k f)
  unfolding schedule
  schedule-Keyed m k f q w =
      start_timer-Keyed (cancel_in_flight (cancel_pending m k).1 k).1 k f q
        (cancel_in_flight-Keyed (cancel_pending m k).1 k (cancel_pending-Keyed m k w))

  fire-Keyed : (m : DebounceManager) (k : PrKey) (f : ℕ) → Q k → Keyed Q m → Keyed Q (fire m k f)
  unfolding fire
  fire-Keyed m k f q w = record {
    timers = w.timers;
    tasks = λ h t e. elim (put-cases m.tasks m.next_handle h _ t e) [
      | inl (_, same) ↦ subst Q (ap (λ x. x.pr_key) same) q
      | inr (_, old) ↦ w.tasks h t old
    ];
  }

  without_timer-Keyed :
      (m : DebounceManager) (handle : ℕ)
      → Keyed Q m
      → Keyed Q (record m { timers = remove m.timers handle })
  without_timer-Keyed m handle w = record {
    timers = λ h t e. w.timers h t (remove-cases m.timers handle h t e).1;
    tasks = w.tasks;
  }

  pub timer_due-Keyed :
      (m : DebounceManager) (handle : ℕ) → Keyed Q m → Keyed Q (timer_due m handle)
  unfolding timer_due
  timer_due-Keyed m handle w = elim (Option-cases (get m.timers handle)) [
    | inl absent ↦ rw (absent, timer_due) w
    | inr (t, g) ↦ elim (Bool-cases t.cancelled) [
      | inl y ↦ rw (g, timer_due) (rw y (without_timer-Keyed m handle w))
      | inr n ↦
          rw (g, timer_due)
            (rw n (
              fire-Keyed (record m { timers = remove m.timers handle }) t.pr_key t.coro_factory
                (w.timers handle t g) (without_timer-Keyed m handle w)))
    ]
  ]

  pub run_ends-Keyed : (m : DebounceManager) (task : ℕ) → Keyed Q m → Keyed Q (run_ends m task)
  unfolding run_ends
  run_ends-Keyed m task w = elim (Option-cases (get m.tasks task)) [
    | inl absent ↦ rw (absent, run_ends) w
    | inr (t, g) ↦
        rw (g, run_ends)
          (record {
            timers = w.timers;
            tasks = λ h u e. w.tasks h u (remove-cases m.tasks task h u e).1;
          })
  ]

  pub new_manager-Keyed : Keyed Q new_manager
  new_manager-Keyed = record {
    timers = λ h t e. absurd (ground (arith, rw (get-empty h) at e));
    tasks = λ h t e. absurd (ground (arith, rw (get-empty h) at e));
  }

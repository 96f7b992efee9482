-- ===== src/Debounce/Latest.antt =====
-- kenjutsu/server/debounce.py: of the timers of a key, only the last one is not cancelled.
use kenjutsu.Base.{
  ℕ, false, ◌≡◌, refl, sym, ap, ◌∙◌, none, some, List, [], ◌∷◌, arith, nat_eq, string_eq, pair_eq,
  Bool-cases, Option-cases, inl, inr, some_eq, beq_refl,
}
use kenjutsu.Dict.{get, put, get-put, get-remove, get-empty}
use kenjutsu.Debounce.{
  PrKey, Timer, DebounceManager, cancel_pending, cancel_in_flight, start_timer, schedule, cancel,
  fire, timer_due, run_ends, Event, scheduled, cancelled, due, ended, step, run, new_manager,
}
use kenjutsu.Debounce.Timers.{
  LinkedIn, put-cases, remove-cases, cancelled-Linked, started-Linked, fired-Linked,
}

-- The timer can still fire.
abbrev pub Live : DebounceManager → ℕ → Timer → Type 0
Live m handle t = (get m.timers handle ≡ some t) × (t.cancelled ≡ false)

pub cancel_pending-Linked :
    (m : DebounceManager) (k : PrKey)
    → LinkedIn m
    → LinkedIn (cancel_pending m k).1 × (get (cancel_pending m k).1.pending k ≡ none)
unfolding cancel_pending
cancel_pending-Linked m k w = elim (Option-cases (get m.pending k)) [
  | inl absent ↦ rw (absent, cancel_pending) (w, absent)
  | inr (handle, p) ↦
      rw (p, cancel_pending)
        (
          cancelled-Linked m.pending m.timers m.next_handle k handle w p,
          rw (get-remove m.pending k k) (rw (beq_refl k) refl),
        )
]

-- Cancelling a task leaves the timers alone.
pub cancel_in_flight-Linked :
    (m : DebounceManager) (k : PrKey)
    → LinkedIn m × (get m.pending k ≡ none)
    → LinkedIn (cancel_in_flight m k).1 × (get (cancel_in_flight m k).1.pending k ≡ none)
unfolding cancel_in_flight
cancel_in_flight-Linked m k w = elim (Option-cases (get m.in_flight k)) [
  | inl absent ↦ rw (absent, cancel_in_flight) w
  | inr (task, p) ↦ rw (p, cancel_in_flight) w
]

schedule-Linked : (m : DebounceManager) (k : PrKey) (f : ℕ) → LinkedIn m → LinkedIn (schedule m k f)
unfolding schedule
schedule-Linked m k f w =
    let clear = cancel_in_flight-Linked (cancel_pending m k).1 k (cancel_pending-Linked m k w) in
    started-Linked (cancel_in_flight (cancel_pending m k).1 k).1 k f clear.0 clear.1

cancel-Linked : (m : DebounceManager) (k : PrKey) → LinkedIn m → LinkedIn (cancel m k).1
unfolding cancel
cancel-Linked m k w =
    (cancel_in_flight-Linked (cancel_pending m k).1 k (cancel_pending-Linked m k w)).0

timer_due-Linked : (m : DebounceManager) (handle : ℕ) → LinkedIn m → LinkedIn (timer_due m handle)
unfolding timer_due fire
timer_due-Linked m handle w = elim (Option-cases (get m.timers handle)) [
  | inl absent ↦ rw (absent, timer_due) w
  | inr (t, g) ↦ elim (Bool-cases t.cancelled) [
    | inl y ↦
        rw (g, timer_due)
          (rw y (record {
            made = λ h u e. w.made h u (remove-cases m.timers handle h u e).1;
            linked = λ h u e live. w.linked h u (remove-cases m.timers handle h u e).1 live;
          }))
    | inr n ↦
        rw (g, timer_due) (rw n (fired-Linked m.pending m.timers m.next_handle handle t w g n))
  ]
]

run_ends-Linked : (m : DebounceManager) (task : ℕ) → LinkedIn m → LinkedIn (run_ends m task)
unfolding run_ends
run_ends-Linked m task w = elim (Option-cases (get m.tasks task)) [
  | inl absent ↦ rw (absent, run_ends) w
  | inr (t, g) ↦ rw (g, run_ends) w
]

pub step-Linked : (m : DebounceManager) (e : Event) → LinkedIn m → LinkedIn (step m e)
unfolding step
step-Linked m (scheduled k f) w = schedule-Linked m k f w
step-Linked m (cancelled k) w = cancel-Linked m k w
step-Linked m (due handle) w = timer_due-Linked m handle w
step-Linked m (ended task) w = run_ends-Linked m task w

pub run-Linked : (m : DebounceManager) (es : List Event) → LinkedIn m → LinkedIn (run m es)
unfolding run
run-Linked m [] w = w
run-Linked m (e ∷ es) w = run-Linked (step m e) es (step-Linked m e w)

pub new_manager-Linked : LinkedIn new_manager
new_manager-Linked = record {
  made = λ h t e. absurd (ground (arith, rw (get-empty h) at e));
  linked = λ h t e live. absurd (ground (arith, rw (get-empty h) at e));
}

-- After any course of events, two timers of one pull request that can both still fire are the same.
pub run-at_most_one :
    (es : List Event) (h j : ℕ) (t u : Timer)
    → Live (run new_manager es) h t
    → Live (run new_manager es) j u
    → t.pr_key ≡ u.pr_key
    → h ≡ j
run-at_most_one es h j t u l r same =
    let w = run-Linked new_manager es new_manager-Linked in
    some_eq (
      sym (w.linked h t l.0 l.1)
      ∙ ap (get (run new_manager es).pending) same
      ∙ w.linked j u r.0 r.1)

started-factory :
    (m : DebounceManager) (k : PrKey) (f : ℕ) (h : ℕ) (t : Timer)
    → LinkedIn (start_timer m k f)
    → Live (start_timer m k f) h t
    → t.pr_key ≡ k
    → t.coro_factory ≡ f
unfolding start_timer
started-factory m k f h t w l same =
    let entry : get (put m.pending k m.next_handle) k ≡ some m.next_handle =
      rw (get-put m.pending k m.next_handle k) (rw (beq_refl k) refl) in
    let found : some m.next_handle ≡ some h =
      sym entry ∙ ap (get (put m.pending k m.next_handle)) (sym same) ∙ w.linked h t l.0 l.1 in
    elim (put-cases m.timers m.next_handle h _ t l.0) [
      | inl (_, timer) ↦ sym (ap (λ x. x.coro_factory) timer)
      | inr (other, old) ↦ absurd (ground (arith, other, some_eq found))
    ]

-- After any course of events and a call of schedule, a timer of that pull request that can still fire
-- has the factory that this call was given: whatever was scheduled before will not run.
pub schedule-last :
    (es : List Event) (k : PrKey) (f h : ℕ) (t : Timer)
    → Live (schedule (run new_manager es) k f) h t
    → t.pr_key ≡ k
    → t.coro_factory ≡ f
unfolding schedule
schedule-last es k f h t l same =
    let m = run new_manager es in
    started-factory (cancel_in_flight (cancel_pending m k).1 k).1 k f h t
      (schedule-Linked m k f (run-Linked new_manager es new_manager-Linked)) l same

-- ===== src/Debounce/Slots.antt =====
-- kenjutsu/server/debounce.py: the slot of a task that was superseded.
use kenjutsu.Base.{
  ℕ, ◌≡◌, ◌≢◌, refl, ap, ◌∙◌, none, some, ◌==◌, nat_eq, string_eq, pair_eq, Bool-cases,
  Option-cases, inl, inr, beq_refl,
}
use kenjutsu.Dict.{get, remove, get-remove}
use kenjutsu.Debounce.{
  PrKey, Task, DebounceManager, cancel_pending, cancel_in_flight, start_timer, schedule, run_ends,
}

-- Cancelling the timer leaves the tasks and slots alone.
cancel_pending-tasks :
    (m : DebounceManager) (k : PrKey)
    → ((cancel_pending m k).1.tasks ≡ m.tasks) × ((cancel_pending m k).1.in_flight ≡ m.in_flight)
unfolding cancel_pending
cancel_pending-tasks m k = elim (Option-cases (get m.pending k)) [
  | inl h ↦ rw (h, cancel_pending) (refl, refl)
  | inr (handle, h) ↦ rw (h, cancel_pending) (refl, refl)
]

cancel_in_flight-none :
    (m : DebounceManager) (k : PrKey)
    → get m.in_flight k ≡ none
    → (cancel_in_flight m k).1.tasks ≡ m.tasks
unfolding cancel_in_flight
cancel_in_flight-none m k h = rw (h, cancel_in_flight) refl

-- Without a slot, a new event cancels no task.
schedule-tasks :
    (m : DebounceManager) (k : PrKey) (f : ℕ)
    → get m.in_flight k ≡ none
    → (schedule m k f).tasks ≡ m.tasks
unfolding schedule start_timer
schedule-tasks m k f h =
    cancel_in_flight-none (cancel_pending m k).1 k
      (ap (λ d. get d k) (cancel_pending-tasks m k).1 ∙ h)
    ∙ (cancel_pending-tasks m k).0

-- When a task ends after a newer task of its pull request was started, the newer one loses its slot:
-- the next event of the pull request leaves it running, as it was, beside the review to come.
pub run_ends-successor :
    (m : DebounceManager) (a b f : ℕ) (t u : Task)
    → get m.tasks a ≡ some t
    → get m.tasks b ≡ some u
    → a ≢ b
    → u.pr_key ≡ t.pr_key
    → get (schedule (run_ends m a) u.pr_key f).tasks b ≡ some u
unfolding run_ends
run_ends-successor m a b f t u h g apart same =
    let cleared : get (remove m.in_flight t.pr_key) u.pr_key ≡ none =
      rw same (rw (get-remove m.in_flight t.pr_key t.pr_key) (rw (beq_refl t.pr_key) refl)) in
    let others : get (remove m.tasks a) b ≡ some u =
      rw (get-remove m.tasks a b) (elim (Bool-cases (a == b)) [
        | inl y ↦ absurd (apart ((nat_eq.equal_iff a b).0 y))
        | inr n ↦ rw n g
      ]) in
    rw (h, run_ends) (ap (λ d. get d b) (schedule-tasks _ u.pr_key f cleared) ∙ others)

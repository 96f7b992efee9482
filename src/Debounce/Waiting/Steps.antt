-- ===== src/Debounce/Waiting/Steps.antt =====
-- kenjutsu/server/debounce.py: each method, and each event, does to the manager what it does to the
-- reviews that wait.
use kenjutsu.Base.{
  ℕ, true, false, ◌≡◌, refl, sym, ap, ◌∙◌, none, some, List, [], ◌∷◌, arith, ◌==◌, nat_eq,
  string_eq, pair_eq, Bool-cases, Option-cases, inl, inr, some_eq, beq_refl, subst,
}
use kenjutsu.Dict.{Dict, get, remove, get-put, get-remove}
use kenjutsu.Debounce.{
  PrKey, Timer, DebounceManager, cancel_timer, cancel_pending, cancel_in_flight, start_timer,
  schedule, cancel, fire, timer_due, run_ends, Event, scheduled, cancelled, due, ended, step, run,
}
use kenjutsu.Debounce.Timers.{LinkedIn}
use kenjutsu.Debounce.Latest.{cancel_pending-Linked, cancel_in_flight-Linked, step-Linked}
use kenjutsu.Debounce.Waiting.{
  Waiting, with_waiting, fired_timer, wait, wait_all, Shows, ShowsIn, kept, other_kept,
  cancel_timer-other, entry-key, not_both, apart,
}

cancel_pending-Shows :
    (m : DebounceManager) (k : PrKey) (w : Waiting)
    → ShowsIn m w
    → ShowsIn (cancel_pending m k).1 (with_waiting k none w)
unfolding cancel_pending
cancel_pending-Shows m k w s j = elim (Option-cases (get m.pending k)) [
  | inl e ↦
      rw (e, cancel_pending)
        (elim (Bool-cases (k == j)) [
          | inl y ↦ rw y (ap (get m.pending) (sym ((pair_eq.equal_iff k j).0 y)) ∙ e)
          | inr n ↦ rw n (s j)
        ])
  | inr (h, e) ↦
      rw (e, cancel_pending)
        (elim (Bool-cases (k == j)) [
          | inl y ↦ rw y (rw (get-remove m.pending k j) (rw y refl))
          | inr n ↦ rw n (
              kept m.pending (remove m.pending k) m.timers (cancel_timer m.timers h) j (w j)
                (rw (get-remove m.pending k j) (rw n refl))
                (λ i t g live key.
                  cancel_timer-other m.timers h i (
                    apart m.timers k j h i t n
                      (λ u f. entry-key m.pending m.timers k (w k) h u (s k) e f) g key)
                  ∙ g)
                (s j))
        ])
]

cancel_in_flight-Shows :
    (m : DebounceManager) (k : PrKey) (w : Waiting)
    → ShowsIn m w
    → ShowsIn (cancel_in_flight m k).1 w
unfolding cancel_in_flight
cancel_in_flight-Shows m k w s j = elim (Option-cases (get m.in_flight k)) [
  | inl e ↦ rw (e, cancel_in_flight) (s j)
  | inr (task, e) ↦ rw (e, cancel_in_flight) (s j)
]

start_timer-Shows :
    (m : DebounceManager) (k : PrKey) (f : ℕ) (w : Waiting)
    → LinkedIn m
    → ShowsIn m w
    → ShowsIn (start_timer m k f) (with_waiting k (some f) w)
unfolding start_timer
start_timer-Shows m k f w l s j = elim (Bool-cases (k == j)) [
  | inl y ↦ rw y (record {
    handle = m.next_handle;
    timer = record { pr_key = k; coro_factory = f; cancelled = false };
    entry = rw (get-put m.pending k m.next_handle j) (rw y refl);
    found =
        rw
          (get-put m.timers m.next_handle
            (record { pr_key = k; coro_factory = f; cancelled = false }) m.next_handle)
          (rw (beq_refl m.next_handle) refl);
    live = refl;
    key = (pair_eq.equal_iff k j).0 y;
    factory = refl;
  })
  | inr n ↦ rw n (
      kept m.pending _ m.timers _ j (w j) (rw (get-put m.pending k m.next_handle j) (rw n refl))
        (λ i t g live key.
          (other_kept m.timers m.next_handle i _ (ground (arith, l.made i t g))).0 ∙ g)
        (s j))
]

schedule-Shows :
    (m : DebounceManager) (k : PrKey) (f : ℕ) (w : Waiting)
    → LinkedIn m
    → ShowsIn m w
    → ShowsIn (schedule m k f) (with_waiting k (some f) w)
unfolding schedule
schedule-Shows m k f w l s j =
    let m1 = (cancel_pending m k).1 in
    let m2 = (cancel_in_flight m1 k).1 in
    let linked = (cancel_in_flight-Linked m1 k (cancel_pending-Linked m k l)).0 in
    let shown =
      start_timer-Shows m2 k f (with_waiting k none w) linked
        (cancel_in_flight-Shows m1 k (with_waiting k none w) (cancel_pending-Shows m k w s)) j in
    let same : with_waiting k (some f) (with_waiting k none w) j ≡ with_waiting k (some f) w j =
      ground arith in
    subst (Shows (start_timer m2 k f).pending (start_timer m2 k f).timers j) same shown

cancel-Shows :
    (m : DebounceManager) (k : PrKey) (w : Waiting)
    → ShowsIn m w
    → ShowsIn (cancel m k).1 (with_waiting k none w)
unfolding cancel
cancel-Shows m k w s =
    cancel_in_flight-Shows (cancel_pending m k).1 k (with_waiting k none w)
      (cancel_pending-Shows m k w s)

-- The timer of a handle goes, which is not a live one of the key.
without_handle :
    (timers : Dict ℕ Timer) (handle i : ℕ) (t : Timer)
    → ((handle == i) ≡ false)
    → get timers i ≡ some t
    → get (remove timers handle) i ≡ some t
without_handle timers handle i t n g = (other_kept timers handle i t n).1 ∙ g

cancelled_apart :
    (timers : Dict ℕ Timer) (h i : ℕ) (t u : Timer)
    → get timers h ≡ some u
    → u.cancelled ≡ true
    → get timers i ≡ some t
    → t.cancelled ≡ false
    → (h == i) ≡ false
cancelled_apart timers h i t u e c g live = elim (Bool-cases (h == i)) [
  | inr m ↦ m
  | inl y ↦
      let same : u ≡ t = some_eq (sym e ∙ ap (get timers) ((nat_eq.equal_iff h i).0 y) ∙ g) in
      absurd (not_both u.cancelled c (ap (λ x. x.cancelled) same ∙ live))
]

timer_due-Shows :
    (m : DebounceManager) (handle : ℕ) (w : Waiting)
    → ShowsIn m w
    → ShowsIn (timer_due m handle) (fired_timer (get m.timers handle) w)
unfolding timer_due fire
timer_due-Shows m handle w s j = elim (Option-cases (get m.timers handle)) [
  | inl e ↦ rw (e, timer_due) (s j)
  | inr (u, e) ↦
      rw (e, timer_due)
        (elim (Bool-cases u.cancelled) [
          | inl c ↦ rw c (
              kept m.pending m.pending m.timers (remove m.timers handle) j (w j) refl
                (λ i t g live key.
                  without_handle m.timers handle i t
                    (cancelled_apart m.timers handle i t u e c g live) g)
                (s j))
          | inr c ↦ rw c (elim (Bool-cases (u.pr_key == j)) [
            | inl y ↦ rw y (rw (get-remove m.pending u.pr_key j) (rw y refl))
            | inr n ↦ rw n (
                kept m.pending (remove m.pending u.pr_key) m.timers (remove m.timers handle) j (w j)
                  (rw (get-remove m.pending u.pr_key j) (rw n refl))
                  (λ i t g live key.
                    without_handle m.timers handle i t
                      (apart m.timers u.pr_key j handle i t n
                        (λ v f. ap (λ x. x.pr_key) (some_eq (sym f ∙ e))) g key)
                      g)
                  (s j))
          ])
        ])
]

run_ends-Shows :
    (m : DebounceManager) (task : ℕ) (w : Waiting) → ShowsIn m w → ShowsIn (run_ends m task) w
unfolding run_ends
run_ends-Shows m task w s j = elim (Option-cases (get m.tasks task)) [
  | inl e ↦ rw (e, run_ends) (s j)
  | inr (t, e) ↦ rw (e, run_ends) (s j)
]

step-Shows :
    (m : DebounceManager) (e : Event) (w : Waiting)
    → LinkedIn m
    → ShowsIn m w
    → ShowsIn (step m e) (wait m w e)
unfolding step
step-Shows m (scheduled k f) w l s = schedule-Shows m k f w l s
step-Shows m (cancelled k) w l s = cancel-Shows m k w s
step-Shows m (due handle) w l s = timer_due-Shows m handle w s
step-Shows m (ended task) w l s = run_ends-Shows m task w s

pub run-Shows :
    (m : DebounceManager) (w : Waiting) (es : List Event)
    → LinkedIn m
    → ShowsIn m w
    → ShowsIn (run m es) (wait_all m w es)
unfolding run
run-Shows m w [] l s = s
run-Shows m w (e ∷ es) l s =
    run-Shows (step m e) (wait m w e) es (step-Linked m e l) (step-Shows m e w l s)

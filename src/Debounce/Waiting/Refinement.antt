-- ===== src/Debounce/Waiting/Refinement.antt =====
-- kenjutsu/server/debounce.py: what the manager promises for the reviews that wait, over any course
-- of events.
use kenjutsu.Base.{
  Option, ℕ, false, ◌≡◌, refl, sym, ap, ◌∙◌, none, some, List, arith, nat_eq, string_eq, pair_eq,
  some_eq, beq_refl,
}
use kenjutsu.Dict.{Dict, get, get-put, get-empty}
use kenjutsu.Debounce.{
  PrKey, Timer, DebounceManager, fire, timer_due, Event, due, step, run, new_manager,
}
use kenjutsu.Debounce.Latest.{run-Linked, new_manager-Linked}
use kenjutsu.Debounce.Waiting.{Waiting, wait_all, nothing_waits, Shows, ShowsIn}
use kenjutsu.Debounce.Waiting.Steps.{run-Shows}

-- What the entry of a key leads to is what waits.
entry-waits :
    (pending : Dict PrKey ℕ) (timers : Dict ℕ Timer) (k : PrKey) (o : Option ℕ) (h : ℕ) (t : Timer)
    → Shows pending timers k o
    → get pending k ≡ some h
    → get timers h ≡ some t
    → o ≡ some t.coro_factory
entry-waits pending timers k none h t s e g = absurd (ground (arith, sym s ∙ e))
entry-waits pending timers k (some f) h t s e g =
    let same : s.handle ≡ h = some_eq (sym s.entry ∙ e) in
    let timer : s.timer ≡ t = some_eq (sym s.found ∙ ap (get timers) same ∙ g) in
    ap some (sym s.factory ∙ ap (λ x. x.coro_factory) timer)

timer_due-task :
    (m : DebounceManager) (handle : ℕ) (t : Timer)
    → get m.timers handle ≡ some t
    → t.cancelled ≡ false
    → get (step m (due handle)).tasks m.next_handle
      ≡ some (record { pr_key = t.pr_key; coro_factory = t.coro_factory; cancelled = false })
unfolding step timer_due fire
timer_due-task m handle t g live =
    rw (g, timer_due)
      (rw live (
        rw
          (get-put m.tasks m.next_handle
            (record { pr_key = t.pr_key; coro_factory = t.coro_factory; cancelled = false })
            m.next_handle)
          (rw (beq_refl m.next_handle) refl)))

-- What the manager keeps of what waits: it shows it, and a timer that fires starts it.
pub record Keeps (m : DebounceManager) (w : Waiting) : Type 0 where
  pub shows : ShowsIn m w
  pub starts :
      (handle : ℕ) (t : Timer)
      → get m.timers handle ≡ some t
      → t.cancelled ≡ false
      → (w t.pr_key ≡ some t.coro_factory)
        × (get (step m (due handle)).tasks m.next_handle
            ≡ some (record { pr_key = t.pr_key; coro_factory = t.coro_factory; cancelled = false }))

-- Whatever happens, the manager holds what a map from pull requests to factories says that waits: the
-- factory that was scheduled last for a pull request, until it is cancelled or its timer fires. For each
-- that waits the manager has a live timer of that pull request with that factory, as its pending one,
-- and where none waits it has none pending. A live timer that is due starts a task of its pull request
-- with the factory that waits.
pub run-Keeps :
    (es : List Event) → Keeps (run new_manager es) (wait_all new_manager nothing_waits es)
run-Keeps es =
    let m = run new_manager es in
    let linked = run-Linked new_manager es new_manager-Linked in
    let shown = run-Shows new_manager nothing_waits es new_manager-Linked (λ k. get-empty k) in
    record {
      shows = shown;
      starts = λ handle t g live. (
        entry-waits m.pending m.timers t.pr_key _ handle t (shown t.pr_key)
            (linked.linked handle t g live) g,
        timer_due-task m handle t g live,
      );
    }

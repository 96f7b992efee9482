-- ===== src/Queue/Tests.antt =====
-- Runs of the queue's parts, and the theorems about them there.
use kenjutsu.Base.{
  pair_eq, string_eq, nat_eq, true, false, some, List, [], ◌∷◌, ◌+◌, ◌≡◌, ◌≢◌, ◌≤◌, refl, count,
  arith,
}
use kenjutsu.Queue.{
  acquire, evict, semaphore_value, check, status_of, register, complete, is_set, ReviewKey,
  new_global_queue,
}
use kenjutsu.Queue.Window.{Rising, calls_at, fresh, within, calls_at-window}
use kenjutsu.Queue.Limits.{Event as LimitEvent, entering, exiting, new_queue, active, run-active}
use kenjutsu.Queue.Isolation.{view, own, run_global, run-isolated}
use kenjutsu.Queue.Costs.{new_tracker, check-run, capped, spent, total, last_cap}
use kenjutsu.Dict.{get}
use kenjutsu.Queue.Registry.{
  register-current, new_registry, registered, completed, Supersedes, register-Supersedes,
  complete_by_superseded,
}
use kenjutsu.Queue.Limits
use kenjutsu.Queue.Costs
use kenjutsu.Queue.Registry

-- Of four calls, two in ten: the third is refused, the fourth is let through.
calls_at-window_example :
    count (within 10 0) (calls_at (fresh 2 10) (1 ∷ 3 ∷ 5 ∷ 12 ∷ [])).accepted ≤ 2
unfolding Rising
calls_at-window_example =
    calls_at-window 2 10 (1 ∷ 3 ∷ 5 ∷ 12 ∷ [])
      (omega arith, (omega arith, (omega arith, (omega arith, tt)))) 0

refused : (calls_at (fresh 2 10) (1 ∷ 3 ∷ 5 ∷ 12 ∷ [])).accepted ≡ 1 ∷ 3 ∷ 12 ∷ []
unfolding calls_at acquire evict
refused = refl

run-active_example :
    active (Limits.run (new_queue 1) (entering "a" ∷ entering "a" ∷ entering "b" ∷ [])) "a"
      + semaphore_value
          (Limits.run (new_queue 1) (entering "a" ∷ entering "a" ∷ entering "b" ∷ []))
          "a"
    ≡ 1
run-active_example = run-active 1 (entering "a" ∷ entering "a" ∷ entering "b" ∷ []) "a"

run-isolated_example :
    view (Limits.run (new_queue 1) (entering "a" ∷ entering "b" ∷ entering "a" ∷ [])) "a"
    ≡ run_global (new_global_queue 1) (own "a" (entering "a" ∷ entering "b" ∷ entering "a" ∷ []))
run-isolated_example = run-isolated 1 (entering "a" ∷ entering "b" ∷ entering "a" ∷ []) "a"

abbrev spending : List Costs.Event
spending = capped "a" 100 ∷ spent "a" 50 ∷ spent "b" 70 ∷ spent "a" 35 ∷ []

check-run_example :
    check (Costs.run new_tracker spending) "a"
    ≡ some (record {
      tenant_id = "a";
      current_cost = 85;
      cap = some 100;
      alert_triggered = true;
      hard_stop = false;
    })
unfolding status_of
check-run_example = check-run spending "a"

abbrev key : ReviewKey
key = ("repo", 7)

abbrev pushes : List Registry.Event
pushes = registered key ∷ []

in_flight : get (Registry.run new_registry pushes).events key ≡ some 0
unfolding Registry.run register
in_flight = register-current new_registry key

register-Supersedes_example : Supersedes (Registry.run new_registry pushes) key 0
register-Supersedes_example = register-Supersedes pushes key 0 in_flight

complete_by_superseded_example :
    let r = Registry.run new_registry pushes in
    let (first, r1) = register r key in
    let (second, r2) = register r1 key in
    let (third, r3) = register (complete r2 key) key in
    (second ≢ third) × (is_set r3 second ≡ false) × (is_set r3 third ≡ false)
complete_by_superseded_example = complete_by_superseded pushes key

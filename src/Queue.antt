-- ===== src/Queue.antt =====
-- kenjutsu/pipeline/queue.py: the concurrency limits, the rate limiter, the registry of reviews in
-- flight and the cost tracker. Times are natural numbers of one unit and costs of another; the locks
-- make each operation one step.
mod Window
mod Limits
mod Isolation
mod Costs
mod Registry
mod Tests
use kenjutsu.Base.{
  ℕ, String, Bool, true, false, not, ◌+◌, ◌-◌, ◌*◌, ◌≡◌, refl, Option, none, some, List, [], ◌∷◌,
  ◌++◌, length, ltb, leb, ◌==◌, nat_eq, string_eq, pair_eq, if◌then◌else◌,
}
use kenjutsu.Dict.{Dict, empty, get, put, remove}

-- `(repo_id, pr_number)`
abbrev pub ReviewKey : Type 0
ReviewKey = String × ℕ

-- RateLimiter, without its lock and clock.
pub record RateLimiter : Type 0 where
  pub calls : ℕ
  pub period : ℕ
  pub timestamps : List ℕ

-- `while timestamps and timestamps[0] <= now - period: popleft()`, with the period moved over, since
-- the difference may be negative.
unfoldable pub evict : ℕ → ℕ → List ℕ → List ℕ
evict period now [] = []
evict period now (t ∷ ts) =
    let rest = evict period now ts in if leb (t + period) now then rest else t ∷ ts

-- RateLimiter.acquire at the time `now`; `false` is RateLimitedError.
unfoldable pub acquire : RateLimiter → ℕ → Bool × RateLimiter
acquire l now =
    let kept = evict l.period now l.timestamps in
    if leb l.calls (length kept)
    then (false, record l { timestamps = kept })
    else (true, record l { timestamps = kept ++ now ∷ [] })

-- GlobalQueue: the value of its semaphore, and how many bodies run.
pub record GlobalQueue : Type 0 where
  pub max_concurrency : ℕ
  pub semaphore : ℕ
  pub running : ℕ

-- GlobalQueue.__init__
abbrev pub new_global_queue : ℕ → GlobalQueue
new_global_queue most = record { max_concurrency = most; semaphore = most; running = 0 }

-- GlobalQueue.__aenter__; `false` when the task has to wait.
unfoldable pub aenter : GlobalQueue → Bool × GlobalQueue
aenter q =
    if ltb 0 q.semaphore
    then (true, record q { semaphore = q.semaphore - 1; running = q.running + 1 })
    else (false, q)

-- GlobalQueue.__aexit__, which a body that runs comes to once.
unfoldable pub aexit : GlobalQueue → GlobalQueue
aexit q =
    if ltb 0 q.running then record q { semaphore = q.semaphore + 1; running = q.running - 1 } else q

-- TenantQueue: the value of each tenant's semaphore, and the tenants whose body is running.
pub record TenantQueue : Type 0 where
  pub max_concurrency : ℕ
  pub semaphores : Dict String ℕ
  pub running : List String

-- TenantQueue._semaphore_for: the value of the semaphore, which is made if there is none.
unfoldable pub semaphore_value : TenantQueue → String → ℕ
semaphore_value q tenant_id = elim (get q.semaphores tenant_id) [
  | none ↦ q.max_concurrency
  | some v ↦ v
]

-- The start of `async with for_tenant(...)`; `false` when the task has to wait.
unfoldable pub enter : TenantQueue → String → Bool × TenantQueue
enter q tenant_id =
    let value = semaphore_value q tenant_id in
    if ltb 0 value
    then (
      true,
      record q {
        semaphores = put q.semaphores tenant_id (value - 1);
        running = tenant_id ∷ q.running;
      },
    )
    else (false, record q { semaphores = put q.semaphores tenant_id value })

unfoldable pub stop_one : String → List String → Option (List String)
stop_one tenant_id [] = none
stop_one tenant_id (t ∷ ts) =
    let rest = stop_one tenant_id ts in
    if t == tenant_id then some ts else elim rest [ none ↦ none | some l ↦ some (t ∷ l) ]

-- The `finally` of for_tenant, which a body that runs comes to once.
unfoldable pub exit : TenantQueue → String → TenantQueue
exit q tenant_id = elim (stop_one tenant_id q.running) [
  | none ↦ q
  | some running ↦ record q {
    semaphores = put q.semaphores tenant_id (semaphore_value q tenant_id + 1);
    running = running;
  }
]

-- With the events it made: an event is a number, and `signals` has those set.
pub record SupersessionRegistry : Type 0 where
  pub events : Dict ReviewKey ℕ
  pub superseded : Dict ReviewKey (Unit {0})
  pub signals : Dict ℕ (Unit {0})
  pub next_event : ℕ

-- SupersessionRegistry.register: the new event, and the registry after.
unfoldable pub register : SupersessionRegistry → ReviewKey → ℕ × SupersessionRegistry
register r key = (
  r.next_event,
  elim (get r.events key) [
    | none ↦ record r { events = put r.events key r.next_event; next_event = r.next_event + 1 }
    | some prior ↦ record r {
      events = put r.events key r.next_event;
      superseded = put r.superseded key tt;
      signals = put r.signals prior tt;
      next_event = r.next_event + 1;
    }
  ],
)

-- SupersessionRegistry.complete
unfoldable pub complete : SupersessionRegistry → ReviewKey → SupersessionRegistry
complete r key = record r { events = remove r.events key; superseded = remove r.superseded key }

abbrev pub present : {A : Type 0} → Option A → Bool
present none = false
present (some a) = true

-- SupersessionRegistry.is_cancelled
abbrev pub is_cancelled : SupersessionRegistry → ReviewKey → Bool
is_cancelled r key = present (get r.superseded key)

-- `event.is_set()`
abbrev pub is_set : SupersessionRegistry → ℕ → Bool
is_set r event = present (get r.signals event)

-- CostStatus; a cap of `none` is `float("inf")`.
pub record CostStatus : Type 0 where
  pub tenant_id : String
  pub current_cost : ℕ
  pub cap : Option ℕ
  pub alert_triggered : Bool
  pub hard_stop : Bool

pub record CostTracker : Type 0 where
  pub costs : Dict String ℕ
  pub caps : Dict String ℕ

abbrev pub or_zero : Option ℕ → ℕ
or_zero none = 0
or_zero (some n) = n

-- `costs.get(tenant_id, 0.0)`
abbrev pub get_cost : CostTracker → String → ℕ
get_cost c tenant_id = or_zero (get c.costs tenant_id)

unfoldable pub set_cap : CostTracker → String → ℕ → CostTracker
set_cap c tenant_id cap = record c { caps = put c.caps tenant_id cap }

-- `none` is the ZeroDivisionError of a cap that is 0.
unfoldable pub status_of : String → ℕ → Option ℕ → Option CostStatus
status_of tenant_id current none = some (record {
  tenant_id = tenant_id;
  current_cost = current;
  cap = none;
  alert_triggered = false;
  hard_stop = false;
})
status_of tenant_id current (some cap) =
    if cap == 0
    then none
    else some (record {
      tenant_id = tenant_id;
      current_cost = current;
      cap = some cap;
      alert_triggered = leb (cap * 8) (current * 10);
      hard_stop = leb cap current;
    })

unfoldable pub check : CostTracker → String → Option CostStatus
check c tenant_id = status_of tenant_id (get_cost c tenant_id) (get c.caps tenant_id)

unfoldable pub add_cost : CostTracker → String → ℕ → CostTracker
add_cost c tenant_id cost = record c { costs = put c.costs tenant_id (get_cost c tenant_id + cost) }

-- CostTracker.record_cost
unfoldable pub record_cost : CostTracker → String → ℕ → Option CostStatus × CostTracker
record_cost c tenant_id cost =
    let after = add_cost c tenant_id cost in (check after tenant_id, after)

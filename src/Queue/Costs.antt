-- ===== src/Queue/Costs.antt =====
-- CostTracker of kenjutsu/pipeline/queue.py: the status after any course of caps and costs.
use kenjutsu.Base.{
  ℕ, String, ◌+◌, ◌≡◌, refl, Option, none, some, List, [], ◌∷◌, arith, ◌==◌, string_eq, nat_eq,
  if◌then◌else◌, Bool-cases, inl, inr, ap, ◌∙◌,
}
use kenjutsu.Dict.{empty, get, get-put, get-empty}
use kenjutsu.Queue.{
  CostTracker, or_zero, get_cost, set_cap, add_cost, record_cost, check, status_of,
}

pub data Event : Type 0 where
  capped spent : String → ℕ → Event

unfoldable pub run : CostTracker → List Event → CostTracker
run c [] = c
run c (capped t cap ∷ es) = run (set_cap c t cap) es
run c (spent t cost ∷ es) = run (record_cost c t cost).1 es

-- What the tenant spent, and its last cap.
abbrev pub total : ℕ → String → List Event → ℕ
total n t [] = n
total n t (capped u cap ∷ es) = total n t es
total n t (spent u cost ∷ es) = total (if u == t then n + cost else n) t es

abbrev pub last_cap : Option ℕ → String → List Event → Option ℕ
last_cap c t [] = c
last_cap c t (capped u cap ∷ es) = last_cap (if u == t then some cap else c) t es
last_cap c t (spent u cost ∷ es) = last_cap c t es

cost-add_cost :
    (c : CostTracker) (u t : String) (n : ℕ)
    → get_cost (add_cost c u n) t ≡ (if u == t then get_cost c t + n else get_cost c t)
unfolding add_cost
cost-add_cost c u t n =
    ap or_zero (get-put c.costs u (get_cost c u + n) t) ∙ elim (Bool-cases (u == t)) [
      | inl y ↦ rw y (omega (arith, ap (get_cost c) ((string_eq.equal_iff u t).0 y)))
      | inr x ↦ rw x refl
    ]

run-cost :
    (c : CostTracker) (t : String) (es : List Event)
    → get_cost (run c es) t ≡ total (get_cost c t) t es
unfolding run set_cap record_cost
run-cost c t [] = refl
run-cost c t (capped u cap ∷ es) = run-cost (set_cap c u cap) t es
run-cost c t (spent u cost ∷ es) =
    run-cost (add_cost c u cost) t es ∙ ap (λ n. total n t es) (cost-add_cost c u t cost)

run-caps :
    (c : CostTracker) (t : String) (es : List Event)
    → get (run c es).caps t ≡ last_cap (get c.caps t) t es
unfolding run set_cap record_cost add_cost
run-caps c t [] = refl
run-caps c t (capped u cap ∷ es) =
    run-caps (set_cap c u cap) t es ∙ ap (λ o. last_cap o t es) (get-put c.caps u cap t)
run-caps c t (spent u cost ∷ es) = run-caps (add_cost c u cost) t es

abbrev pub new_tracker : CostTracker
new_tracker = record { costs = empty; caps = empty }

new_tracker-cost : (es : List Event) (t : String) → get_cost (run new_tracker es) t ≡ total 0 t es
new_tracker-cost es t = run-cost new_tracker t es ∙ ap (λ o. total (or_zero o) t es) (get-empty t)

new_tracker-caps :
    (es : List Event) (t : String) → get (run new_tracker es).caps t ≡ last_cap none t es
new_tracker-caps es t = run-caps new_tracker t es ∙ ap (λ o. last_cap o t es) (get-empty t)

-- After any course of caps and costs, the status of a tenant is that of the sum of its own costs
-- under the cap it was given last, other tenants having no part in it.
pub check-run :
    (es : List Event) (t : String)
    → check (run new_tracker es) t ≡ status_of t (total 0 t es) (last_cap none t es)
unfolding check
check-run es t = rw (new_tracker-cost es t) (rw (new_tracker-caps es t) refl)

-- ===== src/Queue/Isolation.antt =====
-- TenantQueue and GlobalQueue of kenjutsu/pipeline/queue.py: each tenant has a queue of its own.
use kenjutsu.Base.{
  ap, ℕ, String, true, false, ◌+◌, ◌-◌, ◌≡◌, refl, none, List, [], ◌∷◌, arith, count, sym, ◌∙◌, ltb,
  ◌==◌, string_eq, if◌then◌else◌, Bool-cases, Option-cases, inl, inr,
}
use kenjutsu.Dict.{get-empty}
use kenjutsu.Queue.{
  GlobalQueue, TenantQueue, semaphore_value, enter, exit, stop_one, aenter, aexit, new_global_queue,
}
use kenjutsu.Queue.Limits.{
  Event, entering, exiting, run, active, new_queue, value-put, stop_one-count,
}

-- The tenant's events.
unfoldable pub own : String → List Event → List Event
own u [] = []
own u (entering t ∷ es) = let rest = own u es in if t == u then entering t ∷ rest else rest
own u (exiting t ∷ es) = let rest = own u es in if t == u then exiting t ∷ rest else rest

-- The same events at a queue that is not divided by tenants.
unfoldable pub run_global : GlobalQueue → List Event → GlobalQueue
run_global q [] = q
run_global q (entering t ∷ es) = run_global (aenter q).1 es
run_global q (exiting t ∷ es) = run_global (aexit q) es

-- The queue as one tenant finds it.
abbrev pub view : TenantQueue → String → GlobalQueue
view q u = record {
  max_concurrency = q.max_concurrency;
  semaphore = semaphore_value q u;
  running = active q u;
}

-- Two queues are equal if what they hold is.
same_queue :
    (most s t a b : ℕ)
    → s ≡ t
    → a ≡ b
    → Path GlobalQueue
        (record { max_concurrency = most; semaphore = s; running = a })
        (record { max_concurrency = most; semaphore = t; running = b })
same_queue most s t a b p q = λ i. record { max_concurrency = most; semaphore = p i; running = q i }

self : (u : String) → (u == u) ≡ true
self u = (string_eq.equal_iff u u).1 refl

-- The start of a body is one in the tenant's view.
enter-own : (q : TenantQueue) (u : String) → view (enter q u).1 u ≡ (aenter (view q u)).1
unfolding enter aenter
enter-own q u =
    let v = semaphore_value q u in
    elim (Bool-cases (ltb 0 (semaphore_value q u))) [
      | inl free ↦ rw free (
          same_queue q.max_concurrency _ _ _ _
            (value-put q u u (v - 1) (u ∷ q.running) ∙ rw (self u) refl)
            (rw (self u) (omega arith)))
      | inr full ↦ rw full (
          same_queue q.max_concurrency _ _ _ _ (value-put q u u v q.running ∙ rw (self u) refl)
            refl)
    ]

-- It is nothing in the view of another tenant.
enter-other : (q : TenantQueue) (t u : String) → (t == u) ≡ false → view (enter q t).1 u ≡ view q u
unfolding enter
enter-other q t u n =
    let v = semaphore_value q t in
    elim (Bool-cases (ltb 0 (semaphore_value q t))) [
      | inl free ↦ rw free (
          same_queue q.max_concurrency _ _ _ _ (value-put q t u (v - 1) (t ∷ q.running) ∙ rw n refl)
            (rw n refl))
      | inr full ↦
          rw full
            (same_queue q.max_concurrency _ _ _ _ (value-put q t u v q.running ∙ rw n refl) refl)
    ]

-- A body that does not run is not found, and nothing is counted of it.
stop_one-none : (t : String) (l : List String) → stop_one t l ≡ none → count (λ x. x == t) l ≡ 0
unfolding stop_one
stop_one-none t [] h = refl
stop_one-none t (x ∷ l) h = elim (Bool-cases (x == t)) [
  | inl y ↦ absurd (ground (arith, rw y at h))
  | inr n ↦ elim (Option-cases (stop_one t l)) [
    | inl left ↦ rw n (stop_one-none t l left)
    | inr (rest, found) ↦ absurd (ground (arith, rw (n, found) at h))
  ]
]

exit-own : (q : TenantQueue) (u : String) → view (exit q u) u ≡ aexit (view q u)
unfolding exit aexit
exit-own q u =
    let v = semaphore_value q u in
    elim (Option-cases (stop_one u q.running)) [
      | inl left ↦ rw (left, exit, stop_one-none u q.running left) refl
      | inr (running, found) ↦
          let counted : active q u ≡ count (λ r. r == u) running + 1 =
            stop_one-count u u q.running running found ∙ rw (self u) (omega arith) in
          let some_run : ltb 0 (active q u) ≡ true = ground (arith, counted) in
          rw (found, exit, some_run)
            (same_queue q.max_concurrency _ _ _ _
              (value-put q u u (v + 1) running ∙ rw (self u) refl) (omega (arith, counted)))
    ]

exit-other : (q : TenantQueue) (t u : String) → (t == u) ≡ false → view (exit q t) u ≡ view q u
unfolding exit
exit-other q t u n = elim (Option-cases (stop_one t q.running)) [
  | inl left ↦ rw (left, exit) refl
  | inr (running, found) ↦
      rw (found, exit)
        (same_queue q.max_concurrency _ _ _ _
          (value-put q t u (semaphore_value q t + 1) running ∙ rw n refl)
          (sym (stop_one-count t u q.running running found ∙ rw n (omega arith))))
]

enter-view :
    (q : TenantQueue) (t u : String)
    → view (enter q t).1 u ≡ (if t == u then (aenter (view q u)).1 else view q u)
enter-view q t u = elim (Bool-cases (t == u)) [
  | inl y ↦ rw (y, (string_eq.equal_iff t u).0 y) (enter-own q u)
  | inr n ↦ rw n (enter-other q t u n)
]

exit-view :
    (q : TenantQueue) (t u : String)
    → view (exit q t) u ≡ (if t == u then aexit (view q u) else view q u)
exit-view q t u = elim (Bool-cases (t == u)) [
  | inl y ↦ rw (y, (string_eq.equal_iff t u).0 y) (exit-own q u)
  | inr n ↦ rw n (exit-other q t u n)
]

run-view :
    (q : TenantQueue) (es : List Event) (u : String)
    → view (run q es) u ≡ run_global (view q u) (own u es)
unfolding run own run_global
run-view q [] u = refl
run-view q (entering t ∷ es) u = run-view (enter q t).1 es u ∙ elim (Bool-cases (t == u)) [
  | inl y ↦ rw (enter-view q t u, y) refl
  | inr n ↦ rw (enter-view q t u, n) refl
]
run-view q (exiting t ∷ es) u = run-view (exit q t) es u ∙ elim (Bool-cases (t == u)) [
  | inl y ↦ rw (exit-view q t u, y) refl
  | inr n ↦ rw (exit-view q t u, n) refl
]

-- However the tasks of the tenants come and go, each tenant finds its part of a new tenant queue as a
-- new global queue with the same limit, at which the tenant's own tasks alone came and went: no
-- tenant is held up by another's tasks.
pub run-isolated :
    (most : ℕ) (es : List Event) (u : String)
    → view (run (new_queue most) es) u ≡ run_global (new_global_queue most) (own u es)
unfolding semaphore_value
run-isolated most es u =
    run-view (new_queue most) es u
    ∙ ap (λ q. run_global q (own u es))
        (same_queue most _ _ _ _ (rw (get-empty u, semaphore_value) refl) refl)

-- ===== src/Queue/Limits.antt =====
-- TenantQueue of kenjutsu/pipeline/queue.py: the bodies of a tenant that run at once.
use kenjutsu.Base.{
  ap, subst, ltb→lt, ◌<◌, ℕ, String, true, ◌+◌, ◌-◌, ◌≡◌, refl, some, List, [], ◌∷◌, arith, count,
  ltb, ◌==◌, string_eq, if◌then◌else◌, Bool-cases, Option-cases, some_eq, inl, inr,
}
use kenjutsu.Dict.{empty, put, get-put, get-empty}
use kenjutsu.Queue.{TenantQueue, semaphore_value, enter, exit, stop_one}

-- How many bodies of the tenant run.
abbrev pub active : TenantQueue → String → ℕ
active q t = count (λ r. r == t) q.running

-- What can happen to the queue: a task comes to the start or the end of its body.
pub data Event : Type 0 where
  entering exiting : String → Event

unfoldable pub run : TenantQueue → List Event → TenantQueue
run q [] = q
run q (entering t ∷ es) = run (enter q t).1 es
run q (exiting t ∷ es) = run (exit q t) es

-- Each semaphore has the places that are not taken.
Accounted : ℕ → TenantQueue → Type 0
Accounted most q = (t : String) → active q t + semaphore_value q t ≡ most

pub value-put :
    (q : TenantQueue) (t u : String) (v : ℕ) (running : List String)
    → semaphore_value (record q { semaphores = put q.semaphores t v; running = running }) u
      ≡ (if t == u then v else semaphore_value q u)
unfolding semaphore_value
value-put q t u v running =
    rw (get-put q.semaphores t v u, semaphore_value)
      (elim (Bool-cases (t == u)) [ inl y ↦ rw y refl | inr n ↦ rw n refl ])

pub same-value :
    (q : TenantQueue) (t u : String) → (t == u) ≡ true → semaphore_value q t ≡ semaphore_value q u
same-value q t u y = ap (semaphore_value q) ((string_eq.equal_iff t u).0 y)

enter_counted :
    (most : ℕ) (q : TenantQueue) (t u : String)
    → active q u + semaphore_value q u ≡ most
    → 0 < semaphore_value q t
    → count (λ r. r == u) (t ∷ q.running)
        + semaphore_value
            (record q {
              semaphores = put q.semaphores t (semaphore_value q t - 1);
              running = t ∷ q.running;
            })
            u
      ≡ most
enter_counted most q t u h free =
    rw (value-put q t u (semaphore_value q t - 1) (t ∷ q.running)) (elim (Bool-cases (t == u)) [
      | inl y ↦ rw y (omega (arith, h, free, same-value q t u y))
      | inr n ↦ rw n h
    ])

waiting_counted :
    (most : ℕ) (q : TenantQueue) (t u : String)
    → active q u + semaphore_value q u ≡ most
    → active q u
        + semaphore_value (record q { semaphores = put q.semaphores t (semaphore_value q t) }) u
      ≡ most
waiting_counted most q t u h =
    rw (value-put q t u (semaphore_value q t) q.running) (elim (Bool-cases (t == u)) [
      | inl y ↦ rw y (omega (arith, h, same-value q t u y))
      | inr n ↦ rw n h
    ])

exit_counted :
    (most : ℕ) (q : TenantQueue) (t u : String) (running : List String)
    → active q u + semaphore_value q u ≡ most
    → active q u ≡ (if t == u then 1 else 0) + count (λ r. r == u) running
    → count (λ r. r == u) running
        + semaphore_value
            (record q {
              semaphores = put q.semaphores t (semaphore_value q t + 1);
              running = running;
            })
            u
      ≡ most
exit_counted most q t u running h e =
    rw (value-put q t u (semaphore_value q t + 1) running) (elim (Bool-cases (t == u)) [
      | inl y ↦ rw y (omega (arith, h, rw y at e, same-value q t u y))
      | inr n ↦ rw n (omega (arith, h, rw n at e))
    ])

enter-Accounted :
    (most : ℕ) (q : TenantQueue) (t : String) → Accounted most q → Accounted most (enter q t).1
unfolding enter Accounted
enter-Accounted most q t h u = elim (Bool-cases (ltb 0 (semaphore_value q t))) [
  | inl y ↦ rw y (enter_counted most q t u (h u) (ltb→lt 0 (semaphore_value q t) y))
  | inr n ↦ rw n (waiting_counted most q t u (h u))
]

pub stop_one-count :
    (t u : String) (l r : List String)
    → stop_one t l ≡ some r
    → count (λ x. x == u) l ≡ (if t == u then 1 else 0) + count (λ x. x == u) r
unfolding stop_one
stop_one-count t u [] r h = absurd (ground (arith, h))
stop_one-count t u (x ∷ l) r h = elim (Bool-cases (x == t)) [
  | inl y ↦ ground (arith, (string_eq.equal_iff x t).0 y, some_eq (rw y at h))
  | inr n ↦ elim (Option-cases (stop_one t l)) [
    | inl none_left ↦ absurd (ground (arith, rw (n, none_left) at h))
    | inr (rest, found) ↦
        let kept = some_eq (rw (n, found) at h) in
        let counted = stop_one-count t u l rest found in
        subst (λ k. count (λ y. y == u) (x ∷ l) ≡ (if t == u then 1 else 0) + count (λ y. y == u) k)
          kept (ground (arith, counted))
  ]
]

exit-Accounted :
    (most : ℕ) (q : TenantQueue) (t : String) → Accounted most q → Accounted most (exit q t)
unfolding exit Accounted
exit-Accounted most q t h u = elim (Option-cases (stop_one t q.running)) [
  | inl stopped ↦ rw (stopped, exit) (h u)
  | inr (running, found) ↦
      rw (found, exit)
        (exit_counted most q t u running (h u) (stop_one-count t u q.running running found))
]

run-Accounted :
    (most : ℕ) (q : TenantQueue) (es : List Event) → Accounted most q → Accounted most (run q es)
unfolding run
run-Accounted most q [] h = h
run-Accounted most q (entering t ∷ es) h =
    run-Accounted most (enter q t).1 es (enter-Accounted most q t h)
run-Accounted most q (exiting t ∷ es) h =
    run-Accounted most (exit q t) es (exit-Accounted most q t h)

abbrev pub new_queue : ℕ → TenantQueue
new_queue most = record { max_concurrency = most; semaphores = empty; running = [] }

-- In a new queue, however tasks come and go, a tenant's running bodies and the places that its
-- semaphore has left make up the limit: never more bodies run at once, and no place is lost.
pub run-active :
    (most : ℕ) (es : List Event) (t : String)
    → let q = run (new_queue most) es in active q t + semaphore_value q t ≡ most
unfolding Accounted semaphore_value
run-active most es =
    run-Accounted most (new_queue most) es (λ t. rw (get-empty t, semaphore_value) (omega arith))

-- ===== src/Evaluation/Percentile.antt =====
-- The latency percentiles of kenjutsu/evaluation/runner.py: order statistics of the sorted list.
use kenjutsu.Base.{
  ℕ, zero, suc, Bool, ◌-◌, ◌*◌, ◌/◌, ◌%◌, ◌≤◌, ◌<◌, min, ◌≡◌, refl, List, [], ◌∷◌, arith, length,
  count, leb, map, some, some_eq, subst, Bool-cases, inl, inr, leb→le, ◌==◌, nat_eq,
}
use kenjutsu.Evaluation.{EvalResult}
use kenjutsu.Evaluation.Metrics.{
  compute_metrics, metrics_of, EvalMetrics, insert, sorted, nth, median, percentile_95,
}

-- No time is above one further on.
Sorted : List ℕ → Type 0
Sorted l = (i j : ℕ) → i ≤ j → j < length l → nth l i ≤ nth l j

-- `n` is at most the first of the list.
Before : ℕ → List ℕ → Type 0
Before n [] = Unit
Before n (m ∷ l) = n ≤ m

Chain : List ℕ → Type 0
Chain [] = Unit
Chain (n ∷ l) = Before n l × Chain l

Before-insert : (m n : ℕ) (l : List ℕ) → m ≤ n → Before m l → Before m (insert n l)
unfolding insert Before
Before-insert m n [] h b = h
Before-insert m n (k ∷ l) h b = elim (Bool-cases (leb n k)) [ inl y ↦ rw y h | inr x ↦ rw x b ]

insert-Chain : (n : ℕ) (l : List ℕ) → Chain l → Chain (insert n l)
unfolding insert Chain Before
insert-Chain n [] c = (tt, tt)
insert-Chain n (m ∷ l) c = elim (Bool-cases (leb n m)) [
  | inl y ↦ rw y (leb→le n m y, c)
  | inr x ↦ rw x (Before-insert m n l (ground (arith, x)) c.0, insert-Chain n l c.1)
]

sorted-Chain : (l : List ℕ) → Chain (sorted l)
unfolding sorted Chain
sorted-Chain [] = tt
sorted-Chain (n ∷ l) = insert-Chain n (sorted l) (sorted-Chain l)

-- The first of a chain is at most each.
Chain-first : (n : ℕ) (l : List ℕ) → Chain (n ∷ l) → (j : ℕ) → j < length l → n ≤ nth l j
unfolding Chain Before nth
Chain-first n [] c j h = absurd (omega (arith, h))
Chain-first n (m ∷ l) c zero h = c.0
Chain-first n (m ∷ l) c (suc j) h = omega (arith, c.0, Chain-first m l c.1 j (omega (arith, h)))

Chain-Sorted : (l : List ℕ) → Chain l → Sorted l
unfolding Sorted Chain nth
Chain-Sorted [] c i j h k = omega arith
Chain-Sorted (n ∷ l) c zero zero h k = omega arith
Chain-Sorted (n ∷ l) c zero (suc j) h k = Chain-first n l c j (omega (arith, k))
Chain-Sorted (n ∷ l) c (suc i) zero h k = absurd (omega (arith, h))
Chain-Sorted (n ∷ l) c (suc i) (suc j) h k =
    Chain-Sorted l c.1 i j (omega (arith, h)) (omega (arith, k))

insert-length : (n : ℕ) (l : List ℕ) → length (insert n l) ≡ suc (length l)
unfolding insert
insert-length n [] = refl
insert-length n (m ∷ l) = ground (arith, insert-length n l)

sorted-length : (l : List ℕ) → length (sorted l) ≡ length l
unfolding sorted
sorted-length [] = refl
sorted-length (n ∷ l) = omega (arith, insert-length n (sorted l), sorted-length l)

insert-count : (p : ℕ → Bool) (n : ℕ) (l : List ℕ) → count p (insert n l) ≡ count p (n ∷ l)
unfolding insert
insert-count p n [] = refl
insert-count p n (m ∷ l) = ground (arith, insert-count p n l)

sorted-count : (p : ℕ → Bool) (l : List ℕ) → count p (sorted l) ≡ count p l
unfolding sorted
sorted-count p [] = refl
sorted-count p (n ∷ l) = ground (arith, insert-count p n (sorted l), sorted-count p l)

-- In a chain, the elements up to a place are at most the one there.
Chain-count :
    (l : List ℕ) → Chain l → (i : ℕ) → i < length l → suc i ≤ count (λ x. leb x (nth l i)) l
unfolding Chain nth
Chain-count [] c i h = absurd (omega (arith, h))
Chain-count (n ∷ l) c zero h = ground arith
Chain-count (n ∷ l) c (suc i) h =
    ground (arith, Chain-count l c.1 i (omega (arith, h)), Chain-first n l c i (omega (arith, h)))

-- At least 95% of the times, rounded down, are at most the 95th percentile.
percentile_95-count :
    (l : List ℕ)
    → 0 < length l
    → length l * 95 / 100 ≤ count (λ x. leb x (percentile_95 (sorted l))) l
unfolding percentile_95
percentile_95-count l h =
    let i = min (length (sorted l) * 95 / 100) (length (sorted l) - 1) in
    omega (
      arith,
      h,
      sorted-length l,
      sorted-count (λ x. leb x (nth (sorted l) i)) l,
      Chain-count (sorted l) (sorted-Chain l) i (omega (arith, h, sorted-length l)),
    )

-- The median is at most the 95th percentile.
median_le_percentile_95 :
    (l : List ℕ)
    → 0 < length l
    → (median (sorted l)).num ≤ percentile_95 (sorted l) * (median (sorted l)).den
unfolding median percentile_95 Sorted
median_le_percentile_95 l h =
    let n = length (sorted l) in
    let i = min (n * 95 / 100) (n - 1) in
    let upper =
      Chain-Sorted (sorted l) (sorted-Chain l) (n / 2) i (omega (arith, h, sorted-length l))
        (omega (arith, h, sorted-length l)) in
    let lower =
      Chain-Sorted (sorted l) (sorted-Chain l) (n / 2 - 1) i (omega (arith, h, sorted-length l))
        (omega (arith, h, sorted-length l)) in
    elim (Bool-cases (n % 2 == 1)) [
      | inl odd ↦ rw odd (omega (arith, upper))
      | inr even ↦ rw even (omega (arith, upper, lower))
    ]

count-map :
    {A : Type 0} (f : A → ℕ) (p : ℕ → Bool) (l : List A)
    → count p (map f l) ≡ count (λ a. p (f a)) l
count-map f p [] = refl
count-map f p (a ∷ l) = ground (arith, count-map f p l)

length-map : {A : Type 0} (f : A → ℕ) (l : List A) → length (map f l) ≡ length l
length-map f [] = refl
length-map f (a ∷ l) = omega (arith, length-map f l)

-- The latencies against the two percentiles, times being milliseconds and the percentiles seconds.
pub record Ranked (results : List EvalResult) (m : EvalMetrics) : Type 0 where
  above :
      length results * 95 / 100
      ≤ count
          (λ r. leb (r.latency_ms * m.latency_p95_seconds.den) (m.latency_p95_seconds.num * 1000))
          results
  order :
      m.latency_p50_seconds.num * m.latency_p95_seconds.den
      ≤ m.latency_p95_seconds.num * m.latency_p50_seconds.den

count_scaled :
    (t : ℕ) (results : List EvalResult)
    → count (λ r. leb r.latency_ms t) results
      ≡ count (λ r. leb (r.latency_ms * (1 * 1000)) (t * 1000)) results
count_scaled t [] = refl
count_scaled t (r ∷ rs) = ground (arith, count_scaled t rs)

-- Of the results that are aggregated, at least 95%, rounded down, have a latency of at most the
-- reported 95th percentile, and the reported median is at most that percentile.
pub compute_metrics-Ranked :
    (results : List EvalResult) (m : EvalMetrics)
    → compute_metrics results ≡ some m
    → Ranked results m
unfolding compute_metrics metrics_of
compute_metrics-Ranked [] m e = absurd (ground (arith, e))
compute_metrics-Ranked (r ∷ rs) m e =
    let times = map (λ x. x.latency_ms) (r ∷ rs) in
    let p95 = percentile_95 (sorted times) in
    let p50 = median (sorted times) in
    let some_left = length-map (λ x. x.latency_ms) (r ∷ rs) in
    let lower = percentile_95-count times (omega (arith, some_left)) in
    let order = median_le_percentile_95 times (omega (arith, some_left)) in
    subst (Ranked (r ∷ rs)) (some_eq e) (record {
      above = omega (
        arith,
        lower,
        some_left,
        count-map (λ x. x.latency_ms) (λ x. leb x p95) (r ∷ rs),
        count_scaled p95 (r ∷ rs),
      );
      order = omega (arith, order);
    })

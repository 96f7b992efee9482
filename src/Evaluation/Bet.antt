-- ===== src/Evaluation/Bet.antt =====
-- The verdict of kenjutsu/evaluation/runner.py for two runs over one corpus, in findings.
use native.Mathlib.Nat.{mul-le-mul_right}
use kenjutsu.Base.{
  ℕ, Bool, true, false, ◌*◌, ◌<◌, ◌≤◌, ◌≡◌, some, List, [], ◌∷◌, arith, ltb, sum_map, length,
  Bool-cases, ltb→lt, inl, inr, some_eq, subst, ap,
}
use kenjutsu.Evaluation.{BenchmarkPr, EvalResult}
use kenjutsu.Evaluation.Metrics.{EvalMetrics, ratio_or_zero, metrics_of, compute_metrics}
use kenjutsu.Evaluation.Display.{Display, Floats}
use kenjutsu.Evaluation.Compare.{exceeds, graph_tps, compare_variants}
use kenjutsu.Evaluation.Totals.{For, For-expected}
use kenjutsu.Evaluation.Verdict.{fraction_above, and_parts}

abbrev pub expected_findings : List BenchmarkPr → ℕ
expected_findings prs = sum_map (λ pr. length pr.expected_findings) prs

abbrev pub found : List EvalResult → ℕ
found results = sum_map (λ r. length r.true_positives) results

-- What is relied on of floats, which are rounded to the nearest: rounding keeps the order of
-- fractions; taking away a fraction does not make a float larger; where the first is not larger, the
-- difference is not above zero, so not above a fraction; and `>` is an order.
pub record IsRounding {F : Type 0} (floats : Floats F) : Type 0 where
  pub quotient_mono :
      (a b c d : ℕ)
      → 0 < b
      → 0 < d
      → a * d ≤ c * b
      → floats.greater (floats.quotient a b) (floats.quotient c d) ≡ false
  pub minus_below :
      (x : F) (a b : ℕ) → floats.greater (floats.minus x (floats.quotient a b)) x ≡ false
  pub minus_not_positive :
      (x y : F) (a b : ℕ)
      → floats.greater x y ≡ false
      → floats.greater (floats.minus x y) (floats.quotient a b) ≡ false
  pub ordered :
      (x y z : F)
      → floats.greater x z ≡ true
      → floats.greater x y ≡ false
      → floats.greater y z ≡ true

no_bool_is_both : (b : Bool) → b ≡ false → b ≡ true → ⊥
no_bool_is_both b f t = absurd (ground (arith, f, t))

module _ {F : Type 0} (floats : Floats F) (law : IsRounding floats) where
  -- A lift above its threshold, for rates of one corpus.
  lift_above :
      (a b n : ℕ)
      → exceeds floats
          (record { minuend = ratio_or_zero a n; subtrahend = ratio_or_zero b n })
          15
          100
        ≡ true
      → (b < a) × (15 * n < 100 * a)
  unfolding ratio_or_zero
  lift_above a b n h = elim (Bool-cases (ltb 0 n)) [
    | inl y ↦
        let rate = floats.quotient a n in
        let other = floats.quotient b n in
        let over : floats.greater (floats.minus rate other) (floats.quotient 15 100) ≡ true =
          rw y at h in
        let positive = ltb→lt 0 n y in
        (
          elim (Bool-cases (ltb b a)) [
            | inl more ↦ ltb→lt b a more
            | inr less ↦ absurd (
                no_bool_is_both _
                  (law.minus_not_positive rate other 15 100 (
                    law.quotient_mono a n b n positive positive
                      (mul-le-mul_right n (ground (arith, less)))))
                  over)
          ],
          elim (Bool-cases (ltb (15 * n) (100 * a))) [
            | inl more ↦ ltb→lt (15 * n) (100 * a) more
            | inr less ↦ absurd (
                no_bool_is_both _
                  (law.quotient_mono a n 15 100 positive (omega arith) (ground (arith, less)))
                  (law.ordered (floats.minus rate other) rate (floats.quotient 15 100) over
                    (law.minus_below rate b n)))
          ],
        )
    | inr z ↦
        let zero_rate = floats.quotient 0 1 in
        let over : floats.greater (floats.minus zero_rate zero_rate) (floats.quotient 15 100)
            ≡ true =
          rw z at h in
        absurd (
          no_bool_is_both _
            (law.minus_not_positive zero_rate zero_rate 15 100
              (law.quotient_mono 0 1 0 1 (omega arith) (omega arith) (omega arith)))
            over)
  ]

rate_of :
    (prs : List BenchmarkPr) (results : List EvalResult) (m : EvalMetrics)
    → For prs results
    → compute_metrics results ≡ some m
    → m.accepted_finding_rate ≡ ratio_or_zero (found results) (expected_findings prs)
unfolding compute_metrics metrics_of
rate_of prs [] m h e = absurd (ground (arith, e))
rate_of prs (r ∷ rs) m h e =
    subst (λ x. x.accepted_finding_rate ≡ ratio_or_zero (found (r ∷ rs)) (expected_findings prs))
      (some_eq e) (ap (ratio_or_zero (found (r ∷ rs))) (For-expected prs (r ∷ rs) h))

-- What a verdict to go ahead says of two runs over a corpus, in findings of its ground truth.
pub record Better (prs : List BenchmarkPr) (structural diff_only : List EvalResult) : Type 0 where
  pub finds_more : found diff_only < found structural
  pub finds_enough : 15 * expected_findings prs < 100 * found structural
  pub graph : found structural < 5 * graph_tps structural

-- If the verdict for two runs over one corpus is to go ahead, in floats that are rounded to the nearest,
-- then the structural run found more of the expected findings than the other, it found more than 15 in
-- 100 of all that are expected, and more than a fifth of what it found came from the graph.
pub compare_variants-Better :
    {F : Type 0} (floats : Floats F) (display : Display) (prs : List BenchmarkPr)
    (structural diff_only : List EvalResult) (s d : EvalMetrics)
    → IsRounding floats
    → For prs structural
    → For prs diff_only
    → compute_metrics structural ≡ some s
    → compute_metrics diff_only ≡ some d
    → (compare_variants floats display s d (some structural)).bet_a_go ≡ true
    → Better prs structural diff_only
unfolding compare_variants
compare_variants-Better floats display prs structural diff_only s d law fs fd es ed go =
    let both = and_parts _ _ go in
    let lift =
      lift_above floats law (found structural) (found diff_only) (expected_findings prs)
        (rw (← rate_of prs structural s fs es, ← rate_of prs diff_only d fd ed) both.0) in
    record { finds_more = lift.0; finds_enough = lift.1; graph = fraction_above structural both.1 }

-- ===== src/Evaluation/Rates.antt =====
-- The rates that kenjutsu/evaluation/runner.py computes are fractions between 0 and 1, in order.
use native.Mathlib.Nat.{mul-le-mul_right}
use kenjutsu.Base.{
  ℕ, ◌+◌, ◌*◌, ◌≤◌, ◌<◌, ◌≡◌, some, List, [], ◌∷◌, arith, length, count, count-le-length, sum_map,
  ltb, some_eq, subst, inl, inr, Bool-cases,
}
use kenjutsu.Finding.{Finding}
use kenjutsu.Evaluation.{BenchmarkPr, EvalResult}
use kenjutsu.Evaluation.Metrics.{
  Ratio, ratio_or_zero, is_verified, is_high_or_better, EvalMetrics, metrics_of, compute_metrics,
}
use kenjutsu.Evaluation.Totals.{For, For-produced}

sum_le :
    {A : Type 0} (f g : A → ℕ) → ((a : A) → f a ≤ g a) → (l : List A) → sum_map f l ≤ sum_map g l
sum_le f g h [] = omega arith
sum_le f g h (a ∷ l) = omega (arith, h a, sum_le f g h l)

verified_le_high : (l : List Finding) → count is_verified l ≤ count is_high_or_better l
verified_le_high [] = omega arith
verified_le_high (f ∷ l) = ground (arith, verified_le_high l)

-- `r ≤ s`, of fractions.
abbrev pub AtMost : Ratio → Ratio → Type 0
AtMost r s = r.num * s.den ≤ s.num * r.den

abbrev one : Ratio
one = record { num = 1; den = 1 }

ratio_or_zero-den : (n d : ℕ) → 0 < (ratio_or_zero n d).den
unfolding ratio_or_zero
ratio_or_zero-den n d = ground arith

ratio_or_zero-le : (m n d : ℕ) → m ≤ n → AtMost (ratio_or_zero m d) (ratio_or_zero n d)
unfolding ratio_or_zero
ratio_or_zero-le m n d h = elim (Bool-cases (ltb 0 d)) [
  | inl y ↦ rw y (mul-le-mul_right d h)
  | inr n0 ↦ rw n0 (omega arith)
]

-- The rates of a metric, as fractions.
pub record Bounded (m : EvalMetrics) : Type 0 where
  accepted : AtMost m.accepted_finding_rate one
  accepted-den : 0 < m.accepted_finding_rate.den
  verified_high : AtMost m.fp_rate_verified m.fp_rate_high_confidence
  high : AtMost m.fp_rate_high_confidence one
  high-den : 0 < m.fp_rate_high_confidence.den

ratio_or_zero-one : (n d : ℕ) → n ≤ d → AtMost (ratio_or_zero n d) one
unfolding ratio_or_zero
ratio_or_zero-one n d h = ground arith

-- For results that stand for the pull requests of a corpus, the accepted-finding rate and the rates of
-- false positives are fractions from 0 to 1, and the verified one is at most the high-confidence one.
pub compute_metrics-Bounded :
    (prs : List BenchmarkPr) (results : List EvalResult) (m : EvalMetrics)
    → For prs results
    → compute_metrics results ≡ some m
    → Bounded m
unfolding compute_metrics metrics_of
compute_metrics-Bounded prs [] m h e = absurd (ground (arith, e))
compute_metrics-Bounded prs (r ∷ rs) m h e =
    let tp = sum_map (λ s. length s.true_positives) (r ∷ rs) in
    let missed = sum_map (λ s. length s.missed) (r ∷ rs) in
    let produced = sum_map (λ s. length s.findings_produced) (r ∷ rs) in
    let fp = sum_map (λ s. length s.false_positives) (r ∷ rs) in
    let sure = sum_map (λ s. count is_verified s.false_positives) (r ∷ rs) in
    let likely = sum_map (λ s. count is_high_or_better s.false_positives) (r ∷ rs) in
    let likely_fp =
      sum_le (λ s. count is_high_or_better s.false_positives) (λ s. length s.false_positives)
        (λ s. count-le-length is_high_or_better s.false_positives) (r ∷ rs) in
    let total = For-produced prs (r ∷ rs) h in
    subst Bounded (some_eq e) (record {
      accepted = ratio_or_zero-one tp (tp + missed) (omega arith);
      accepted-den = ratio_or_zero-den tp (tp + missed);
      verified_high = ratio_or_zero-le sure likely produced (
          sum_le (λ s. count is_verified s.false_positives)
            (λ s. count is_high_or_better s.false_positives)
            (λ s. verified_le_high s.false_positives) (r ∷ rs));
      high = ratio_or_zero-one likely produced (omega (arith, likely_fp, total));
      high-den = ratio_or_zero-den likely produced;
    })

-- ===== src/Evaluation/Report/Sums.antt =====
-- What the JSON file of a report says of its corpus, for kenjutsu/evaluation/runner.py.
use kenjutsu.Base.{
  ℕ, String, true, ◌+◌, ◌*◌, ◌<◌, ◌≡◌, refl, some, List, [], ◌∷◌, map, arith, length, ltb, ltb→lt,
  sum_map, some_eq, subst, Bool-cases, inl, inr,
}
use kenjutsu.Effect.{ok}
use kenjutsu.Evaluation.{ReviewPipeline, run_eval, BenchmarkPr, EvalResult}
use kenjutsu.Evaluation.Metrics.{
  EvalMetrics, ratio_or_zero, above, metrics_of, compute_metrics, all_targets_met,
}
use kenjutsu.Evaluation.Totals.{Returns-ok, run_eval-For, For, For-produced, For-expected}
use kenjutsu.Evaluation.Bet.{expected_findings, found}
use kenjutsu.Evaluation.Verdict.{and_parts}
use kenjutsu.Evaluation.Report.{Rounding, dollars, whole}
use kenjutsu.Evaluation.Report.Summary.{PrPart, Payload, pr_part, payload}

-- The rows stand for the pull requests in their order, the counts and the tokens are the sums of the
-- rows, and the cost is that of all results, which is rounded once. Each finding that was produced is
-- a true or a false positive, and each that was expected is found or missed. Where all targets are
-- met, more than 60 in 100 of the expected findings were found.
pub record Consistent {F : Type 0} (rounding : Rounding F) (units : ℕ) (prs : List BenchmarkPr)
    (results : List EvalResult) (p : Payload F) : Type 0 where
  pub rows : map (λ r. r.pr_id) p.per_pr ≡ map (λ pr. pr.pr_id) prs
  pub pr_count : p.pr_count ≡ length p.per_pr
  pub findings_produced : p.totals.findings_produced ≡ sum_map (λ r. r.findings_produced) p.per_pr
  pub true_positives : p.totals.true_positives ≡ sum_map (λ r. r.true_positives) p.per_pr
  pub false_positives : p.totals.false_positives ≡ sum_map (λ r. r.false_positives) p.per_pr
  pub missed : p.totals.missed ≡ sum_map (λ r. r.missed) p.per_pr
  pub tokens_in : p.totals.tokens_in ≡ sum_map (λ r. r.tokens_in) p.per_pr
  pub tokens_out : p.totals.tokens_out ≡ sum_map (λ r. r.tokens_out) p.per_pr
  pub cost_usd :
      p.totals.cost_usd
      ≡ rounding.round 6 (dollars units (whole (sum_map (λ r. r.cost_usd) results)))
  pub produced : p.totals.findings_produced ≡ p.totals.true_positives + p.totals.false_positives
  pub expected : p.totals.true_positives + p.totals.missed ≡ expected_findings prs
  pub met : p.targets.all_met ≡ true → 60 * expected_findings prs < 100 * p.totals.true_positives

-- The test of a rate, with its denominator taken out.
above_60 : (a n : ℕ) → above (ratio_or_zero a n) 60 100 ≡ true → 60 * n < 100 * a
unfolding ratio_or_zero
above_60 a n h = elim (Bool-cases (ltb 0 n)) [
  | inl y ↦ omega (arith, ltb→lt (60 * n) (a * 100) (rw y at h))
  | inr z ↦ absurd (omega (arith, ltb→lt (60 * 1) (0 * 100) (rw z at h)))
]

met_above : (m : EvalMetrics) → all_targets_met m ≡ true → m.meets_accepted_finding_target ≡ true
met_above m h = (and_parts _ _ (and_parts _ _ h).1).0

module _ {F : Type 0} (rounding : Rounding F) (units : ℕ) where
  -- A total over the results is the total over their rows.
  sum_map-pr_part :
      (g : PrPart F → ℕ) (rs : List EvalResult)
      → sum_map (λ r. g (pr_part rounding units r)) rs ≡ sum_map g (map (pr_part rounding units) rs)
  sum_map-pr_part g [] = refl
  sum_map-pr_part g (r ∷ rs) = omega (arith, sum_map-pr_part g rs)

  length-pr_part : (rs : List EvalResult) → length rs ≡ length (map (pr_part rounding units) rs)
  length-pr_part [] = refl
  length-pr_part (r ∷ rs) = omega (arith, length-pr_part rs)

  rows_of :
      (prs : List BenchmarkPr) (rs : List EvalResult)
      → For prs rs
      → map (λ r. r.pr_id) (map (pr_part rounding units) rs) ≡ map (λ pr. pr.pr_id) prs
  unfolding For
  rows_of [] [] h = refl
  rows_of [] (r ∷ rs) h = absurd h
  rows_of (pr ∷ prs) [] h = absurd h
  rows_of (pr ∷ prs) (r ∷ rs) h = rw (h.0.pr_id, rows_of prs rs h.1) refl

  payload-For :
      (prs : List BenchmarkPr) (results : List EvalResult) (m : EvalMetrics) (time : String)
      → For prs results
      → compute_metrics results ≡ some m
      → Consistent rounding units prs results (payload rounding units m results time)
  unfolding compute_metrics metrics_of payload
  payload-For prs [] m time h e = absurd (ground (arith, e))
  payload-For prs (r ∷ rs) m time h e =
      subst (λ m. Consistent rounding units prs (r ∷ rs) (payload rounding units m (r ∷ rs) time))
        (some_eq e)
        (record {
          rows = rows_of prs (r ∷ rs) h;
          pr_count = length-pr_part (r ∷ rs);
          findings_produced = sum_map-pr_part (λ r. r.findings_produced) (r ∷ rs);
          true_positives = sum_map-pr_part (λ r. r.true_positives) (r ∷ rs);
          false_positives = sum_map-pr_part (λ r. r.false_positives) (r ∷ rs);
          missed = sum_map-pr_part (λ r. r.missed) (r ∷ rs);
          tokens_in = sum_map-pr_part (λ r. r.tokens_in) (r ∷ rs);
          tokens_out = sum_map-pr_part (λ r. r.tokens_out) (r ∷ rs);
          cost_usd = refl;
          produced = For-produced prs (r ∷ rs) h;
          expected = For-expected prs (r ∷ rs) h;
          met = λ all. rw (← For-expected prs (r ∷ rs) h) (
              above_60 (found (r ∷ rs)) (found (r ∷ rs) + sum_map (λ r. length r.missed) (r ∷ rs))
                (met_above (metrics_of r (r ∷ rs)) all));
        })

  -- The JSON file of a run over a corpus that returned, whatever the pipeline finds: its rows stand
  -- for the pull requests of the corpus, in their order, its counts and tokens are the sums of its
  -- rows, and its cost is that of all results, rounded once. It counts each produced finding as a true
  -- or a false positive and each expected one as found or missed, and where it says that all targets
  -- are met, more than 60 in 100 of the expected findings were found.
  pub payload-Consistent :
      {E W : Type 0} (pipeline : ReviewPipeline E W) (variant : String) (prs : List BenchmarkPr)
      (w : W) (results : List EvalResult) (m : EvalMetrics) (time : String)
      → (run_eval pipeline variant prs w).0 ≡ ok results
      → compute_metrics results ≡ some m
      → Consistent rounding units prs results (payload rounding units m results time)
  payload-Consistent pipeline variant prs w results m time ran e =
      payload-For prs results m time
        (Returns-ok (For prs) (run_eval pipeline variant prs w)
          (run_eval-For pipeline variant prs w) results ran)
        e

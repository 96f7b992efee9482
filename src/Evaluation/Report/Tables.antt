-- ===== src/Evaluation/Report/Tables.antt =====
-- The tables in the reports of kenjutsu/evaluation/runner.py.
use Prim.Native.Char.{code}
use Prim.Native.String.{[] as empty, ◌∷◌ as ◌▸◌}
use Prim.Native.String.{◌++◌ as cat}
use Prim.Native.String.append
use kenjutsu.Base.{
  ℕ, length, String, Bool, true, false, ◌+◌, ◌≡◌, refl, List, [], ◌∷◌, map, arith, sum_map, All,
  ◌==◌, nat_eq, if◌then◌else◌,
}
use kenjutsu.Evaluation.{EvalResult}
use kenjutsu.Evaluation.Display.{Difference, Display, concat, mark}
use kenjutsu.Evaluation.Metrics.{Ratio, EvalMetrics}
use kenjutsu.Evaluation.Report.{dollars, whole}
use kenjutsu.Evaluation.Report.Summary.{
  metrics_table, totals_table, cost_table, results_table, metric_row, value_row, pr_row,
}

-- How many bars a text has.
unfoldable pub bars : String → ℕ
bars empty = 0
bars (c ▸ s) = (if code c == 124 then 1 else 0) + bars s

bars-cat : (s t : String) → bars (cat s t) ≡ bars s + bars t
unfolding bars
bars-cat empty t = rw (append.nil t) (omega arith)
bars-cat (c ▸ s) t = rw (append.cons c s t, bars-cat s t) (omega arith)

pub bars-concat : (ss : List String) → bars (concat ss) ≡ sum_map bars ss
unfolding bars
bars-concat [] = refl
bars-concat (s ∷ ss) = rw (bars-cat s (concat ss), bars-concat ss) refl

-- A row of `n` cells has a bar before each of them and one after the last.
abbrev pub Row : ℕ → String → Type 0
Row n row = bars row ≡ n + 1

-- Python writes a number without a bar.
pub record IsPlain (display : Display) : Type 0 where
  pub str : (n : ℕ) → bars (display.str n) ≡ 0
  pub thousands : (n : ℕ) → bars (display.thousands n) ≡ 0
  pub fixed : (d : ℕ) (v : Ratio) → bars (display.fixed d v) ≡ 0
  pub percent : (d : ℕ) (v : Ratio) → bars (display.percent d v) ≡ 0
  pub fixed_lift : (d : ℕ) (v : Difference) → bars (display.fixed_lift d v) ≡ 0
  pub percent_lift : (d : ℕ) (v : Difference) → bars (display.percent_lift d v) ≡ 0

pub bars-mark : (b : Bool) → bars (mark b) ≡ 0
unfolding bars
bars-mark true = refl
bars-mark false = refl

module _ (display : Display) (plain : IsPlain display) (units : ℕ) where
  metric_row-Row :
      (name value target : String) (passed : Bool)
      → bars name ≡ 0
      → bars value ≡ 0
      → bars target ≡ 0
      → Row 4 (metric_row display units name value target passed)
  unfolding bars
  metric_row-Row name value target passed n v t =
      rw
        (bars-concat
          ("| " ∷ name ∷ " | " ∷ value ∷ " | " ∷ target ∷ " | " ∷ mark passed ∷ " |" ∷ []))
        (omega (arith, n, v, t, bars-mark passed))

  value_row-Row :
      (name value : String)
      → bars name ≡ 0
      → bars value ≡ 0
      → Row 2 (value_row display units name value)
  unfolding bars
  value_row-Row name value n v =
      rw (bars-concat ("| " ∷ name ∷ " | " ∷ value ∷ " |" ∷ [])) (omega (arith, n, v))

  pr_row-Row : (r : EvalResult) → bars r.pr_id ≡ 0 → Row 6 (pr_row display units r)
  unfolding bars
  pr_row-Row r h =
      rw
        (bars-concat (
          "| "
          ∷ r.pr_id
          ∷ " | "
          ∷ display.str (length r.findings_produced)
          ∷ " | "
          ∷ display.str (length r.true_positives)
          ∷ " | "
          ∷ display.str (length r.false_positives)
          ∷ " | "
          ∷ display.str (length r.missed)
          ∷ " | "
          ∷ display.str r.latency_ms
          ∷ "ms |"
          ∷ []))
        (omega (
          arith,
          h,
          plain.str (length r.findings_produced),
          plain.str (length r.true_positives),
          plain.str (length r.false_positives),
          plain.str (length r.missed),
          plain.str r.latency_ms,
        ))

  results_rows :
      (results : List EvalResult)
      → All (λ r. bars r.pr_id ≡ 0) results
      → All (Row 6) (map (pr_row display units) results)
  results_rows [] h = tt
  results_rows (r ∷ rs) h = (pr_row-Row r h.0, results_rows rs h.1)

  value-unit :
      (value unit : String) → bars value ≡ 0 → bars unit ≡ 0 → bars (concat (value ∷ unit ∷ [])) ≡ 0
  unfolding bars
  value-unit value unit v u = rw (bars-concat (value ∷ unit ∷ [])) (omega (arith, v, u))

  metrics_table-Row : (m : EvalMetrics) → All (Row 4) (metrics_table display units m)
  unfolding metrics_table bars
  metrics_table-Row m = (
    refl,
    (
      refl,
      (
        metric_row-Row _ _ _ m.meets_comments_per_pr_target refl
            (plain.fixed 1 m.comments_per_pr_defects) refl,
        (
          metric_row-Row _ _ _ m.meets_accepted_finding_target refl
              (plain.percent 1 m.accepted_finding_rate) refl,
          (
            metric_row-Row _ _ _ m.meets_fp_verified_target refl
                (plain.percent 2 m.fp_rate_verified) refl,
            (
              metric_row-Row _ _ _ m.meets_fp_high_confidence_target refl
                  (plain.percent 2 m.fp_rate_high_confidence) refl,
              (
                metric_row-Row _ _ _ m.meets_latency_p50_target refl
                    (value-unit _ "s" (plain.fixed 1 m.latency_p50_seconds) refl) refl,
                (
                  metric_row-Row _ _ _ m.meets_latency_p95_target refl
                      (value-unit _ "s" (plain.fixed 1 m.latency_p95_seconds) refl) refl,
                  tt,
                ),
              ),
            ),
          ),
        ),
      ),
    ),
  )

  totals_table-Row : (m : EvalMetrics) → All (Row 2) (totals_table display units m)
  unfolding totals_table bars
  totals_table-Row m = (
    refl,
    (
      refl,
      (
        value_row-Row _ _ refl (plain.str m.total_findings_produced),
        (
          value_row-Row _ _ refl (plain.str m.total_true_positives),
          (
            value_row-Row _ _ refl (plain.str m.total_false_positives),
            (value_row-Row _ _ refl (plain.str m.total_missed), tt),
          ),
        ),
      ),
    ),
  )

  cost_table-Row : (m : EvalMetrics) → All (Row 2) (cost_table display units m)
  unfolding cost_table bars
  cost_table-Row m = (
    refl,
    (
      refl,
      (
        value_row-Row _ _ refl (plain.thousands m.total_tokens_in),
        (
          value_row-Row _ _ refl (plain.thousands m.total_tokens_out),
          (
            value_row-Row _ _ refl
                (value-unit "$" _ refl (plain.fixed 4 (dollars units (whole m.total_cost_usd)))),
            (
              value_row-Row _ _ refl
                  (value-unit "$" _ refl (plain.fixed 4 (dollars units m.avg_cost_per_pr_usd))),
              tt,
            ),
          ),
        ),
      ),
    ),
  )

  -- Where numbers are written without a bar, and the ids of the pull requests have none, each row of
  -- the four tables of a report, its heads included, has as many cells as the head of its table.
  pub tables-Row :
      (m : EvalMetrics) (results : List EvalResult)
      → All (λ r. bars r.pr_id ≡ 0) results
      → All (Row 4) (metrics_table display units m)
        × All (Row 2) (totals_table display units m)
        × All (Row 2) (cost_table display units m)
        × All (Row 6) (results_table display units results)
  unfolding results_table bars
  tables-Row m results h = (
    metrics_table-Row m,
    totals_table-Row m,
    cost_table-Row m,
    (refl, (refl, results_rows results h)),
  )

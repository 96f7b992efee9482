-- ===== src/Evaluation/Report/Columns.antt =====
-- The tables in the comparison report of kenjutsu/evaluation/runner.py.
use kenjutsu.Base.{
  ℕ, String, ◌≡◌, refl, List, [], ◌∷◌, map, arith, All, ◌==◌, string_eq, if◌then◌else◌, Option,
  Bool-cases, inl, inr,
}
use kenjutsu.Evaluation.{EvalResult}
use kenjutsu.Evaluation.Display.{Display, Floats, concat}
use kenjutsu.Evaluation.Metrics.{Ratio, EvalMetrics, above}
use kenjutsu.Evaluation.Compare.{
  MetricComparison, ComparisonReport, compare_variants, exceeds, lift_threshold,
  graph_fraction_threshold,
}
use kenjutsu.Evaluation.Report.Summary.{metrics_table, totals_table, cost_table, results_table}
use kenjutsu.Evaluation.Report.Comparison.{
  comparison_table, threshold_table, comparison_row, cells, value_text, delta, is_gain,
}
use kenjutsu.Evaluation.Report.Tables.{tables-Row, bars, bars-concat, bars-mark, Row, IsPlain}

module _ {F : Type 0} (floats : Floats F) (display : Display) (plain : IsPlain display) where
  cells-Row :
      (a b c d : String)
      → bars a ≡ 0
      → bars b ≡ 0
      → bars c ≡ 0
      → bars d ≡ 0
      → Row 4 (cells display a b c d)
  unfolding bars
  cells-Row a b c d p q r s =
      rw (bars-concat ("| " ∷ a ∷ " | " ∷ b ∷ " | " ∷ c ∷ " | " ∷ d ∷ " |" ∷ []))
        (omega (arith, p, q, r, s))

  bars-value_text :
      (c : MetricComparison) (v : Ratio) → bars c.unit ≡ 0 → bars (value_text display c v) ≡ 0
  unfolding bars
  bars-value_text c v u = elim (Bool-cases (c.unit == "%")) [
    | inl y ↦ rw y (plain.percent 1 v)
    | inr n ↦
        rw (n, bars-concat (display.fixed 1 v ∷ c.unit ∷ [])) (omega (arith, u, plain.fixed 1 v))
  ]

  bars-sign : (c : MetricComparison) → bars (if is_gain c.lift then "+" else "") ≡ 0
  unfolding bars
  bars-sign c = elim (Bool-cases (is_gain c.lift)) [ inl y ↦ rw y refl | inr n ↦ rw n refl ]

  bars-delta : (c : MetricComparison) → bars c.unit ≡ 0 → bars (delta display c) ≡ 0
  unfolding delta bars
  bars-delta c u =
      let sign : String = if is_gain c.lift then "+" else "" in
      elim (Bool-cases (c.unit == "%")) [
        | inl y ↦
            rw (y, bars-concat (sign ∷ display.percent_lift 1 c.lift ∷ []))
              (omega (arith, bars-sign c, plain.percent_lift 1 c.lift))
        | inr n ↦
            rw (n, bars-concat (sign ∷ display.fixed_lift 1 c.lift ∷ c.unit ∷ []))
              (omega (arith, u, bars-sign c, plain.fixed_lift 1 c.lift))
      ]

  comparison_row-Row :
      (c : MetricComparison)
      → bars c.metric ≡ 0
      → bars c.unit ≡ 0
      → Row 4 (comparison_row display c)
  comparison_row-Row c m u =
      cells-Row c.metric (value_text display c c.diff_only) (value_text display c c.structural)
        (delta display c) m (bars-value_text c c.diff_only u) (bars-value_text c c.structural u)
        (bars-delta c u)

  bars-over : (v : Ratio) → bars (concat ("> " ∷ display.percent 1 v ∷ [])) ≡ 0
  unfolding bars
  bars-over v =
      rw (bars-concat ("> " ∷ display.percent 1 v ∷ [])) (omega (arith, plain.percent 1 v))

  threshold_table-Row :
      (report : ComparisonReport) → All (Row 4) (threshold_table floats display report)
  unfolding threshold_table bars
  threshold_table-Row report = (
    refl,
    (
      refl,
      (
        cells-Row _ _ _ _ refl (plain.percent_lift 1 report.accepted_finding_lift)
            (bars-over lift_threshold)
            (bars-mark
              (exceeds floats report.accepted_finding_lift lift_threshold.num lift_threshold.den)),
        (
          cells-Row _ _ _ _ refl (plain.percent 1 report.graph_origin_fraction)
              (bars-over graph_fraction_threshold)
              (bars-mark (
                above report.graph_origin_fraction graph_fraction_threshold.num
                  graph_fraction_threshold.den)),
          tt,
        ),
      ),
    ),
  )

  comparison_rows :
      (cs : List MetricComparison)
      → All (λ c. (bars c.metric ≡ 0) × (bars c.unit ≡ 0)) cs
      → All (Row 4) (map (comparison_row display) cs)
  comparison_rows [] h = tt
  comparison_rows (c ∷ cs) h = (comparison_row-Row c h.0.0 h.0.1, comparison_rows cs h.1)

  -- Where numbers are written without a bar, each row of the two tables of a comparison report, their
  -- heads included, has four cells.
  pub compare_variants-Row :
      (s d : EvalMetrics) (results : Option (List EvalResult))
      → All (Row 4) (comparison_table display (compare_variants floats display s d results))
        × All (Row 4) (threshold_table floats display (compare_variants floats display s d results))
  unfolding comparison_table compare_variants bars
  compare_variants-Row s d results =
      let report = compare_variants floats display s d results in
      let plain_names : All (λ c. (bars c.metric ≡ 0) × (bars c.unit ≡ 0)) report.comparisons =
        ((refl, refl), ((refl, refl), ((refl, refl), ((refl, refl), ((refl, refl), tt))))) in
      ((refl, (refl, comparison_rows report.comparisons plain_names)), threshold_table-Row report)

  -- Where numbers are written without a bar, each row of the tables of both reports, their heads
  -- included, has as many cells as the head of its table: four for the metrics of a report, two for its
  -- totals and its costs, six for its results where no id of a pull request has a bar, and four for
  -- both tables of a comparison.
  pub reports-Row :
      (units : ℕ) (m : EvalMetrics) (results : List EvalResult)
      → All (λ r. bars r.pr_id ≡ 0) results
      → (s d : EvalMetrics) (structural : Option (List EvalResult))
      → (All (Row 4) (metrics_table display units m)
          × All (Row 2) (totals_table display units m)
          × All (Row 2) (cost_table display units m)
          × All (Row 6) (results_table display units results))
        × (All (Row 4) (comparison_table display (compare_variants floats display s d structural))
            × All
                (Row 4)
                (threshold_table floats display (compare_variants floats display s d structural)))
  reports-Row units m results ids s d structural =
      (tables-Row display plain units m results ids, compare_variants-Row s d structural)

-- ===== src/Evaluation/Report/Comparison.antt =====
-- `write_comparison_report` of kenjutsu/evaluation/runner.py.
use kenjutsu.Base.{
  ℕ, String, Bool, List, [], ◌∷◌, ◌++◌, ◌*◌, map, leb, ◌==◌, string_eq, if◌then◌else◌,
}
use kenjutsu.Effect.{Exec}
use kenjutsu.Evaluation.Metrics.{Ratio, EvalMetrics, above}
use kenjutsu.Evaluation.Display.{Difference, Display, Floats, concat, mark}
use kenjutsu.Evaluation.Compare.{
  MetricComparison, ComparisonReport, exceeds, lift_threshold, graph_fraction_threshold,
}
use kenjutsu.Evaluation.Report.{OsError, Disk, Rounding, write_files}

pub record BetPart (F : Type 0) : Type 0 where
  pub go : Bool
  pub reason : String
  pub accepted_finding_lift : F
  pub graph_origin_fraction : F
  pub lift_threshold : Ratio
  pub graph_fraction_threshold : Ratio

pub record MetricPart (F : Type 0) : Type 0 where
  pub metric : String
  pub diff_only : F
  pub structural : F
  pub lift : F
  pub unit : String

pub record ComparisonPayload (F : Type 0) : Type 0 where
  pub generated_at : String
  pub bet_a : BetPart F
  pub metrics : List (MetricPart F)
  pub structural_pr_count : ℕ
  pub diff_only_pr_count : ℕ

module _ {F : Type 0} (rounding : Rounding F) where
  abbrev metric_part : MetricComparison → MetricPart F
  metric_part c = record {
    metric = c.metric;
    diff_only = rounding.round 4 c.diff_only;
    structural = rounding.round 4 c.structural;
    lift = rounding.round_lift 4 c.lift;
    unit = c.unit;
  }

  unfoldable pub comparison_payload :
      ComparisonReport → EvalMetrics → EvalMetrics → String → ComparisonPayload F
  comparison_payload report structural diff_only time = record {
    generated_at = time;
    bet_a = record {
      go = report.bet_a_go;
      reason = report.bet_a_reason;
      accepted_finding_lift = rounding.round_lift 4 report.accepted_finding_lift;
      graph_origin_fraction = rounding.round 4 report.graph_origin_fraction;
      lift_threshold = lift_threshold;
      graph_fraction_threshold = graph_fraction_threshold;
    };
    metrics = map metric_part report.comparisons;
    structural_pr_count = structural.pr_count;
    diff_only_pr_count = diff_only.pr_count;
  }

-- `c.lift >= 0`
abbrev pub is_gain : Difference → Bool
is_gain d = leb (d.subtrahend.num * d.minuend.den) (d.minuend.num * d.subtrahend.den)

module _ (display : Display) where
  abbrev pub value_text : MetricComparison → Ratio → String
  value_text c v =
      if c.unit == "%" then display.percent 1 v else concat (display.fixed 1 v ∷ c.unit ∷ [])

  -- `_delta`
  unfoldable pub delta : MetricComparison → String
  delta c =
      let sign = if is_gain c.lift then "+" else "" in
      if c.unit == "%"
      then concat (sign ∷ display.percent_lift 1 c.lift ∷ [])
      else concat (sign ∷ display.fixed_lift 1 c.lift ∷ c.unit ∷ [])

  abbrev pub cells : String → String → String → String → String
  cells a b c d = concat ("| " ∷ a ∷ " | " ∷ b ∷ " | " ∷ c ∷ " | " ∷ d ∷ " |" ∷ [])

  abbrev pub comparison_row : MetricComparison → String
  comparison_row c = cells c.metric (value_text c c.diff_only) (value_text c c.structural) (delta c)

  unfoldable pub comparison_table : ComparisonReport → List String
  comparison_table report =
      "| Metric | Diff-Only | Structural | Lift |"
      ∷ "|--------|-----------|------------|------|"
      ∷ map comparison_row report.comparisons

  abbrev over : Ratio → String
  over threshold = concat ("> " ∷ display.percent 1 threshold ∷ [])

module _ {F : Type 0} (floats : Floats F) (display : Display) where
  unfoldable pub threshold_table : ComparisonReport → List String
  threshold_table report =
      "| Criterion | Value | Threshold | Met |"
      ∷ "|-----------|-------|-----------|-----|"
      ∷ cells display "Accepted-finding lift" (display.percent_lift 1 report.accepted_finding_lift)
          (over display lift_threshold)
          (mark (exceeds floats report.accepted_finding_lift lift_threshold.num lift_threshold.den))
      ∷ cells display "Graph-origin fraction of accepted"
          (display.percent 1 report.graph_origin_fraction) (over display graph_fraction_threshold)
          (mark (
            above report.graph_origin_fraction graph_fraction_threshold.num
              graph_fraction_threshold.den))
      ∷ []

  unfoldable pub comparison_lines : ComparisonReport → String → List String
  comparison_lines report time =
      ("# Bet A Evaluation Results — Structural vs Diff-Only"
        ∷ ""
        ∷ concat ("Generated: " ∷ time ∷ [])
        ∷ ""
        ∷ concat ("## Verdict: " ∷ (if report.bet_a_go then "GO ✅" else "NO-GO ❌") ∷ [])
        ∷ ""
        ∷ concat ("_" ∷ report.bet_a_reason ∷ "_" ∷ [])
        ∷ ""
        ∷ "## Metric Comparison"
        ∷ ""
        ∷ comparison_table display report)
      ++ ("" ∷ "## Bet A Thresholds" ∷ "" ∷ threshold_table report)

abbrev pub comparison_stem : String → String
comparison_stem time = concat ("comparison_structural_vs_diff_only_" ∷ time ∷ [])

module _ {F W : Type 0} (disk : Disk W) (floats : Floats F) (rounding : Rounding F)
    (display : Display) (dumps : ComparisonPayload F → String) where
  unfoldable pub write_comparison_report :
      ComparisonReport → EvalMetrics → EvalMetrics → String → Exec OsError W (String × String)
  write_comparison_report report structural diff_only output_dir =
      write_files disk output_dir comparison_stem
        (λ time. dumps (comparison_payload rounding report structural diff_only time))
        (λ time. comparison_lines floats display report time)

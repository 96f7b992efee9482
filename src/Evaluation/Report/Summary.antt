-- ===== src/Evaluation/Report/Summary.antt =====
-- `write_report` of kenjutsu/evaluation/runner.py.
use kenjutsu.Base.{ℕ, String, Bool, List, [], ◌∷◌, ◌++◌, map, length, if◌then◌else◌}
use kenjutsu.Effect.{Exec}
use kenjutsu.Evaluation.{EvalResult}
use kenjutsu.Evaluation.Metrics.{Ratio, EvalMetrics, all_targets_met}
use kenjutsu.Evaluation.Display.{Display, concat, mark}
use kenjutsu.Evaluation.Report.{OsError, Disk, Rounding, dollars, whole, write_files}

-- The dicts of the JSON file, by their keys.
pub record MetricsPart (F : Type 0) : Type 0 where
  pub comments_per_pr_defects : F
  pub accepted_finding_rate : F
  pub fp_rate_verified : F
  pub fp_rate_high_confidence : F
  pub latency_p50_seconds : F
  pub latency_p95_seconds : F

pub record TargetsPart : Type 0 where
  pub comments_per_pr_defects : Bool
  pub accepted_finding_rate : Bool
  pub fp_rate_verified : Bool
  pub fp_rate_high_confidence : Bool
  pub latency_p50 : Bool
  pub latency_p95 : Bool
  pub all_met : Bool

pub record TotalsPart (F : Type 0) : Type 0 where
  pub findings_produced : ℕ
  pub true_positives : ℕ
  pub false_positives : ℕ
  pub missed : ℕ
  pub tokens_in : ℕ
  pub tokens_out : ℕ
  pub cost_usd : F
  pub avg_cost_per_pr_usd : F

pub record PrPart (F : Type 0) : Type 0 where
  pub pr_id : String
  pub findings_produced : ℕ
  pub true_positives : ℕ
  pub false_positives : ℕ
  pub missed : ℕ
  pub latency_ms : ℕ
  pub tokens_in : ℕ
  pub tokens_out : ℕ
  pub cost_usd : F

pub record Payload (F : Type 0) : Type 0 where
  pub variant : String
  pub generated_at : String
  pub pr_count : ℕ
  pub metrics : MetricsPart F
  pub targets : TargetsPart
  pub totals : TotalsPart F
  pub per_pr : List (PrPart F)

module _ {F : Type 0} (rounding : Rounding F) (units : ℕ) where
  abbrev pub metrics_part : EvalMetrics → MetricsPart F
  metrics_part m = record {
    comments_per_pr_defects = rounding.round 2 m.comments_per_pr_defects;
    accepted_finding_rate = rounding.round 4 m.accepted_finding_rate;
    fp_rate_verified = rounding.round 4 m.fp_rate_verified;
    fp_rate_high_confidence = rounding.round 4 m.fp_rate_high_confidence;
    latency_p50_seconds = rounding.round 2 m.latency_p50_seconds;
    latency_p95_seconds = rounding.round 2 m.latency_p95_seconds;
  }

  abbrev pub targets_part : EvalMetrics → TargetsPart
  targets_part m = record {
    comments_per_pr_defects = m.meets_comments_per_pr_target;
    accepted_finding_rate = m.meets_accepted_finding_target;
    fp_rate_verified = m.meets_fp_verified_target;
    fp_rate_high_confidence = m.meets_fp_high_confidence_target;
    latency_p50 = m.meets_latency_p50_target;
    latency_p95 = m.meets_latency_p95_target;
    all_met = all_targets_met m;
  }

  abbrev pub totals_part : EvalMetrics → TotalsPart F
  totals_part m = record {
    findings_produced = m.total_findings_produced;
    true_positives = m.total_true_positives;
    false_positives = m.total_false_positives;
    missed = m.total_missed;
    tokens_in = m.total_tokens_in;
    tokens_out = m.total_tokens_out;
    cost_usd = rounding.round 6 (dollars units (whole m.total_cost_usd));
    avg_cost_per_pr_usd = rounding.round 6 (dollars units m.avg_cost_per_pr_usd);
  }

  abbrev pub pr_part : EvalResult → PrPart F
  pr_part r = record {
    pr_id = r.pr_id;
    findings_produced = length r.findings_produced;
    true_positives = length r.true_positives;
    false_positives = length r.false_positives;
    missed = length r.missed;
    latency_ms = r.latency_ms;
    tokens_in = r.tokens_in;
    tokens_out = r.tokens_out;
    cost_usd = rounding.round 6 (dollars units (whole r.cost_usd));
  }

  unfoldable pub payload : EvalMetrics → List EvalResult → String → Payload F
  payload m results time = record {
    variant = m.variant;
    generated_at = time;
    pr_count = m.pr_count;
    metrics = metrics_part m;
    targets = targets_part m;
    totals = totals_part m;
    per_pr = map pr_part results;
  }

module _ (display : Display) (units : ℕ) where
  abbrev pub metric_row : String → String → String → Bool → String
  metric_row name value target passed =
      concat ("| " ∷ name ∷ " | " ∷ value ∷ " | " ∷ target ∷ " | " ∷ mark passed ∷ " |" ∷ [])

  abbrev pub value_row : String → String → String
  value_row name value = concat ("| " ∷ name ∷ " | " ∷ value ∷ " |" ∷ [])

  abbrev pub pr_row : EvalResult → String
  pr_row r = concat (
      "| "
      ∷ r.pr_id
      ∷ " | "
      ∷ display.str (length r.findings_produced)
      ∷ " | "
      ∷ display.str (length r.true_positives)
      ∷ " | "
      ∷ display.str (length r.false_positives)
      ∷ " | "
      ∷ display.str (length r.missed)
      ∷ " | "
      ∷ display.str r.latency_ms
      ∷ "ms |"
      ∷ [])

  -- The four tables, each with its head.
  unfoldable pub metrics_table : EvalMetrics → List String
  metrics_table m =
      "| Metric | Value | Target | Status |"
      ∷ "|--------|-------|--------|--------|"
      ∷ metric_row "Comments/PR (defects)" (display.fixed 1 m.comments_per_pr_defects) "< 8"
          m.meets_comments_per_pr_target
      ∷ metric_row "Accepted-finding rate" (display.percent 1 m.accepted_finding_rate) "> 60%"
          m.meets_accepted_finding_target
      ∷ metric_row "FP rate (verified)" (display.percent 2 m.fp_rate_verified) "< 1%"
          m.meets_fp_verified_target
      ∷ metric_row "FP rate (high confidence)" (display.percent 2 m.fp_rate_high_confidence) "< 10%"
          m.meets_fp_high_confidence_target
      ∷ metric_row "Latency P50" (concat (display.fixed 1 m.latency_p50_seconds ∷ "s" ∷ [])) "< 30s"
          m.meets_latency_p50_target
      ∷ metric_row "Latency P95" (concat (display.fixed 1 m.latency_p95_seconds ∷ "s" ∷ [])) "< 60s"
          m.meets_latency_p95_target
      ∷ []

  unfoldable pub totals_table : EvalMetrics → List String
  totals_table m =
      "| | Count |"
      ∷ "|--|-------|"
      ∷ value_row "Total produced" (display.str m.total_findings_produced)
      ∷ value_row "True positives" (display.str m.total_true_positives)
      ∷ value_row "False positives" (display.str m.total_false_positives)
      ∷ value_row "Missed" (display.str m.total_missed)
      ∷ []

  abbrev in_dollars : Ratio → String
  in_dollars cost = concat ("$" ∷ display.fixed 4 (dollars units cost) ∷ [])

  unfoldable pub cost_table : EvalMetrics → List String
  cost_table m =
      "| | Value |"
      ∷ "|--|-------|"
      ∷ value_row "Tokens in" (display.thousands m.total_tokens_in)
      ∷ value_row "Tokens out" (display.thousands m.total_tokens_out)
      ∷ value_row "Total cost" (in_dollars (whole m.total_cost_usd))
      ∷ value_row "Avg cost/PR" (in_dollars m.avg_cost_per_pr_usd)
      ∷ []

  unfoldable pub results_table : List EvalResult → List String
  results_table results =
      "| PR | Produced | TP | FP | Missed | Latency |"
      ∷ "|----|----------|----|----|--------|---------|"
      ∷ map pr_row results

  unfoldable pub report_lines : EvalMetrics → List EvalResult → String → List String
  report_lines m results time =
      (concat ("# Kenjutsu Evaluation Report — `" ∷ m.variant ∷ "`" ∷ [])
        ∷ ""
        ∷ concat ("Generated: " ∷ time ∷ "  |  PRs evaluated: " ∷ display.str m.pr_count ∷ [])
        ∷ ""
        ∷ "## Appendix D Metrics"
        ∷ ""
        ∷ metrics_table m)
      ++ (""
          ∷ concat (
              "**Overall:** "
              ∷ (if all_targets_met m then "All targets met ✅" else "Some targets missed ❌")
              ∷ [])
          ∷ ""
          ∷ "## Finding Totals"
          ∷ ""
          ∷ totals_table m)
      ++ ("" ∷ "## Cost & Tokens" ∷ "" ∷ cost_table m)
      ++ ("" ∷ "## Per-PR Results" ∷ "" ∷ results_table results)

abbrev pub report_stem : EvalMetrics → String → String
report_stem m time = concat ("eval_" ∷ m.variant ∷ "_" ∷ time ∷ [])

module _ {F W : Type 0} (disk : Disk W) (rounding : Rounding F) (display : Display) (units : ℕ)
    (dumps : Payload F → String) where
  unfoldable pub write_report :
      EvalMetrics → List EvalResult → String → Exec OsError W (String × String)
  write_report m results output_dir =
      write_files disk output_dir (report_stem m)
        (λ time. dumps (payload rounding units m results time))
        (λ time. report_lines display units m results time)

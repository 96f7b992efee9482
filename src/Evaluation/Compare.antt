-- ===== src/Evaluation/Compare.antt =====
-- `compare_variants` of kenjutsu/evaluation/runner.py. A lift is a difference of two fractions, which
-- may be negative, so it is kept as the pair.
use kenjutsu.Base.{
  ℕ, String, Bool, true, false, ◌&&◌, Option, none, some, List, [], ◌∷◌, count, sum_map, length,
  if◌then◌else◌,
}
use kenjutsu.Finding.{Finding, graph}
use kenjutsu.Evaluation.{EvalResult}
use kenjutsu.Evaluation.Display.{Difference, Display, Floats, concat}
use kenjutsu.Evaluation.Metrics.{Ratio, EvalMetrics, ratio_or_zero, above}

-- `lift > threshold`, where the lift is a difference of floats: neither the two rates nor their
-- difference are exact, and 8/20 - 5/20 > 0.15 holds in Python.
abbrev pub exceeds : {F : Type 0} → Floats F → Difference → ℕ → ℕ → Bool
exceeds floats d num den =
    floats.greater
      (floats.minus (floats.quotient d.minuend.num d.minuend.den)
        (floats.quotient d.subtrahend.num d.subtrahend.den))
      (floats.quotient num den)

pub record MetricComparison : Type 0 where
  pub metric : String
  pub diff_only : Ratio
  pub structural : Ratio
  pub lift : Difference
  pub unit : String

pub record ComparisonReport : Type 0 where
  pub comparisons : List MetricComparison
  pub accepted_finding_lift : Difference
  pub graph_origin_fraction : Ratio
  pub bet_a_go : Bool
  pub bet_a_reason : String

abbrev pub is_graph : Finding → Bool
is_graph f = elim f.origin [ graph ↦ true | _ ↦ false ]

abbrev pub graph_tps : List EvalResult → ℕ
graph_tps results = sum_map (λ r. count is_graph r.true_positives) results

-- Of the true positives, those that the graph found; 0 without results.
unfoldable pub graph_origin_fraction : Option (List EvalResult) → Ratio
graph_origin_fraction none = record { num = 0; den = 1 }
graph_origin_fraction (some results) =
    ratio_or_zero (graph_tps results) (sum_map (λ r. length r.true_positives) results)

-- A metric that is better when it is higher.
abbrev pub gain : String → String → Ratio → Ratio → MetricComparison
gain metric unit structural diff_only = record {
  metric = metric;
  diff_only = diff_only;
  structural = structural;
  lift = record { minuend = structural; subtrahend = diff_only };
  unit = unit;
}

-- A metric that is better when it is lower.
abbrev pub reduction : String → String → Ratio → Ratio → MetricComparison
reduction metric unit structural diff_only = record {
  metric = metric;
  diff_only = diff_only;
  structural = structural;
  lift = record { minuend = diff_only; subtrahend = structural };
  unit = unit;
}

abbrev pub lift_of : EvalMetrics → EvalMetrics → Difference
lift_of s d = record { minuend = s.accepted_finding_rate; subtrahend = d.accepted_finding_rate }

abbrev pub lift_threshold : Ratio
lift_threshold = record { num = 15; den = 100 }

abbrev pub graph_fraction_threshold : Ratio
graph_fraction_threshold = record { num = 20; den = 100 }

-- Whether a value is above its threshold, in words.
abbrev reason : String → String → Bool → String → String
reason name value above_it threshold =
    concat (name ∷ value ∷ (if above_it then " > " else " ≤ ") ∷ threshold ∷ " threshold" ∷ [])

module _ {F : Type 0} (floats : Floats F) (display : Display) where
  -- `"; ".join(reasons)`
  unfoldable pub bet_a_reason : Difference → Ratio → String
  bet_a_reason lift fraction = concat (
      reason "accepted-finding lift " (display.percent_lift 1 lift)
        (exceeds floats lift lift_threshold.num lift_threshold.den)
        (display.percent 0 lift_threshold)
      ∷ "; "
      ∷ reason "graph-origin fraction " (display.percent 1 fraction)
          (above fraction graph_fraction_threshold.num graph_fraction_threshold.den)
          (display.percent 0 graph_fraction_threshold)
      ∷ [])

  unfoldable pub compare_variants :
      EvalMetrics → EvalMetrics → Option (List EvalResult) → ComparisonReport
  compare_variants s d structural_results =
      let lift = lift_of s d in
      let fraction = graph_origin_fraction structural_results in
      record {
        comparisons =
            gain "Accepted-finding rate" "%" s.accepted_finding_rate d.accepted_finding_rate
            ∷ reduction "FP rate (high confidence)" "%" s.fp_rate_high_confidence
                d.fp_rate_high_confidence
            ∷ reduction "Comments per PR" "" s.comments_per_pr_defects d.comments_per_pr_defects
            ∷ reduction "Latency P50" "s" s.latency_p50_seconds d.latency_p50_seconds
            ∷ reduction "Latency P95" "s" s.latency_p95_seconds d.latency_p95_seconds
            ∷ [];
        accepted_finding_lift = lift;
        graph_origin_fraction = fraction;
        bet_a_go =
            exceeds floats lift lift_threshold.num lift_threshold.den
            && above fraction graph_fraction_threshold.num graph_fraction_threshold.den;
        bet_a_reason = bet_a_reason lift fraction;
      }

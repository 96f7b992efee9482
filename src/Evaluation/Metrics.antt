-- ===== src/Evaluation/Metrics.antt =====
-- `compute_metrics` of kenjutsu/evaluation/runner.py. A float that is the quotient of two numbers is kept
-- as that fraction, and a comparison with a decimal constant multiplies both sides out: rounding
-- changes its result for counts beyond those of any corpus only.
use kenjutsu.Base.{
  ℕ, zero, suc, String, Bool, true, false, ◌&&◌, ◌+◌, ◌-◌, ◌*◌, ◌/◌, ◌%◌, min, Option, none, some,
  List, [], ◌∷◌, map, count, sum_map, length, leb, ltb, ◌==◌, nat_eq, if◌then◌else◌,
}
use kenjutsu.Finding.{Finding, Category, bug, security, breaking_change, verified, high}
use kenjutsu.Evaluation.{EvalResult}

-- A fraction; its denominator is positive wherever the metrics make one.
pub record Ratio : Type 0 where
  pub num : ℕ
  pub den : ℕ

abbrev pub below : Ratio → ℕ → ℕ → Bool
below r num den = ltb (r.num * den) (num * r.den)

abbrev pub above : Ratio → ℕ → ℕ → Bool
above r num den = ltb (num * r.den) (r.num * den)

pub record EvalMetrics : Type 0 where
  pub variant : String
  pub pr_count : ℕ
  pub total_findings_produced : ℕ
  pub total_true_positives : ℕ
  pub total_false_positives : ℕ
  pub total_missed : ℕ
  pub comments_per_pr_defects : Ratio
  pub accepted_finding_rate : Ratio
  pub fp_rate_verified : Ratio
  pub fp_rate_high_confidence : Ratio
  pub latency_p50_seconds : Ratio
  pub latency_p95_seconds : Ratio
  pub total_tokens_in : ℕ
  pub total_tokens_out : ℕ
  pub total_cost_usd : ℕ
  pub avg_cost_per_pr_usd : Ratio
  pub meets_comments_per_pr_target : Bool
  pub meets_accepted_finding_target : Bool
  pub meets_fp_verified_target : Bool
  pub meets_fp_high_confidence_target : Bool
  pub meets_latency_p50_target : Bool
  pub meets_latency_p95_target : Bool

abbrev pub all_targets_met : EvalMetrics → Bool
all_targets_met m =
    m.meets_comments_per_pr_target
    && (m.meets_accepted_finding_target
        && (m.meets_fp_verified_target
            && (m.meets_fp_high_confidence_target
                && (m.meets_latency_p50_target && m.meets_latency_p95_target))))

-- `category in _DEFECT_CATEGORIES`
abbrev pub is_defect : Category → Bool
is_defect bug = true
is_defect security = true
is_defect breaking_change = true
is_defect _ = false

abbrev pub is_verified : Finding → Bool
is_verified f = elim f.confidence [ verified ↦ true | _ ↦ false ]

abbrev pub is_high_or_better : Finding → Bool
is_high_or_better f = elim f.confidence [ verified ↦ true | high ↦ true | _ ↦ false ]

-- `n / d if d > 0 else 0.0`
unfoldable pub ratio_or_zero : ℕ → ℕ → Ratio
ratio_or_zero n d = if ltb 0 d then record { num = n; den = d } else record { num = 0; den = 1 }

-- `sorted` and indexing, on times.
unfoldable pub insert : ℕ → List ℕ → List ℕ
insert n [] = n ∷ []
insert n (m ∷ ms) = let rest = insert n ms in if leb n m then n ∷ m ∷ ms else m ∷ rest

unfoldable pub sorted : List ℕ → List ℕ
sorted [] = []
sorted (n ∷ ns) = insert n (sorted ns)

-- `l[i]`; 0 outside the list, where the source would raise.
unfoldable pub nth : List ℕ → ℕ → ℕ
nth [] i = 0
nth (n ∷ ns) zero = n
nth (n ∷ ns) (suc i) = nth ns i

-- `statistics.median`, of a list that is sorted already.
unfoldable pub median : List ℕ → Ratio
median l =
    let half = length l / 2 in
    if length l % 2 == 1
    then record { num = nth l half; den = 1 }
    else record { num = nth l (half - 1) + nth l half; den = 2 }

-- `int(n * 0.95)`: the rounding of the product never moves it over a whole number.
unfoldable pub percentile_95 : List ℕ → ℕ
percentile_95 l = nth l (min (length l * 95 / 100) (length l - 1))

-- `t / 1000.0`
abbrev pub seconds : Ratio → Ratio
seconds t = record { num = t.num; den = t.den * 1000 }

abbrev pub false_positive_rate : (Finding → Bool) → List EvalResult → Ratio
false_positive_rate p results =
    ratio_or_zero (sum_map (λ r. count p r.false_positives) results)
      (sum_map (λ r. length r.findings_produced) results)

-- The metrics of a list that is not empty, `first` being its first result.
unfoldable pub metrics_of : EvalResult → List EvalResult → EvalMetrics
metrics_of first results =
    let pr_count = length results in
    let produced = sum_map (λ r. length r.findings_produced) results in
    let tp = sum_map (λ r. length r.true_positives) results in
    let missed = sum_map (λ r. length r.missed) results in
    let defects = sum_map (λ r. count (λ f. is_defect f.category) r.findings_produced) results in
    let comments : Ratio = record { num = defects; den = pr_count } in
    let accepted = ratio_or_zero tp (tp + missed) in
    let fp_verified = false_positive_rate is_verified results in
    let fp_high = false_positive_rate is_high_or_better results in
    let latencies = sorted (map (λ r. r.latency_ms) results) in
    let p50 = seconds (median latencies) in
    let p95 = seconds (record { num = percentile_95 latencies; den = 1 }) in
    let cost = sum_map (λ r. r.cost_usd) results in
    record {
      variant = first.variant;
      pr_count = pr_count;
      total_findings_produced = produced;
      total_true_positives = tp;
      total_false_positives = sum_map (λ r. length r.false_positives) results;
      total_missed = missed;
      comments_per_pr_defects = comments;
      accepted_finding_rate = accepted;
      fp_rate_verified = fp_verified;
      fp_rate_high_confidence = fp_high;
      latency_p50_seconds = p50;
      latency_p95_seconds = p95;
      total_tokens_in = sum_map (λ r. r.tokens_in) results;
      total_tokens_out = sum_map (λ r. r.tokens_out) results;
      total_cost_usd = cost;
      avg_cost_per_pr_usd = record { num = cost; den = pr_count };
      meets_comments_per_pr_target = below comments 8 1;
      meets_accepted_finding_target = above accepted 60 100;
      meets_fp_verified_target = below fp_verified 1 100;
      meets_fp_high_confidence_target = below fp_high 10 100;
      meets_latency_p50_target = below p50 30 1;
      meets_latency_p95_target = below p95 60 1;
    }

-- `none` is the ValueError for an empty list.
unfoldable pub compute_metrics : List EvalResult → Option EvalMetrics
compute_metrics [] = none
compute_metrics (r ∷ rs) = some (metrics_of r (r ∷ rs))

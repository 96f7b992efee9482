-- ===== src/Evaluation/Tests.antt =====
-- A small corpus run through the evaluation runner, and the theorems about it there.
use native.Mathlib.Nat.{
  le-div_iff_mul-le, le_of_mul-le-mul_right, mul-le-mul_right, div-mul-le_self,
}
use kenjutsu.Base.{
  arith, ◌*◌, ◌/◌, ◌-◌, ◌<◌, ◌≤◌, ltb, ℕ, true, none, some, List, [], ◌∷◌, ◌+◌, ◌≡◌, refl,
}
use kenjutsu.Effect.{ok}
use kenjutsu.Finding.{Finding, bug, warning, verified, high, graph, publish}
use kenjutsu.Evaluation.{
  classify, classified, pop_match, AnnotatedFinding, BenchmarkPr, ReviewPipeline, EvalResult,
  match_findings, matches, run_eval, eval_pr, eval_result,
}
use kenjutsu.Evaluation.Matching.{Paired, match_findings-Paired}
use kenjutsu.Evaluation.Totals.{For, Returns, run_eval-For}
use kenjutsu.Evaluation.Percentile.{Ranked, compute_metrics-Ranked}
use kenjutsu.Evaluation.Metrics.{ratio_or_zero, EvalMetrics, compute_metrics, metrics_of}
use kenjutsu.Evaluation.Compare.{graph_origin_fraction, compare_variants}
use kenjutsu.Evaluation.Display.{Display, Floats}
use kenjutsu.Evaluation.Bet.{IsRounding, Better, compare_variants-Better}

abbrev finding_at : ℕ → Finding
finding_at line = record {
  file_path = "a.py";
  line_start = line;
  line_end = line;
  origin = graph;
  confidence = high;
  severity = warning;
  category = bug;
  publishability = publish;
  description = "off by one";
  suggestion = none;
  evidence_sources = [];
}

abbrev expected_at : ℕ → AnnotatedFinding
expected_at line = record {
  file_path = "a.py";
  line_range = (line, line);
  category = bug;
  severity = warning;
  confidence = verified;
  description = "off by one";
}

abbrev produced : List Finding
produced = finding_at 12 ∷ finding_at 90 ∷ []

abbrev expected : List AnnotatedFinding
expected = expected_at 40 ∷ expected_at 10 ∷ []

-- The first produced finding matches the second expected one.
matched_lines : (match_findings produced expected).unmatched ≡ expected_at 40 ∷ []
unfolding match_findings classify classified pop_match matches
matched_lines = refl

match_findings-Paired_example : Paired (finding_at 12 ∷ []) expected (expected_at 40 ∷ [])
unfolding match_findings classify classified pop_match matches
match_findings-Paired_example = match_findings-Paired produced expected

abbrev pub pr : BenchmarkPr
pr = record {
  pr_id = "r_1";
  repo = "r";
  pr_number = 1;
  head_sha = "b";
  base_sha = "a";
  languages = [];
  size = "small";
  tags = [];
  expected_findings = expected;
  false_positive_patterns = [];
}

-- Each reading of the clock finds it 1500 ms later.
abbrev pub pipeline : ReviewPipeline (Unit {0}) ℕ
pipeline = record {
  review = λ repo number head base variant w. (
    ok (
      produced,
      record { latency_ms = none; tokens_in = some 10; tokens_out = none; cost_usd = some 3 },
    ),
    w,
  );
  monotonic = λ w. (ok w, w + 1500);
}

abbrev pub results : List EvalResult
results =
    eval_result pr "structural" produced
      (record { latency_ms = none; tokens_in = some 10; tokens_out = none; cost_usd = some 3 }) 1500
    ∷ []

pub run_eval_run : run_eval pipeline "structural" (pr ∷ []) 0 ≡ (ok results, 3000)
unfolding run_eval eval_pr eval_result
run_eval_run = refl

-- The same, read at the results.
pub results-For : For (pr ∷ []) results
unfolding Returns run_eval eval_pr eval_result
results-For = run_eval-For pipeline "structural" (pr ∷ []) 0

abbrev pub metrics : EvalMetrics
metrics =
    metrics_of
      (eval_result pr "structural" produced
        (record { latency_ms = none; tokens_in = some 10; tokens_out = none; cost_usd = some 3 })
        1500)
      results

pub computed : compute_metrics results ≡ some metrics
unfolding compute_metrics
computed = refl

compute_metrics-Ranked_example : Ranked results metrics
compute_metrics-Ranked_example = compute_metrics-Ranked results metrics computed

-- Numbers written as nothing, which the verdict does not depend on.
abbrev pub display : Display
display = record {
  str = λ n. "n";
  thousands = λ n. "n";
  fixed = λ d v. "v";
  percent = λ d v. "v%";
  fixed_lift = λ d v. "v";
  percent_lift = λ d v. "v%";
}

-- A pipeline that finds nothing.
abbrev silent : ReviewPipeline (Unit {0}) ℕ
silent = record {
  review = λ repo number head base variant w. (
    ok ([], record { latency_ms = none; tokens_in = none; tokens_out = none; cost_usd = none }),
    w,
  );
  monotonic = λ w. (ok w, w + 1500);
}

-- The same corpus, reviewed without a finding.
abbrev nothing : EvalResult
nothing =
    eval_result pr "diff_only" []
      (record { latency_ms = none; tokens_in = none; tokens_out = none; cost_usd = none }) 1500

abbrev without : EvalMetrics
without = metrics_of nothing (nothing ∷ [])

computed_without : compute_metrics (nothing ∷ []) ≡ some without
unfolding compute_metrics
computed_without = refl

nothing-For : For (pr ∷ []) (nothing ∷ [])
unfolding Returns run_eval eval_pr eval_result
nothing-For = run_eval-For (silent) "diff_only" (pr ∷ []) 0

-- Floats with two decimals, rounded down, and nothing below zero.
abbrev decimals : Floats ℕ
decimals = record { quotient = λ a b. 100 * a / b; minus = λ x y. x - y; greater = λ x y. ltb y x }

quotient_mono : (a b c d : ℕ) → 0 < b → 0 < d → a * d ≤ c * b → 100 * a / b ≤ 100 * c / d
quotient_mono a b c d pb pd h =
    let q = 100 * a / b in
    let below : q * d * b ≤ 100 * c * b =
      omega (arith, mul-le-mul_right d (div-mul-le_self (100 * a) b), h) in
    (le-div_iff_mul-le pd).1 (le_of_mul-le-mul_right below pb)

decimals-IsRounding : IsRounding decimals
decimals-IsRounding = record {
  quotient_mono = λ a b c d pb pd h. ground (arith, quotient_mono a b c d pb pd h);
  minus_below = λ x a b. ground arith;
  minus_not_positive = λ x y a b h. ground arith;
  ordered = λ x y z p q. ground arith;
}

goes : (compare_variants decimals display metrics without (some results)).bet_a_go ≡ true
unfolding compare_variants metrics_of eval_result match_findings ratio_or_zero classify classified
    pop_match matches graph_origin_fraction
goes = refl

compare_variants-Better_example : Better (pr ∷ []) results (nothing ∷ [])
compare_variants-Better_example =
    compare_variants-Better decimals display (pr ∷ []) results (nothing ∷ []) metrics without
      decimals-IsRounding results-For nothing-For computed computed_without goes

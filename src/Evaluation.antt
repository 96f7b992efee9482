-- ===== src/Evaluation.antt =====
-- kenjutsu/evaluation/runner.py: the corpus, the classification of findings against it, and the run
-- over a corpus. The review pipeline and the clock are parameters; times are milliseconds and costs a
-- count of the smallest unit, so both are natural numbers.
mod Metrics
mod Display
mod Compare
mod Matching
mod Totals
mod Rates
mod Percentile
mod Report
mod Verdict
mod Bet
mod Tests
use kenjutsu.Base.{
  ℕ, String, Bool, true, false, ◌&&◌, ◌+◌, ◌-◌, ◌≡◌, refl, Option, none, some, List, [], ◌∷◌, ◌++◌,
  leb, ◌==◌, string_eq, if◌then◌else◌,
}
use kenjutsu.Effect.{Exec, pure, ◌>>=◌, ◌>>◌}
use kenjutsu.Finding.{Finding, Category, Severity, Confidence, category_eq}

pub record AnnotatedFinding : Type 0 where
  pub file_path : String
  pub line_range : ℕ × ℕ
  pub category : Category
  pub severity : Severity
  pub confidence : Confidence
  pub description : String

pub record BenchmarkPr : Type 0 where
  pub pr_id : String
  pub repo : String
  pub pr_number : ℕ
  pub head_sha : String
  pub base_sha : String
  pub languages : List String
  pub size : String
  pub tags : List String
  pub expected_findings : List AnnotatedFinding
  pub false_positive_patterns : List (List (String × String))

-- The telemetry dictionary of a review: the keys that the runner reads.
pub record Telemetry : Type 0 where
  pub latency_ms : Option ℕ
  pub tokens_in : Option ℕ
  pub tokens_out : Option ℕ
  pub cost_usd : Option ℕ

-- The pipeline under evaluation, and `time.monotonic`, in a world of type `W`.
pub record ReviewPipeline (E W : Type 0) : Type 0 where
  pub review : String → ℕ → String → String → String → Exec E W (List Finding × Telemetry)
  pub monotonic : Exec E W ℕ

pub record EvalResult : Type 0 where
  pub pr_id : String
  pub variant : String
  pub findings_produced : List Finding
  pub expected_findings : List AnnotatedFinding
  pub true_positives : List Finding
  pub false_positives : List Finding
  pub missed : List AnnotatedFinding
  pub latency_ms : ℕ
  pub tokens_in : ℕ
  pub tokens_out : ℕ
  pub cost_usd : ℕ

-- `p_start <= e_end + tolerance and p_end >= e_start - tolerance`; the tolerance stands on the other
-- side of the second test, since `-` on ℕ stops at 0 and the source's does not.
abbrev pub line_ranges_overlap : ℕ × ℕ → ℕ × ℕ → ℕ → Bool
line_ranges_overlap produced expected tolerance =
    leb produced.0 (expected.1 + tolerance) && leb expected.0 (produced.1 + tolerance)

-- The matching rule, at the default tolerance.
unfoldable pub matches : Finding → AnnotatedFinding → Bool
matches finding ann =
    finding.file_path == ann.file_path
    && (category_eq finding.category ann.category
        && line_ranges_overlap (finding.line_start, finding.line_end) ann.line_range 5)

-- The inner loop: what `unmatched_expected` is after `pop(i)` of the first match, if there is one.
unfoldable pub pop_match : Finding → List AnnotatedFinding → Option (List AnnotatedFinding)
pop_match finding [] = none
pop_match finding (ann ∷ anns) =
    let rest = pop_match finding anns in
    if matches finding ann then some anns else elim rest [ none ↦ none | some l ↦ some (ann ∷ l) ]

-- The three lists that the loop over the produced findings builds.
pub record Classified : Type 0 where
  pub true_positives : List Finding
  pub false_positives : List Finding
  pub unmatched : List AnnotatedFinding

unfoldable pub classified : Classified → Finding → Option (List AnnotatedFinding) → Classified
classified c finding (some rest) = record c {
  true_positives = c.true_positives ++ finding ∷ [];
  unmatched = rest;
}
classified c finding none = record c { false_positives = c.false_positives ++ finding ∷ [] }

unfoldable pub classify : Classified → List Finding → Classified
classify c [] = c
classify c (finding ∷ findings) =
    classify (classified c finding (pop_match finding c.unmatched)) findings

unfoldable pub match_findings : List Finding → List AnnotatedFinding → Classified
match_findings produced expected =
    classify (record { true_positives = []; false_positives = []; unmatched = expected }) produced

-- `telemetry.get(key, default)`
abbrev pub get_or : Option ℕ → ℕ → ℕ
get_or none d = d
get_or (some n) d = n

-- What the loop body appends for a pull request.
unfoldable pub eval_result : BenchmarkPr → String → List Finding → Telemetry → ℕ → EvalResult
eval_result pr variant findings telemetry elapsed_ms =
    let c = match_findings findings pr.expected_findings in
    record {
      pr_id = pr.pr_id;
      variant = variant;
      findings_produced = findings;
      expected_findings = pr.expected_findings;
      true_positives = c.true_positives;
      false_positives = c.false_positives;
      missed = c.unmatched;
      latency_ms = get_or telemetry.latency_ms elapsed_ms;
      tokens_in = get_or telemetry.tokens_in 0;
      tokens_out = get_or telemetry.tokens_out 0;
      cost_usd = get_or telemetry.cost_usd 0;
    }

module _ {E W : Type 0} (pipeline : ReviewPipeline E W) (variant : String) where
  -- The loop body.
  unfoldable pub eval_pr : BenchmarkPr → Exec E W EvalResult
  unfolding ◌>>=◌ ◌>>◌ pure
  eval_pr pr = do
    t0 ← pipeline.monotonic
    reviewed ← pipeline.review pr.repo pr.pr_number pr.head_sha pr.base_sha variant
    t1 ← pipeline.monotonic
    pure (eval_result pr variant reviewed.0 reviewed.1 (t1 - t0))

  unfoldable pub run_eval : List BenchmarkPr → Exec E W (List EvalResult)
  unfolding ◌>>=◌ ◌>>◌ pure
  run_eval [] = pure []
  run_eval (pr ∷ prs) = do result ← eval_pr pr; results ← run_eval prs; pure (result ∷ results)

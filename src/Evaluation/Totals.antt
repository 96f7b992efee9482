-- ===== src/Evaluation/Totals.antt =====
-- What the metrics of kenjutsu/evaluation/runner.py add up to, for the results of a run.
use kenjutsu.Base.{ℕ, String, ◌+◌, ◌-◌, ◌≡◌, refl, List, [], ◌∷◌, arith, length, sum_map, subst, ap}
use kenjutsu.Effect.{Exec, Result, ok, err, pure, ◌>>=◌, bind_cases}
use kenjutsu.Finding.{Finding}
use kenjutsu.Evaluation.{
  BenchmarkPr, Telemetry, ReviewPipeline, EvalResult, eval_result, eval_pr, run_eval,
}
use kenjutsu.Evaluation.Matching.{match_findings-length}

-- The result accounts for each produced and each expected finding once.
pub record Balanced (r : EvalResult) : Type 0 where
  pub produced : length r.findings_produced ≡ length r.true_positives + length r.false_positives
  pub expected : length r.true_positives + length r.missed ≡ length r.expected_findings

eval_result-Balanced :
    (pr : BenchmarkPr) (variant : String) (findings : List Finding) (t : Telemetry) (elapsed : ℕ)
    → Balanced (eval_result pr variant findings t elapsed)
unfolding eval_result
eval_result-Balanced pr variant findings t elapsed =
    let counts = match_findings-length findings pr.expected_findings in
    record { produced = counts.0; expected = counts.1 }

-- The result is one for this pull request, with its ground truth.
pub record One (pr : BenchmarkPr) (r : EvalResult) : Type 0 where
  pub pr_id : r.pr_id ≡ pr.pr_id
  pub ground_truth : r.expected_findings ≡ pr.expected_findings
  pub balanced : Balanced r

-- The results stand for the pull requests, in order.
unfoldable pub For : List BenchmarkPr → List EvalResult → Type 0
For [] [] = Unit
For [] (r ∷ rs) = ⊥
For (pr ∷ prs) [] = ⊥
For (pr ∷ prs) (r ∷ rs) = One pr r × For prs rs

-- If the run returned, `P` holds of its result.
unfoldable pub Returns : {E S A : Type 0} → (A → Type 0) → Result E A × S → Type 0
Returns P (ok a, s) = P a
Returns P (err e, s) = Unit

pub Returns-ok :
    {E S A : Type 0} (P : A → Type 0) (run : Result E A × S)
    → Returns P run
    → (a : A) → run.0 ≡ ok a
    → P a
unfolding Returns
Returns-ok P (ok b, s) h a e = subst P (cc) h
Returns-ok P (err b, s) h a e = absurd (ground (arith, e))

Returns-bind :
    {E S A B : Type 0} (P : A → Type 0) (Q : B → Type 0) (m : Exec E S A) (f : A → Exec E S B)
    (s : S)
    → Returns P (m s)
    → ((a : A) (t : S) → P a → Returns Q (f a t))
    → Returns Q ((m >>= f) s)
unfolding Returns
Returns-bind P Q m f s h k =
    bind_cases (Returns Q) m f s (λ e _. tt) (λ a e. k a (m s).1 (Returns-ok P (m s) h a e))

Returns-any : {E S A : Type 0} (run : Result E A × S) → Returns (λ _. Unit) run
unfolding Returns
Returns-any (ok a, s) = tt
Returns-any (err e, s) = tt

module _ {E W : Type 0} (pipeline : ReviewPipeline E W) (variant : String) where
  eval_pr-One : (pr : BenchmarkPr) (w : W) → Returns (One pr) (eval_pr pipeline variant pr w)
  unfolding eval_pr Returns pure eval_result
  eval_pr-One pr w =
      Returns-bind (λ _. Unit) (One pr) pipeline.monotonic _ w (Returns-any _)
        (λ t0 w0 _.
          Returns-bind (λ _. Unit) (One pr)
            (pipeline.review pr.repo pr.pr_number pr.head_sha pr.base_sha variant) _ w0
            (Returns-any _)
            (λ reviewed w1 _.
              Returns-bind (λ _. Unit) (One pr) pipeline.monotonic _ w1 (Returns-any _)
                (λ t1 w2 _. record {
                  pr_id = refl;
                  ground_truth = refl;
                  balanced = eval_result-Balanced pr variant reviewed.0 reviewed.1 (t1 - t0);
                })))

  -- A run that returns gives a result for each pull request of the corpus, in corpus order, with the
  -- ground truth of that pull request and with each produced and each expected finding counted once.
  pub run_eval-For :
      (prs : List BenchmarkPr) (w : W) → Returns (For prs) (run_eval pipeline variant prs w)
  unfolding run_eval Returns For pure
  run_eval-For [] w = tt
  run_eval-For (pr ∷ prs) w =
      Returns-bind (One pr) (For (pr ∷ prs)) (eval_pr pipeline variant pr) _ w (eval_pr-One pr w)
        (λ r w1 one.
          Returns-bind (For prs) (For (pr ∷ prs)) (run_eval pipeline variant prs) _ w1
            (run_eval-For prs w1) (λ rs w2 all. (one, all)))

pub For-produced :
    (prs : List BenchmarkPr) (rs : List EvalResult)
    → For prs rs
    → sum_map (λ r. length r.findings_produced) rs
      ≡ sum_map (λ r. length r.true_positives) rs + sum_map (λ r. length r.false_positives) rs
unfolding For
For-produced [] [] h = omega arith
For-produced [] (r ∷ rs) h = absurd h
For-produced (pr ∷ prs) [] h = absurd h
For-produced (pr ∷ prs) (r ∷ rs) h = omega (arith, h.0.balanced.produced, For-produced prs rs h.1)

pub For-expected :
    (prs : List BenchmarkPr) (rs : List EvalResult)
    → For prs rs
    → sum_map (λ r. length r.true_positives) rs + sum_map (λ r. length r.missed) rs
      ≡ sum_map (λ pr. length pr.expected_findings) prs
unfolding For
For-expected [] [] h = omega arith
For-expected [] (r ∷ rs) h = absurd h
For-expected (pr ∷ prs) [] h = absurd h
For-expected (pr ∷ prs) (r ∷ rs) h =
    omega (arith, h.0.balanced.expected, ap length h.0.ground_truth, For-expected prs rs h.1)

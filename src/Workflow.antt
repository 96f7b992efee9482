-- ===== src/Workflow.antt =====
-- kenjutsu/pipeline/steps.py, with the types of kenjutsu/pipeline/types.py and the step
-- implementations of kenjutsu/pipeline/logic.py: the review workflow and its status transitions.
pub mod Safety
pub mod Rules
pub mod Traces
mod Tests
use kenjutsu.Base.{
  ℕ, String, Bool, true, false, Option, none, some, List, not, [], ◌∷◌, ◌++◌, length, if◌then◌else◌,
}
use kenjutsu.Effect.{Result, ok, err, Exec, pure, ◌>>=◌, ◌>>◌}
use kenjutsu.Finding.{Finding}

pub data ReviewStatus : Type 0 where
  queued sha_checking processing_diff extracting_context running_deterministic : ReviewStatus
  running_llm scoring_evidence publishing complete failed superseded aborted : ReviewStatus

pub record PrMetadata : Type 0 where
  pub repo_id : String
  pub pr_number : ℕ
  pub base_sha : String
  pub head_sha : String
  pub repo_url : String

pub record ReviewRequest : Type 0 where
  pub pr_metadata : PrMetadata
  pub diff_patches : List String

pub record StructuralContext : Type 0 where
  pub repo_id : String
  pub head_sha : String
  pub referenced_symbols : List String
  pub call_graph_edges : List (String × String)

pub record ReviewResult : Type 0 where
  pub status : String
  pub reason : Option String
  pub finding_count : ℕ

abbrev aborted_result : ReviewResult
aborted_result = record { status = "aborted"; reason = some "stale_sha"; finding_count = 0 }

abbrev superseded_result : ReviewResult
superseded_result = record {
  status = "superseded";
  reason = some "sha_changed_before_publish";
  finding_count = 0;
}

-- The business functions that the steps delegate to, over the world `W` that they read and change.
-- Each may raise. `update_review_status` and `publish` stand apart: see `Run`.
pub record Logic (E W : Type 0) : Type 0 where
  pub sha_guard : PrMetadata → Exec E W Bool
  pub process_diff : PrMetadata → Exec E W ReviewRequest
  pub get_structural_context : ReviewRequest → Exec E W StructuralContext
  pub run_deterministic : ReviewRequest → StructuralContext → Exec E W (List Finding)
  pub run_llm_review : ReviewRequest → StructuralContext → List Finding → Exec E W (List Finding)
  pub score_evidence : List Finding → StructuralContext → Exec E W (List Finding)
  pub publish : List Finding → PrMetadata → Exec E W ReviewResult
  pub update_review_status : String → ReviewStatus → Exec E W (Unit {0})

-- A call of `publish`: what it was given, and the world in which it was made.
pub record Publication (W : Type 0) : Type 0 where
  pub findings : List Finding
  pub pr : PrMetadata
  pub world : W

-- The world, with the status updates that were persisted and the calls of `publish` that were made.
pub record Run (W : Type 0) : Type 0 where
  pub world : W
  pub statuses : List (String × ReviewStatus)
  pub publications : List (Publication W)

module _ {E W A : Type 0} where
  -- A step whose call leaves no record in `Run`.
  pub step : Exec E W A → Exec E (Run W) A
  step m s = let (r, w) = m s.world in (r, record s { world = w })

module _ {E W : Type 0} (l : Logic E W) where
  -- The persisted updates, after an update that succeeded or raised.
  abbrev persisted :
      List (String × ReviewStatus)
      → String
      → ReviewStatus
      → Result E (Unit {0})
      → List (String × ReviewStatus)
  persisted statuses review_id status (ok _) = statuses ++ (review_id, status) ∷ []
  persisted statuses review_id status (err _) = statuses

  pub step_update_status : String → ReviewStatus → Exec E (Run W) (Unit {0})
  step_update_status review_id status s =
      let (r, w) = l.update_review_status review_id status s.world in
      (r, record s { world = w; statuses = persisted s.statuses review_id status r })

  pub step_publish : List Finding → PrMetadata → Exec E (Run W) ReviewResult
  step_publish findings pr s =
      let (r, w) = l.publish findings pr s.world in
      (
        r,
        record s {
          world = w;
          publications =
              s.publications ++ (record { findings = findings; pr = pr; world = s.world }) ∷ [];
        },
      )

  step_sha_guard : PrMetadata → Exec E (Run W) Bool
  unfolding step
  step_sha_guard pr = step (l.sha_guard pr)

  -- The end of the workflow body, once the guard before publishing has answered.
  publish_guarded : PrMetadata → String → List Finding → Bool → Exec E (Run W) ReviewResult
  unfolding ◌>>=◌ ◌>>◌ step_update_status step_publish
  publish_guarded pr review_id scored current =
      if not current
      then (do
        step_update_status review_id superseded
        pure (record {
          status = "superseded";
          reason = some "sha_changed_before_publish";
          finding_count = 0;
        }))
      else (do result ← step_publish scored pr; step_update_status review_id complete; pure result)

  -- Step 7 of the workflow body, from the status update on.
  publish_checked : PrMetadata → String → List Finding → Exec E (Run W) ReviewResult
  unfolding ◌>>=◌ ◌>>◌ step_update_status step_sha_guard publish_guarded
  publish_checked pr review_id scored = do
    step_update_status review_id publishing
    current ← step_sha_guard pr
    publish_guarded pr review_id scored current

  -- Steps 2 to 6: the analysis.
  analyse : PrMetadata → String → Exec E (Run W) (List Finding)
  unfolding ◌>>=◌ ◌>>◌ step_update_status step
  analyse pr review_id = do
    step_update_status review_id processing_diff
    req ← step (l.process_diff pr)
    step_update_status review_id extracting_context
    ctx ← step (l.get_structural_context req)
    step_update_status review_id running_deterministic
    det ← step (l.run_deterministic req ctx)
    step_update_status review_id running_llm
    llm ← step (l.run_llm_review req ctx det)
    step_update_status review_id scoring_evidence
    step (l.score_evidence (det ++ llm) ctx)

  -- The body once the entry guard has answered.
  review_guarded : PrMetadata → String → Bool → Exec E (Run W) ReviewResult
  unfolding ◌>>=◌ ◌>>◌ step_update_status
  review_guarded pr review_id current =
      if not current
      then (do step_update_status review_id aborted; pure aborted_result)
      else (do scored ← analyse pr review_id; publish_checked pr review_id scored)

  -- `_run_review_pipeline`, cut where the guards stand.
  pub run_review_pipeline : PrMetadata → String → Exec E (Run W) ReviewResult
  unfolding ◌>>=◌ ◌>>◌ step_update_status step_sha_guard
  run_review_pipeline pr review_id = do
    step_update_status review_id sha_checking
    current ← step_sha_guard pr
    review_guarded pr review_id current

-- kenjutsu/pipeline/logic.py as it stands: every function is a stub that changes nothing.
abbrev pub stubs : {E W : Type 0} → Logic E W
stubs = record {
  sha_guard = λ pr. pure true;
  process_diff = λ pr. pure (record { pr_metadata = pr; diff_patches = [] });
  get_structural_context = λ req. pure (record {
    repo_id = req.pr_metadata.repo_id;
    head_sha = req.pr_metadata.head_sha;
    referenced_symbols = [];
    call_graph_edges = [];
  });
  run_deterministic = λ req ctx. pure [];
  run_llm_review = λ req ctx det. pure [];
  score_evidence = λ findings ctx. pure findings;
  publish = λ findings pr.
      pure (record { status = "published"; reason = none; finding_count = length findings });
  update_review_status = λ review_id status. pure tt;
}

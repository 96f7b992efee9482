-- ===== src/Workflow/Tests.antt =====
-- Runs of the workflow with the stubs and with a guard that changes its answer, and the theorems
-- about it at those runs.
use kenjutsu.Base.{ℕ, zero, suc, Bool, true, false, [], ◌≡◌, refl}
use kenjutsu.Effect.{ok}
use kenjutsu.Workflow.{
  PrMetadata, Logic, Run, stubs, run_review_pipeline, analyse, publish_checked, review_guarded,
  superseded_result,
}
use kenjutsu.Workflow.Safety.{PublishedOnce, publishes_once_after_guard}

abbrev pr : PrMetadata
pr = record { repo_id = "r"; pr_number = 7; base_sha = "a"; head_sha = "b"; repo_url = "u" }

-- The world counts the calls of the guard that still succeed.
abbrev answers_left : ℕ → Bool × ℕ
answers_left zero = (false, 0)
answers_left (suc n) = (true, n)

abbrev pushed_during_review : Logic (Unit {0}) ℕ
pushed_during_review = record stubs {
  sha_guard = λ pr w. let (current, v) = answers_left w in (ok current, v);
}

abbrev start : Run ℕ
start = record { world = 1; statuses = []; publications = [] }

superseded_run : (run_review_pipeline pushed_during_review pr "id" start).0 ≡ ok superseded_result
unfolding run_review_pipeline analyse publish_checked review_guarded
superseded_run = refl

publishes_once_after_guard_example :
    PublishedOnce pushed_during_review pr "id" start
      (run_review_pipeline pushed_during_review pr "id" start).1
publishes_once_after_guard_example = publishes_once_after_guard pushed_during_review pr "id" start

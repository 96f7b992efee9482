-- ===== src/Workflow/Traces.antt =====
-- The status transitions that a run of the workflow persists, in their documented order.
use kenjutsu.Base.{String, Bool, true, false, Option, none, some, List, [], ◌∷◌, ◌++◌, ◌≡◌}
use kenjutsu.Finding.{Finding}
use kenjutsu.Workflow.{
  ReviewStatus, PrMetadata, ReviewResult, Logic, sha_checking, aborted, processing_diff,
  extracting_context, running_deterministic, running_llm, scoring_evidence, publishing, superseded,
  complete,
}

abbrev pub analysis : List ReviewStatus
analysis =
    processing_diff ∷ extracting_context ∷ running_deterministic ∷ running_llm ∷ scoring_evidence
    ∷ []

-- The updates of a run, by how the guards have answered: stale at the entry, stale before
-- publishing, and current both times.
abbrev pub path : Option Bool → List ReviewStatus
path none = sha_checking ∷ aborted ∷ []
path (some false) = sha_checking ∷ (analysis ++ publishing ∷ superseded ∷ [])
path (some true) = sha_checking ∷ (analysis ++ publishing ∷ complete ∷ [])

abbrev pub Reports : Option Bool → ReviewResult → Type 0
Reports none r = (r.status ≡ "aborted") × (r.reason ≡ some "stale_sha")
Reports (some false) r = (r.status ≡ "superseded") × (r.reason ≡ some "sha_changed_before_publish")
Reports (some true) r = Unit {0}

module _ {E W : Type 0} (l : Logic E W) (pr : PrMetadata) (id : String) where
  abbrev from_llm : List ReviewStatus
  from_llm = running_llm ∷ scoring_evidence ∷ []

  abbrev from_context : List ReviewStatus
  from_context = extracting_context ∷ running_deterministic ∷ from_llm

  abbrev last : Bool → List ReviewStatus
  last false = superseded ∷ []
  last true = complete ∷ []

  abbrev guarded_path : Option Bool → List ReviewStatus
  guarded_path none = aborted ∷ []
  guarded_path (some current) = analysis ++ publishing ∷ last current

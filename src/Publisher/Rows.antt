-- ===== src/Publisher/Rows.antt =====
-- The rows of kenjutsu/db/models.py that the publisher reads and writes, with the columns it uses.
use kenjutsu.Base.{
  ℕ, String, Bool, Option, none, some, List, [], ◌∷◌, ◌&&◌, ◌==◌, string_eq, if◌then◌else◌,
}
use kenjutsu.Dict.{Dict}

-- Columns of `findings`.
pub record FindingRow : Type 0 where
  pub id : String
  pub review_id : String
  pub fingerprint : String
  pub file_path : String
  pub line_end : ℕ
  pub origin : String
  pub confidence : String
  pub severity : String
  pub category : String
  pub publishability : String
  pub description : String
  pub suggestion : Option String
  pub published : Bool
  pub github_comment_id : Option ℕ

-- Columns of `reviews`.
pub record ReviewRow : Type 0 where
  pub id : String
  pub repo_id : String
  pub pr_number : ℕ
  pub head_sha : String
  pub github_review_id : Option ℕ
  pub github_comment_ids : Option (Dict String ℕ)

-- Columns of `repos`.
pub record RepoRow : Type 0 where
  pub id : String
  pub installation_id : String
  pub full_name : String

pub record Tables : Type 0 where
  pub reviews : List ReviewRow
  pub repos : List RepoRow
  pub findings : List FindingRow

-- `select(…).where(id == …)` with `scalar_one_or_none`: the id is a primary key.
unfoldable pub find_review : String → List ReviewRow → Option ReviewRow
find_review id [] = none
find_review id (r ∷ rs) = if r.id == id then some r else find_review id rs

-- `select(Repo).where(Repo.id == …, Repo.installation_id == …)`
unfoldable pub find_repo : String → String → List RepoRow → Option RepoRow
find_repo id installation_id [] = none
find_repo id installation_id (r ∷ rs) =
    if r.id == id && r.installation_id == installation_id
    then some r
    else find_repo id installation_id rs

-- The first query joins `reviews` with `repos` and asks for the installation.
unfoldable pub select_review : String → String → Tables → Option ReviewRow
select_review review_id installation_id t = elim (find_review review_id t.reviews) [
  | none ↦ none
  | some review ↦ elim (find_repo review.repo_id installation_id t.repos) [
    | none ↦ none
    | some repo ↦ some review
  ]
]

-- ===== src/Publisher.antt =====
-- `publish_review` of kenjutsu/pipeline/publisher.py: one review and its comments on GitHub, created
-- on the first call and updated on later ones.
pub mod Rows
pub mod Body
pub mod Github
pub mod Redaction
pub mod Stale
pub mod Sent
pub mod Keeps
pub mod Tenant
pub mod Recreated
pub mod Known
mod Tests
pub mod Retry
pub mod Scope
use kenjutsu.Base.{
  ℕ, String, Bool, true, false, not, Option, none, some, List, [], ◌∷◌, ◌++◌, ◌&&◌, ◌||◌,
  Comparable, ◌==◌, nat_eq, string_eq, ltb, leb, filter, if◌then◌else◌,
}
use kenjutsu.Dict
use kenjutsu.Dict.{Dict}
use kenjutsu.Effect.{Result, ok, err, Exec, pure, raise, ◌>>=◌, ◌>>◌}
use Rows.{FindingRow, ReviewRow, RepoRow, Tables, select_review, find_repo}
use Github.{
  Server, Session, RepoName, Request, Error, review_not_found, repo_not_found, bad_full_name,
  head_sha_mismatch, create_review, update_review, create_comment, update_comment, fetch_head_sha,
}

abbrev pub Comments : Type 0
Comments = Dict String ℕ

-- `publishability in {p.value for p in _PUBLISHABLE}`
pub is_publishable : FindingRow → Bool
is_publishable f = f.publishability == "publish" || f.publishability == "redact-and-publish"

-- `a or b` on optional ids: 0 counts as missing.
pub or_else : Option ℕ → Option ℕ → Option ℕ
or_else none b = b
or_else (some a) b = if a == 0 then b else some a

pub existing_comment : Comments → FindingRow → Option ℕ
unfolding or_else
existing_comment comments f = or_else (Dict.get comments f.id) f.github_comment_id

-- `dict(review_row.github_comment_ids or {})`
abbrev pub stored_comments : Option Comments → Comments
stored_comments none = Dict.empty
stored_comments (some c) = c

-- The findings with one of them, found by its primary key, changed.
pub update_finding : (FindingRow → FindingRow) → String → List FindingRow → List FindingRow
update_finding change id [] = []
update_finding change id (f ∷ fs) =
    (if f.id == id then change f else f) ∷ update_finding change id fs

module _ {W : Type 0} where
  abbrev set_review_id : ℕ → Exec Error (Session W) (Unit {0})
  set_review_id id s = (ok tt, record s { review = record s.review { github_review_id = some id } })

  abbrev set_comments : Comments → Exec Error (Session W) (Unit {0})
  set_comments c s = (ok tt, record s { review = record s.review { github_comment_ids = some c } })

  abbrev set_comment_id : String → ℕ → Exec Error (Session W) (Unit {0})
  set_comment_id id c s = (
    ok tt,
    record s {
      findings = update_finding (λ f. record f { github_comment_id = some c }) id s.findings;
    },
  )

  abbrev pub set_published : String → Exec Error (Session W) (Unit {0})
  set_published id s = (
    ok tt,
    record s { findings = update_finding (λ f. record f { published = true }) id s.findings },
  )

-- `server` is GitHub. Flushing the session writes the changed rows inside the caller's transaction
-- and changes nothing here.
module _ {W : Type 0} (server : Server W) (repo : RepoName) where
  -- The review was deleted: a fresh one, and no comment known any more.
  pub recreate_review : ℕ → String → Exec Error (Session W) Comments
  unfolding ◌>>=◌ ◌>>◌
  recreate_review pr_number head_sha = do
    id ← create_review server repo pr_number head_sha
    set_review_id id
    pure Dict.empty

  -- 3. Ensure that the GitHub review exists; the comments that stay known.
  pub ensure_review : Option ℕ → ℕ → String → Comments → Exec Error (Session W) Comments
  unfolding ◌>>=◌ ◌>>◌
  ensure_review none pr_number head_sha comments = do
    id ← create_review server repo pr_number head_sha
    set_review_id id
    pure comments
  ensure_review (some review_id) pr_number head_sha comments = do
    still_there ← update_review server repo pr_number review_id
    if still_there then pure comments else recreate_review pr_number head_sha

-- `body` is the text of a comment.
module _ {W : Type 0} (server : Server W) (repo : RepoName) (body : FindingRow → String) where
  -- Create the comment of a finding and store its id.
  pub new_comment : ℕ → String → FindingRow → Comments → Exec Error (Session W) Comments
  unfolding ◌>>=◌ ◌>>◌
  new_comment pr_number head_sha f comments = do
    id ← create_comment server repo body pr_number head_sha f
    set_comment_id f.id id
    set_comments (Dict.put comments f.id id)
    pure (Dict.put comments f.id id)

  -- 4. One turn of the loop, by the id of the comment that exists already.
  pub publish_comment :
      Option ℕ → ℕ → String → FindingRow → Comments → Exec Error (Session W) Comments
  unfolding ◌>>=◌ ◌>>◌ new_comment
  publish_comment none pr_number head_sha f comments = do
    comments' ← new_comment pr_number head_sha f comments
    set_published f.id
    pure comments'
  publish_comment (some comment_id) pr_number head_sha f comments = do
    still_there ← update_comment server repo body comment_id f
    comments' ← if still_there then pure comments else new_comment pr_number head_sha f comments
    set_published f.id
    pure comments'

  pub publish_comments : ℕ → String → List FindingRow → Comments → Exec Error (Session W) Comments
  unfolding ◌>>=◌
  publish_comments pr_number head_sha [] comments = pure comments
  publish_comments pr_number head_sha (f ∷ fs) comments = do
    comments' ← publish_comment (existing_comment comments f) pr_number head_sha f comments
    publish_comments pr_number head_sha fs comments'

  -- 3. to 5., once the SHA guard has passed.
  pub publish_current : ReviewRow → List FindingRow → Exec Error (Session W) (Unit {0})
  unfolding ◌>>=◌ ◌>>◌
  publish_current review findings = do
    comments ←
        ensure_review server repo review.github_review_id review.pr_number review.head_sha
          (stored_comments review.github_comment_ids)
    comments' ←
        publish_comments review.pr_number review.head_sha (filter is_publishable findings) comments
    set_comments comments'

  -- 2. to 5., from the rows that were loaded.
  pub publish_loaded : ReviewRow → List FindingRow → Exec Error (Session W) (Unit {0})
  unfolding ◌>>=◌ ◌>>◌
  publish_loaded review findings = do
    current_sha ← fetch_head_sha server repo review.pr_number
    if not (current_sha == review.head_sha)
        then raise head_sha_mismatch
        else publish_current review findings

module _ {W : Type 0} (server : Server W) (body : FindingRow → String) where
  -- 1. Load, and publish. The split of the full name at its first `/` is a parameter. The result is
  -- the outcome with the session as it ends, or, if nothing was loaded, with no session.
  pub publish_review :
      (String → Option (String × String))
      → Tables
      → String
      → String
      → W
      → Result Error (Unit {0}) × Option (Session W)
  publish_review split_name tables review_id installation_id w =
      elim (select_review review_id installation_id tables) [
        | none ↦ (err review_not_found, none)
        | some review ↦ elim (find_repo review.repo_id installation_id tables.repos) [
          | none ↦ (err repo_not_found, none)
          | some repo ↦ elim (split_name repo.full_name) [
            | none ↦ (err bad_full_name, none)
            | some (owner, name) ↦
                (let loaded = filter (λ f. f.review_id == review_id) tables.findings in
                  let (r, s) =
                    publish_loaded server (owner, name) body review loaded
                      (record { review = review; findings = loaded; world = w; sent = [] }) in
                  (r, some s))
          ]
        ]
      ]

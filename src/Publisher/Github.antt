-- ===== src/Publisher/Github.antt =====
-- The requests of kenjutsu/pipeline/publisher.py to GitHub. The server is not the program's: it is a
-- function of the request and the state `W` of the world. Each request that is sent is noted.
use kenjutsu.Base.{
  ℕ, String, Bool, true, false, Option, none, some, List, [], ◌∷◌, ◌++◌, ◌&&◌, ◌==◌, nat_eq, ltb,
  leb, if◌then◌else◌,
}
use kenjutsu.Effect.{Result, ok, err, Exec, pure, raise, ◌>>=◌, ◌>>◌}
use kenjutsu.Publisher.Rows.{FindingRow, ReviewRow}

-- `owner` and `repo`, of which each URL `repos/{owner}/{repo}/...` is made.
abbrev pub RepoName : Type 0
RepoName = String × String

pub data Request : Type 0 where
  -- GET repos/{owner}/{repo}/pulls/{pr}
  get_pull : RepoName → ℕ → Request
  -- POST …/pulls/{pr}/reviews, with the commit
  post_review : RepoName → ℕ → String → Request
  -- PUT …/pulls/{pr}/reviews/{id}
  put_review : RepoName → ℕ → ℕ → Request
  -- POST …/pulls/{pr}/comments, with commit, path, line and body
  post_comment : RepoName → ℕ → String → String → ℕ → String → Request
  -- PATCH …/pulls/comments/{id}, with the body
  patch_comment : RepoName → ℕ → String → Request

-- The status code, and of the JSON body the field that the code reads, if it is there: `id`, or
-- `head.sha`.
pub record Response : Type 0 where
  pub status : ℕ
  pub id : Option ℕ
  pub head_sha : Option String

-- `none` is an exception of the transport.
pub record Server (W : Type 0) : Type 0 where
  pub send : Request → W → Option Response × W

pub data Error : Type 0 where
  review_not_found repo_not_found bad_full_name head_sha_mismatch : Error
  transport_error key_error : Error
  http_status_error : ℕ → Error

-- The rows that the session has loaded, the world, and the requests sent.
pub record Session (W : Type 0) : Type 0 where
  pub review : ReviewRow
  pub findings : List FindingRow
  pub world : W
  pub sent : List Request

module _ {W : Type 0} (server : Server W) (repo : RepoName) where
  abbrev received : Option Response → Result Error Response
  received none = err transport_error
  received (some r) = ok r

  send : Request → Exec Error (Session W) Response
  send request s =
      let (response, w) = server.send request s.world in
      (received response, record s { world = w; sent = s.sent ++ request ∷ [] })

  -- `resp.raise_for_status()` raises for every status outside 200 to 299.
  raise_for_status : Response → Exec Error (Session W) (Unit {0})
  raise_for_status r =
      if leb 200 r.status && ltb r.status 300 then pure tt else raise (http_status_error r.status)

  -- `data["id"]`
  abbrev field : {A : Type 0} → Option A → Exec Error (Session W) A
  field none = raise key_error
  field (some a) = pure a

  unfoldable pub create_review : ℕ → String → Exec Error (Session W) ℕ
  unfolding ◌>>=◌ ◌>>◌ send raise_for_status
  create_review pr_number head_sha = do
    resp ← send (post_review repo pr_number head_sha)
    raise_for_status resp
    field resp.id

  -- The end of both updates: false for 404.
  updated : Response → Exec Error (Session W) Bool
  unfolding ◌>>=◌ ◌>>◌ raise_for_status
  updated resp = if resp.status == 404 then pure false else (do raise_for_status resp; pure true)

  unfoldable pub update_review : ℕ → ℕ → Exec Error (Session W) Bool
  unfolding ◌>>=◌ send updated
  update_review pr_number review_id = do
    resp ← send (put_review repo pr_number review_id)
    updated resp

  unfoldable pub create_comment :
      (FindingRow → String) → ℕ → String → FindingRow → Exec Error (Session W) ℕ
  unfolding ◌>>=◌ ◌>>◌ send raise_for_status
  create_comment body pr_number commit_id f = do
    resp ← send (post_comment repo pr_number commit_id f.file_path f.line_end (body f))
    raise_for_status resp
    field resp.id

  unfoldable pub update_comment :
      (FindingRow → String) → ℕ → FindingRow → Exec Error (Session W) Bool
  unfolding ◌>>=◌ send updated
  update_comment body comment_id f = do
    resp ← send (patch_comment repo comment_id (body f))
    updated resp

  -- The head SHA of the pull request now.
  unfoldable pub fetch_head_sha : ℕ → Exec Error (Session W) String
  unfolding ◌>>=◌ ◌>>◌ send raise_for_status
  fetch_head_sha pr_number = do
    resp ← send (get_pull repo pr_number)
    raise_for_status resp
    field resp.head_sha

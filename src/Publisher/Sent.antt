-- ===== src/Publisher/Sent.antt =====
-- Which requests of kenjutsu/pipeline/publisher.py are sent: one for each call of the helpers.
use kenjutsu.Base.{ℕ, String, [], ◌∷◌, ◌++◌, ◌≡◌, arith, string_eq}
use kenjutsu.Publisher.Rows.{FindingRow}
use kenjutsu.Publisher.Github.{
  Server, RepoName, Session, get_pull, post_review, put_review, post_comment, patch_comment,
  create_review, update_review, create_comment, update_comment, fetch_head_sha,
}

module _ {W : Type 0} (server : Server W) (repo : RepoName) where
  pub sent-fetch_head_sha :
      (pr : ℕ) (s : Session W)
      → (fetch_head_sha server repo pr s).1.sent ≡ s.sent ++ get_pull repo pr ∷ []
  unfolding fetch_head_sha
  sent-fetch_head_sha pr s = ground arith

  pub sent-create_review :
      (pr : ℕ) (sha : String) (s : Session W)
      → (create_review server repo pr sha s).1.sent ≡ s.sent ++ post_review repo pr sha ∷ []
  unfolding create_review
  sent-create_review pr sha s = ground arith

  pub sent-update_review :
      (pr id : ℕ) (s : Session W)
      → (update_review server repo pr id s).1.sent ≡ s.sent ++ put_review repo pr id ∷ []
  unfolding update_review
  sent-update_review pr id s = ground arith

  module _ (body : FindingRow → String) where
    pub sent-create_comment :
        (pr : ℕ) (sha : String) (f : FindingRow) (s : Session W)
        → (create_comment server repo body pr sha f s).1.sent
          ≡ s.sent ++ post_comment repo pr sha f.file_path f.line_end (body f) ∷ []
    unfolding create_comment
    sent-create_comment pr sha f s = ground arith

    pub sent-update_comment :
        (id : ℕ) (f : FindingRow) (s : Session W)
        → (update_comment server repo body id f s).1.sent
          ≡ s.sent ++ patch_comment repo id (body f) ∷ []
    unfolding update_comment
    sent-update_comment id f s = ground arith

-- ===== src/Publisher/Retry.antt =====
-- A repeated publication updates what exists on GitHub instead of posting it again.
use kenjutsu.Base.{
  ℕ, String, Bool, true, false, none, some, List, [], ◌∷◌, ◌++◌, ◌≡◌, ◌≢◌, refl, ◌∙◌, arith, ap,
  count, count-append, filter, In, In-filter, ◌⊎◌, Bool-cases, Option-cases, inl, inr, ◌==◌,
  string_eq, nat_eq, if◌then◌else◌,
}
use kenjutsu.Effect.{ok, Exec, pure, bind_cases, ◌>>=◌}
use kenjutsu.Publisher.Rows.{FindingRow, ReviewRow}
use kenjutsu.Publisher.Github.{
  Server, RepoName, Session, Request, Response, get_pull, post_review, put_review, post_comment,
  patch_comment, Error, update_review, update_comment, fetch_head_sha,
}
use kenjutsu.Publisher.Sent.{sent-fetch_head_sha, sent-update_review, sent-update_comment}
use kenjutsu.Publisher.{
  Comments, is_publishable, existing_comment, recreate_review, ensure_review, publish_current,
  new_comment, publish_comment, publish_comments, publish_loaded, stored_comments,
}

-- A request that makes a new review or comment.
abbrev pub is_creation : Request → Bool
is_creation (post_review _ _ _) = true
is_creation (post_comment _ _ _ _ _ _) = true
is_creation _ = false

abbrev pub creations : {W : Type 0} → Session W → ℕ
creations s = count is_creation s.sent

-- Nothing was deleted: no update is answered with status 404.
abbrev pub IsPresent : {W : Type 0} → Server W → Type 0
IsPresent server =
    (request : Request) (w : _) (r : Response)
    → is_creation request ≡ false
    → (server.send request w).0 ≡ some r
    → (r.status == 404) ≡ false

module _ {W : Type 0} (server : Server W) (repo : RepoName) (body : FindingRow → String)
    (present : IsPresent server) where
  creations-bind :
      {A B : Type 0} (m : Exec Error (Session W) A) (f : A → Exec Error (Session W) B)
      (s : Session W)
      → creations (m s).1 ≡ creations s
      → ((a : A) → (m s).0 ≡ ok a → (t : Session W) → creations (f a t).1 ≡ creations t)
      → creations ((m >>= f) s).1 ≡ creations s
  creations-bind m f s k l =
      bind_cases (λ r. creations r.1 ≡ creations s) m f s (λ e h. k) λ a h. l a h (m s).1 ∙ k

  one_more :
      (s t : Session W) (request : Request)
      → t.sent ≡ s.sent ++ request ∷ []
      → is_creation request ≡ false
      → creations t ≡ creations s
  one_more s t request e h =
      ap (count is_creation) e ∙ ground (arith, count-append is_creation s.sent (request ∷ []))

  update_review-true :
      (pr id : ℕ) (s : Session W) (b : Bool)
      → (update_review server repo pr id s).0 ≡ ok b
      → b ≡ true
  unfolding update_review
  update_review-true pr id s b h =
      elim (Option-cases (server.send (put_review repo pr id) s.world).0) [
        | inl e ↦ ground arith
        | inr (r, e) ↦ ground (arith, present (put_review repo pr id) s.world r refl e)
      ]

  update_comment-true :
      (id : ℕ) (f : FindingRow) (s : Session W) (b : Bool)
      → (update_comment server repo body id f s).0 ≡ ok b
      → b ≡ true
  unfolding update_comment
  update_comment-true id f s b h =
      elim (Option-cases (server.send (patch_comment repo id (body f)) s.world).0) [
        | inl e ↦ ground arith
        | inr (r, e) ↦ ground (arith, present (patch_comment repo id (body f)) s.world r refl e)
      ]

  creations-ensure_review :
      (id pr : ℕ) (sha : String) (comments : Comments) (s : Session W)
      → creations (ensure_review server repo (some id) pr sha comments s).1 ≡ creations s
  unfolding ensure_review
  creations-ensure_review id pr sha comments s =
      creations-bind (update_review server repo pr id)
        (λ there. if there then pure comments else recreate_review server repo pr sha) s
        (one_more s (update_review server repo pr id s).1 (put_review repo pr id)
          (sent-update_review server repo pr id s) refl)
        λ there h t. rw (update_review-true pr id s there h) refl

  module _ (f : FindingRow) (id pr : ℕ) (sha : String) (comments : Comments) (s : Session W) where
    abbrev continued : Bool → Exec Error (Session W) Comments
    continued there =
        if there then pure comments else new_comment server repo body pr sha f comments

    publish_comment-comments :
        (c : Comments)
        → (publish_comment server repo body (some id) pr sha f comments s).0 ≡ ok c
        → c ≡ comments
    unfolding publish_comment
    publish_comment-comments c =
        bind_cases (λ r. r.0 ≡ ok c → c ≡ comments) (update_comment server repo body id f) _ s
          (λ e h k. cc) λ there h. rw (update_comment-true id f s there h) (λ k. cc)

    creations-publish_comment :
        creations (publish_comment server repo body (some id) pr sha f comments s).1 ≡ creations s
    unfolding publish_comment
    creations-publish_comment =
        creations-bind (update_comment server repo body id f) _ s
          (one_more s (update_comment server repo body id f s).1 (patch_comment repo id (body f))
            (sent-update_comment server repo body id f s) refl)
          λ there h t. rw (update_comment-true id f s there h) refl

  creations-publish_comments :
      (pr : ℕ) (sha : String) (fs : List FindingRow) (comments : Comments) (s : Session W)
      → ((f : FindingRow) → In f fs → existing_comment comments f ≢ none)
      → creations (publish_comments server repo body pr sha fs comments s).1 ≡ creations s
  unfolding publish_comments
  creations-publish_comments pr sha [] comments s linked = refl
  creations-publish_comments pr sha (f ∷ fs) comments s linked =
      elim (Option-cases (existing_comment comments f)) [
        | inl e ↦ absurd (linked f (inl refl) e)
        | inr (id, e) ↦ rw e (
            creations-bind (publish_comment server repo body (some id) pr sha f comments)
              (publish_comments server repo body pr sha fs) s
              (creations-publish_comment f id pr sha comments s)
              λ c h t.
                rw (publish_comment-comments f id pr sha comments s c h)
                  (creations-publish_comments pr sha fs comments t (λ g m. linked g (inr m))))
      ]

  ensure_review-comments :
      (id pr : ℕ) (sha : String) (comments : Comments) (s : Session W) (c : Comments)
      → (ensure_review server repo (some id) pr sha comments s).0 ≡ ok c
      → c ≡ comments
  unfolding ensure_review
  ensure_review-comments id pr sha comments s c =
      bind_cases (λ r. r.0 ≡ ok c → c ≡ comments) (update_review server repo pr id)
        (λ there. if there then pure comments else recreate_review server repo pr sha) s
        (λ e h k. cc) λ there h. rw (update_review-true pr id s there h) (λ k. cc)

  module _ (review : ReviewRow) (findings : List FindingRow)
      (linked : (f : FindingRow)
        → In f findings
        → is_publishable f ≡ true
        → existing_comment (stored_comments review.github_comment_ids) f ≢ none) where
    abbrev stored : Comments
    stored = stored_comments review.github_comment_ids

    creations-publish_current :
        (id : ℕ) (s : Session W)
        → review.github_review_id ≡ some id
        → creations (publish_current server repo body review findings s).1 ≡ creations s
    unfolding publish_current
    creations-publish_current id s e = rw e (
        creations-bind (ensure_review server repo (some id) review.pr_number review.head_sha stored)
          _ s (creations-ensure_review id review.pr_number review.head_sha stored s)
          λ c h t. rw (ensure_review-comments id review.pr_number review.head_sha stored s c h) (
            creations-bind
              (publish_comments server repo body review.pr_number review.head_sha
                (filter is_publishable findings) stored)
              _ t
              (creations-publish_comments review.pr_number review.head_sha _ stored t (λ f m.
                let (there, open_to) = In-filter is_publishable f findings m in
                linked f there open_to))
              λ c' h' u. refl))

  -- A review that is on GitHub, with a known comment for each publishable finding, and that GitHub
  -- still has in full, is published again without a single new review or comment: every request of
  -- the repeated run is a read or an update, however the run ends.
  pub retry_creates_nothing :
      (review : ReviewRow) (findings : List FindingRow) (s : Session W)
      → review.github_review_id ≢ none
      → ((f : FindingRow)
          → In f findings
          → is_publishable f ≡ true
          → existing_comment (stored_comments review.github_comment_ids) f ≢ none)
      → creations (publish_loaded server repo body review findings s).1 ≡ creations s
  unfolding publish_loaded
  retry_creates_nothing review findings s known linked =
      creations-bind (fetch_head_sha server repo review.pr_number) _ s
        (one_more s (fetch_head_sha server repo review.pr_number s).1
          (get_pull repo review.pr_number) (sent-fetch_head_sha server repo review.pr_number s)
          refl)
        λ current h t. elim (Bool-cases (current == review.head_sha)) [
          | inl same ↦ rw same (at_commit t (Option-cases review.github_review_id))
          | inr other ↦ rw other refl
        ]
    where
      at_commit :
          (t : Session W)
          → (review.github_review_id ≡ none) ⊎ ((id : ℕ) × (review.github_review_id ≡ some id))
          → creations (publish_current server repo body review findings t).1 ≡ creations t
      at_commit t (inl e) = absurd (known e)
      at_commit t (inr (id, e)) = creations-publish_current review findings linked id t e

-- ===== src/Publisher/Stale.antt =====
-- The SHA guard of a publication.
use kenjutsu.Base.{
  ℕ, String, ◌≡◌, ◌≢◌, refl, arith, ◌==◌, string_eq, nat_eq, ap, List, [], ◌∷◌, ◌++◌, inl, inr,
  Bool-cases, ◌∙◌,
}
use kenjutsu.Effect.{ok, err, raise, bind_cases}
use text.Mathlib.TextEquality.{eq_iff}
use kenjutsu.Publisher.Rows.{FindingRow, ReviewRow}
use kenjutsu.Publisher.Github.{
  Server, RepoName, Session, get_pull, Error, head_sha_mismatch, fetch_head_sha,
}
use kenjutsu.Publisher.Sent.{sent-fetch_head_sha}
use kenjutsu.Publisher.{publish_loaded}

-- The rows of a session, which a guard that fails must leave alone.
abbrev pub SameRows : {W : Type 0} → Session W → Session W → Type 0
SameRows s t = (t.review ≡ s.review) × (t.findings ≡ s.findings)

module _ {W : Type 0} (server : Server W) (repo : RepoName) where
  fetch_head_sha-SameRows :
      (pr : ℕ) (s : Session W) → SameRows s (fetch_head_sha server repo pr s).1
  unfolding fetch_head_sha
  fetch_head_sha-SameRows pr s = ground arith

  -- Unless GitHub reports the head SHA that the review was made for, a publication raises, has sent
  -- the one request that asks for the SHA, and has changed no row.
  pub stale_publishes_nothing :
      (body : FindingRow → String) (review : ReviewRow) (findings : List FindingRow) (s : Session W)
      → (fetch_head_sha server repo review.pr_number s).0 ≢ ok review.head_sha
      → ((e : Error) × ((publish_loaded server repo body review findings s).0 ≡ err e))
        × ((publish_loaded server repo body review findings s).1.sent
            ≡ s.sent ++ get_pull repo review.pr_number ∷ [])
        × SameRows s (publish_loaded server repo body review findings s).1
  unfolding publish_loaded
  stale_publishes_nothing body review findings s n =
      bind_cases
        (λ r.
          ((e : Error) × (r.0 ≡ err e))
          × (r.1.sent ≡ s.sent ++ get_pull repo review.pr_number ∷ [])
          × SameRows s r.1)
        (fetch_head_sha server repo review.pr_number) _ s
        (λ e h. (
          (e, refl),
          sent-fetch_head_sha server repo review.pr_number s,
          fetch_head_sha-SameRows review.pr_number s,
        ))
        λ sha h. elim (Bool-cases (sha == review.head_sha)) [
          | inl same ↦ absurd (n (h ∙ ap ok ((eq_iff sha review.head_sha).0 same)))
          | inr other ↦
              rw (other, raise)
                (
                  (head_sha_mismatch, refl),
                  sent-fetch_head_sha server repo review.pr_number s,
                  fetch_head_sha-SameRows review.pr_number s,
                )
        ]

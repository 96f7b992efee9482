-- ===== src/Publisher/Tenant.antt =====
-- The tenant that a publication is scoped to.
use kenjutsu.Base.{
  String, Option, some, List, [], ◌∷◌, ◌≡◌, refl, subst, arith, ◌==◌, string_eq, inl, inr,
  Option-cases, In, All, filter,
}
use text.Mathlib.TextEquality.{eq_iff}
use kenjutsu.Publisher.Rows.{
  FindingRow, ReviewRow, RepoRow, Tables, find_review, find_repo, select_review,
}
use kenjutsu.Publisher.Github.{Server, RepoName, Session}
use kenjutsu.Publisher.Known.{DistinctIds, DistinctIds-filter}
use kenjutsu.Publisher.Scope.{Belongs, sends_only_publishable}
use kenjutsu.Publisher.{publish_loaded, publish_review}

In-find_review :
    (id : String) (rs : List ReviewRow) (r : ReviewRow)
    → find_review id rs ≡ some r
    → In r rs × (r.id ≡ id)
unfolding find_review
In-find_review id [] r h = cc
In-find_review id (x ∷ rs) r h = ground (arith, In-find_review id rs r, eq_iff x.id id)

In-find_repo :
    (id inst : String) (rs : List RepoRow) (r : RepoRow)
    → find_repo id inst rs ≡ some r
    → In r rs × (r.id ≡ id) × (r.installation_id ≡ inst)
unfolding find_repo
In-find_repo id inst [] r h = cc
In-find_repo id inst (x ∷ rs) r h =
    ground (arith, In-find_repo id inst rs r, eq_iff x.id id, eq_iff x.installation_id inst)

-- The review and the repository that a publication is for, and its requests.
pub record OfTenant {W : Type 0} (body : FindingRow → String)
    (split_name : String → Option (String × String)) (t : Tables)
    (review_id installation_id : String) (s : Session W) : Type 0 where
  pub review : ReviewRow
  pub repo : RepoRow
  pub name : RepoName
  pub of_review : In review t.reviews × (review.id ≡ review_id)
  pub of_tenant :
      In repo t.repos × (repo.id ≡ review.repo_id) × (repo.installation_id ≡ installation_id)
  pub named : split_name repo.full_name ≡ some name
  pub requests :
      All (Belongs name body review (filter (λ f. f.review_id == review_id) t.findings)) s.sent

module _ {W : Type 0} (server : Server W) (body : FindingRow → String)
    (split_name : String → Option (String × String)) (t : Tables)
    (review_id installation_id : String) (w : W) where
  abbrev own : List FindingRow
  own = filter (λ f. f.review_id == review_id) t.findings

  abbrev opened : ReviewRow → Session W
  opened review = record { review = review; findings = own; world = w; sent = [] }

  publish_review-opened :
      (review : ReviewRow) (repo : RepoRow) (name : RepoName)
      → find_review review_id t.reviews ≡ some review
      → find_repo review.repo_id installation_id t.repos ≡ some repo
      → split_name repo.full_name ≡ some name
      → (publish_review server body split_name t review_id installation_id w).1
        ≡ some (publish_loaded server name body review own (opened review)).1
  unfolding publish_review select_review
  publish_review-opened review repo name e d n = rw (e, d, d, n, publish_review) refl

  -- Where the findings have distinct ids: the session in which a publication ends has sent requests
  -- for a review with the given id only, to the repository of that review, which belongs to the given
  -- installation, and with the findings of that review alone: each request belongs to that review, and
  -- its comments are of findings whose review is the given one.
  pub publish_review-OfTenant :
      (s : Session W)
      → DistinctIds t.findings
      → (publish_review server body split_name t review_id installation_id w).1 ≡ some s
      → OfTenant body split_name t review_id installation_id s
  unfolding publish_review select_review
  publish_review-OfTenant s distinct h = elim (Option-cases (find_review review_id t.reviews)) [
    | inl e ↦ absurd (ground arith)
    | inr (review, e) ↦ elim (Option-cases (find_repo review.repo_id installation_id t.repos)) [
      | inl d ↦ absurd (ground arith)
      | inr (repo, d) ↦ elim (Option-cases (split_name repo.full_name)) [
        | inl n ↦ absurd (ground arith)
        | inr (name, n) ↦
            let same : (publish_loaded server name body review own (opened review)).1 ≡ s =
              cc (h, publish_review-opened review repo name e d n) in
            record {
              review = review;
              repo = repo;
              name = name;
              of_review = In-find_review review_id t.reviews review e;
              of_tenant = In-find_repo review.repo_id installation_id t.repos repo d;
              named = n;
              requests =
                  subst (λ x. All (Belongs name body review own) x.sent) same
                    (sends_only_publishable server name body review own (opened review)
                      (DistinctIds-filter _ t.findings distinct) tt);
            }
      ]
    ]
  ]

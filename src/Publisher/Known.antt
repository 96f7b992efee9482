-- ===== src/Publisher/Known.antt =====
-- Which comment ids a publication knows: those that were stored, and for a finding that it has turned
-- to, the one that it made.
use kenjutsu.Base.{
  ℕ, String, Bool, true, false, Option, none, some, List, [], ◌∷◌, ◌≡◌, refl, ◌∙◌, arith, filter,
  In, In-filter, inl, inr, ◌⊎◌, Option-cases, Bool-cases, ◌==◌, string_eq, nat_eq, if◌then◌else◌,
}
use kenjutsu.Dict
use kenjutsu.Dict.{get-put, get-empty}
use kenjutsu.Effect.{ok, pure, bind_cases, ◌>>=◌, ◌>>◌}
use kenjutsu.Publisher.Rows.{FindingRow}
use kenjutsu.Publisher.Github.{
  Server, RepoName, Session, create_review, update_review, create_comment, update_comment,
}
use kenjutsu.Publisher.{
  Comments, set_published, existing_comment, or_else, recreate_review, ensure_review, new_comment,
  publish_comment,
}

-- The ids are a primary key.
unfoldable pub DistinctIds : List FindingRow → Type 0
DistinctIds [] = Unit
DistinctIds (f ∷ fs) = ((g : FindingRow) → In g fs → (f.id == g.id) ≡ false) × DistinctIds fs

pub DistinctIds-filter :
    (p : FindingRow → Bool) (fs : List FindingRow) → DistinctIds fs → DistinctIds (filter p fs)
unfolding DistinctIds
DistinctIds-filter p [] h = tt
DistinctIds-filter p (f ∷ fs) h = elim (Bool-cases (p f)) [
  | inl y ↦ rw y ((λ g m. h.0 g (In-filter p g fs m).0), DistinctIds-filter p fs h.1)
  | inr n ↦ rw n (DistinctIds-filter p fs h.1)
]

-- The known comments of these findings are among the stored ones.
abbrev pub IsStored : Comments → Comments → List FindingRow → Type 0
IsStored stored comments fs =
    (f : FindingRow)
    → In f fs
    → (id : ℕ) → Dict.get comments f.id ≡ some id
    → Dict.get stored f.id ≡ some id

pub existing_comment-cases :
    (comments : Comments) (f : FindingRow) (id : ℕ)
    → existing_comment comments f ≡ some id
    → (Dict.get comments f.id ≡ some id) ⊎ (f.github_comment_id ≡ some id)
unfolding existing_comment or_else
existing_comment-cases comments f id h = elim (Option-cases (Dict.get comments f.id)) [
  | inl e ↦ inr (rw e at h)
  | inr (known, e) ↦ elim (Bool-cases (known == 0)) [
    | inl y ↦ inr (rw (e, y) at h)
    | inr n ↦ inl (e ∙ (rw (e, n) at h))
  ]
]

module _ {W : Type 0} (server : Server W) (repo : RepoName) where
  -- The comments that are known after the review was ensured are stored ones.
  pub ensure_review-IsStored :
      (id : Option ℕ) (pr : ℕ) (sha : String) (stored : Comments) (fs : List FindingRow)
      (s : Session W) (c : Comments)
      → (ensure_review server repo id pr sha stored s).0 ≡ ok c
      → IsStored stored c fs
  unfolding ensure_review recreate_review ◌>>=◌ ◌>>◌ pure
  ensure_review-IsStored none pr sha stored fs s c =
      bind_cases (λ r. r.0 ≡ ok c → IsStored stored c fs) (create_review server repo pr sha) _ s
        (λ e h k. absurd (ground (arith, k)))
        (λ id h k. let same : stored ≡ c = cc k in λ f m n there. rw same there)
  ensure_review-IsStored (some id) pr sha stored fs s c =
      bind_cases (λ r. r.0 ≡ ok c → IsStored stored c fs) (update_review server repo pr id) _ s
        (λ e h k. absurd (ground (arith, k)))
        (λ there h. after_update there (update_review server repo pr id s).1)
    where
      after_update :
          (there : Bool) (t : Session W)
          → ((if there then pure stored else recreate_review server repo pr sha) t).0 ≡ ok c
          → IsStored stored c fs
      after_update true t k = let same : stored ≡ c = cc k in λ f m n there. rw same there
      after_update false t ended =
          bind_cases (λ r. r.0 ≡ ok c → IsStored stored c fs) (create_review server repo pr sha) _ t
            (λ e h k. absurd (ground (arith, k)))
            (λ id h k.
              let same : Dict.empty ≡ c = cc k in
              λ f m n there. absurd (ground (arith, get-empty {V = ℕ} f.id, rw (← same) at there)))
            ended

  module _ (body : FindingRow → String) (pr : ℕ) (sha : String) (f : FindingRow) (key : String)
      (other : (f.id == key) ≡ false) where
    new_comment-other :
        (comments : Comments) (s : Session W) (c : Comments)
        → (new_comment server repo body pr sha f comments s).0 ≡ ok c
        → Dict.get c key ≡ Dict.get comments key
    unfolding new_comment ◌>>=◌ ◌>>◌ pure
    new_comment-other comments s c =
        bind_cases (λ r. r.0 ≡ ok c → Dict.get c key ≡ Dict.get comments key)
          (create_comment server repo body pr sha f) _ s (λ e h k. absurd (ground (arith, k)))
          (λ id h k.
            let same : Dict.put comments f.id id ≡ c = cc k in
            rw (← same, get-put comments f.id id key, other) refl)

    pub publish_comment-other :
        (old : Option ℕ) (comments : Comments) (s : Session W) (c : Comments)
        → (publish_comment server repo body old pr sha f comments s).0 ≡ ok c
        → Dict.get c key ≡ Dict.get comments key
    unfolding publish_comment ◌>>=◌ ◌>>◌ pure
    publish_comment-other none comments s c =
        bind_cases (λ r. r.0 ≡ ok c → Dict.get c key ≡ Dict.get comments key)
          (new_comment server repo body pr sha f comments) _ s (λ e h k. absurd (ground (arith, k)))
          (λ made h k.
            let same : made ≡ c = cc k in rw (← same) (new_comment-other comments s made h))
    publish_comment-other (some id) comments s c =
        bind_cases (λ r. r.0 ≡ ok c → Dict.get c key ≡ Dict.get comments key)
          (update_comment server repo body id f) _ s (λ e h k. absurd (ground (arith, k)))
          (λ there h. after_update there (update_comment server repo body id f s).1)
      where
        after_update :
            (there : Bool) (t : Session W)
            → (((if there then pure comments else new_comment server repo body pr sha f comments)
                  >>= λ made. set_published f.id >> pure made)
                t).0
              ≡ ok c
            → Dict.get c key ≡ Dict.get comments key
        after_update true t k = let same : comments ≡ c = cc k in rw same refl
        after_update false t k =
            bind_cases (λ r. r.0 ≡ ok c → Dict.get c key ≡ Dict.get comments key)
              (new_comment server repo body pr sha f comments)
              (λ made. set_published f.id >> pure made) t (λ e h k. absurd (ground (arith, k)))
              (λ made h k.
                let same : made ≡ c = cc k in rw (← same) (new_comment-other comments t made h))
              k

-- ===== src/Workflow/Safety.antt =====
-- A run of the workflow publishes at most once, and only what the guard has just let through.
use kenjutsu.Base.{
  String, Bool, true, false, List, [], ◌∷◌, ◌++◌, ◌≡◌, refl, ◌⊎◌, inl, inr, arith, ap, ◌∙◌,
}
use kenjutsu.Effect.{bind_cases, Result-cases, ok}
use kenjutsu.Finding.{Finding}
use kenjutsu.Workflow.{
  PrMetadata, Publication, Logic, Run, step_update_status, step_sha_guard, publish_checked, analyse,
  review_guarded, run_review_pipeline, publishing, sha_checking,
}

module _ {E W : Type 0} (l : Logic E W) (pr : PrMetadata) (id : String) where
  publications-analyse : (s : Run W) → (analyse l pr id s).1.publications ≡ s.publications
  unfolding analyse
  publications-analyse s = ground arith

  abbrev pub published : List Finding → W → Publication W
  published findings w = record { findings = findings; pr = pr; world = w }

  -- Between the two states nothing was published, or these findings were, in the world
  -- that a guard left which had answered that the head SHA is current.
  abbrev pub Published : List Finding → Run W → Run W → Type 0
  Published findings s t =
      (t.publications ≡ s.publications)
      ⊎ ((w v : W) × (l.sha_guard pr w ≡ (ok true, v))
          × (t.publications ≡ s.publications ++ published findings v ∷ []))

  publish_checked-Published :
      (findings : List Finding) (s : Run W)
      → Published findings s (publish_checked l pr id findings s).1
  unfolding publish_checked
  publish_checked-Published findings s =
      let w : W = (l.update_review_status id publishing s.world).1 in
      elim (Result-cases (l.sha_guard pr w).0) [
        | inl (true, h) ↦ elim (Result-cases (l.update_review_status id publishing s.world).0) [
          | inl (_, u) ↦
              inr (w, (l.sha_guard pr w).1, (λ i. (h i, (l.sha_guard pr w).1)), ground arith)
          | inr (e, u) ↦ inl (ground arith)
        ]
        | inl (false, h) ↦ inl (ground arith)
        | inr (e, h) ↦ inl (ground arith)
      ]

  -- As `Published`, for some findings.
  abbrev pub PublishedOnce : Run W → Run W → Type 0
  PublishedOnce s t =
      (t.publications ≡ s.publications)
      ⊎ ((findings : List Finding) × (w v : W) × (l.sha_guard pr w ≡ (ok true, v))
          × (t.publications ≡ s.publications ++ published findings v ∷ []))

  Published→Once :
      (findings : List Finding) (r s t : Run W)
      → s.publications ≡ r.publications
      → Published findings s t
      → PublishedOnce r t
  Published→Once findings r s t e (inl h) = inl (h ∙ e)
  Published→Once findings r s t e (inr (w, v, g, h)) =
      inr (findings, w, v, g, h ∙ ap (λ p. p ++ published findings v ∷ []) e)

  review_guarded-PublishedOnce :
      (current : Bool) (s : Run W) → PublishedOnce s (review_guarded l pr id current s).1
  unfolding review_guarded
  review_guarded-PublishedOnce false s = inl (ground arith)
  review_guarded-PublishedOnce true s =
      bind_cases (λ r. PublishedOnce s r.1) (analyse l pr id) (publish_checked l pr id) s
        (λ e h. inl (publications-analyse s))
        λ findings h.
          Published→Once findings s (analyse l pr id s).1
            (publish_checked l pr id findings (analyse l pr id s).1).1 (publications-analyse s)
            (publish_checked-Published findings (analyse l pr id s).1)

  -- However a run ends, it has published nothing, or it has called `publish` once, for this pull
  -- request, in the world that a call of the guard left which answered that the head SHA is current.
  pub publishes_once_after_guard : (s : Run W) → PublishedOnce s (run_review_pipeline l pr id s).1
  unfolding run_review_pipeline
  publishes_once_after_guard s =
      bind_cases (λ r. PublishedOnce s r.1) (step_update_status l id sha_checking) _ s
        (λ e h. inl refl)
        λ _ h.
          bind_cases (λ r. PublishedOnce s r.1) (step_sha_guard l pr) (review_guarded l pr id) _
            (λ e h'. inl refl) λ current h'. review_guarded-PublishedOnce current _

-- ===== src/Workflow/Rules.antt =====
-- The rules by which the status updates of a block are those of its parts, in order.
use mathlib.Core.List.{append_assoc, append-nil, map-append}
use kenjutsu.Base.{String, List, [], ◌∷◌, ◌++◌, map, ◌≡◌, refl, inl, inr, sym}
use kenjutsu.Effect.{Result, Result-cases, Exec, ok, err, pure, ◌>>=◌, ◌>>◌}
use kenjutsu.Finding.{Finding}
use kenjutsu.Workflow.{ReviewStatus, PrMetadata, Logic, Run, step, step_update_status, step_publish}

-- The updates `path` of the review `id` as they are persisted.
abbrev pub stamped : String → List ReviewStatus → List (String × ReviewStatus)
stamped id = map (λ st. (id, st))

pub statuses_join :
    (id : String) (xs ys zs : List (String × ReviewStatus)) (p q : List ReviewStatus)
    → ys ≡ xs ++ stamped id p
    → zs ≡ ys ++ stamped id q
    → zs ≡ xs ++ stamped id (p ++ q)
statuses_join id xs ys zs p q h k = rw (k, h, map-append, append_assoc)

module _ {E W : Type 0} (id : String) where
  -- A call that returned has persisted exactly the updates `path`, and its result has `P`; a call
  -- that raised has persisted a part of them, from the front.
  abbrev pub Ended :
      {A : Type 0} → List ReviewStatus → (A → Type 0) → Run W → Result E A × Run W → Type 0
  Ended path P s (ok a, t) = (t.statuses ≡ s.statuses ++ stamped id path) × P a
  Ended path P s (err e, t) =
      (front back : List ReviewStatus) × (path ≡ front ++ back)
      × (t.statuses ≡ s.statuses ++ stamped id front)

  pub Ended-after :
      {A : Type 0} (p q : List ReviewStatus) (P : A → Type 0) (s t : Run W) (r : Result E A × Run W)
      → t.statuses ≡ s.statuses ++ stamped id p
      → Ended q P t r
      → Ended (p ++ q) P s r
  Ended-after p q P s t (ok a, u) h k = (statuses_join id _ _ _ p q h k.0, k.1)
  Ended-after p q P s t (err e, u) h (front, back, split, k) = (
    p ++ front,
    back,
    rw split (sym (append_assoc p front back)),
    statuses_join id _ _ _ p front h k,
  )

  -- The rule for a block whose continuation may end in several ways.
  pub Ended-bind :
      {A B I : Type 0} (i₀ : I) (p : List ReviewStatus) (q : I → List ReviewStatus) (Q : A → Type 0)
      (P : I → B → Type 0) (m : Exec E (Run W) A) (f : A → Exec E (Run W) B) (s : Run W)
      → Ended p Q s (m s)
      → ((a : A) (t : Run W) → (i : I) × Ended (q i) (P i) t (f a t))
      → (i : I) × Ended (p ++ q i) (P i) s ((m >>= f) s)
  unfolding ◌>>=◌
  Ended-bind {A} i₀ p q Q P m f s h k = go (m s) h
    where
      go :
          (r : Result E A × Run W)
          → Ended p Q s r
          → (i : _) × Ended (p ++ q i) (P i) s (◌>>=◌ (λ (_ : Run W). r) f s)
      go (ok a, t) h = let (i, e) = k a t in (i, Ended-after p (q i) (P i) s t (f a t) h.0 e)
      go (err e, t) (front, back, split, h) =
          (i₀, (front, back ++ q i₀, rw split (append_assoc front back (q i₀)), h))

-- No demand on a result.
abbrev pub Any : {A : Type 0} → A → Type 0
Any _ = Unit {0}

module _ {E W : Type 0} (l : Logic E W) (pr : PrMetadata) (id : String) where
  pub Ended-update :
      (st : ReviewStatus) (s : Run W) → Ended id (st ∷ []) Any s (step_update_status l id st s)
  unfolding step_update_status
  Ended-update st s = elim (Result-cases (l.update_review_status id st s.world).0) [
    | inl (_, h) ↦ rw h (refl, tt)
    | inr (e, h) ↦ rw h ([], st ∷ [], refl, sym (append-nil _))
  ]

  pub Ended-step : {A : Type 0} (m : Exec E W A) (s : Run W) → Ended id [] Any s (step m s)
  unfolding step
  Ended-step m s = elim (Result-cases (m s.world).0) [
    | inl (_, h) ↦ rw h (sym (append-nil _), tt)
    | inr (e, h) ↦ rw h ([], [], refl, sym (append-nil _))
  ]

  -- The rules for a block that goes on in one way, after an update and after any other step.
  pub Ended-then :
      {A B : Type 0} (p q : List ReviewStatus) (P : B → Type 0) (m : Exec E (Run W) A)
      (f : A → Exec E (Run W) B) (s : Run W)
      → Ended id p Any s (m s)
      → ((a : A) (t : Run W) → Ended id q P t (f a t))
      → Ended id (p ++ q) P s ((m >>= f) s)
  Ended-then p q P m f s h k =
      (Ended-bind id {I = Unit {0}} tt p (λ _. q) Any (λ _. P) m f s h λ a t. (tt, k a t)).1

  pub Ended-update_then :
      {B : Type 0} (st : ReviewStatus) (q : List ReviewStatus) (P : B → Type 0)
      (f : Exec E (Run W) B) (s : Run W)
      → ((t : Run W) → Ended id q P t (f t))
      → Ended id (st ∷ q) P s ((step_update_status l id st >> f) s)
  unfolding ◌>>◌
  Ended-update_then st q P f s k =
      Ended-then (st ∷ []) q P (step_update_status l id st) (λ _. f) s (Ended-update st s)
        λ _ t. k t

  pub Ended-step_then :
      {A B : Type 0} (q : List ReviewStatus) (P : B → Type 0) (m : Exec E W A)
      (f : A → Exec E (Run W) B) (s : Run W)
      → ((a : A) (t : Run W) → Ended id q P t (f a t))
      → Ended id q P s ((step m >>= f) s)
  Ended-step_then q P m f s k = Ended-then [] q P (step m) f s (Ended-step m s) k

  pub Ended-pure :
      {A : Type 0} (P : A → Type 0) (a : A) (s : Run W) → P a → Ended id [] P s (pure {E = E} a s)
  unfolding pure
  Ended-pure P a s h = (sym (append-nil s.statuses), h)

  pub Ended-publish :
      (findings : List Finding) (s : Run W) → Ended id [] Any s (step_publish l findings pr s)
  unfolding step_publish
  Ended-publish findings s = elim (Result-cases (l.publish findings pr s.world).0) [
    | inl (_, h) ↦ rw h (sym (append-nil _), tt)
    | inr (e, h) ↦ rw h ([], [], refl, sym (append-nil _))
  ]

-- ===== src/Evaluation/Matching.antt =====
-- `match_findings` of kenjutsu/evaluation/runner.py: produced findings are split, expected ones paired.
use kenjutsu.Base.{
  true, false, ◌+◌, ◌≡◌, refl, sym, ap, subst, ◌∙◌, none, some, List, [], ◌∷◌, ◌++◌, arith, length,
  length-append, In, inl, inr, ◌⊎◌, Bool-cases, Option-cases, some_eq,
}
use kenjutsu.Finding.{Finding}
use kenjutsu.Evaluation.{
  AnnotatedFinding, Classified, matches, pop_match, classified, classify, match_findings,
}

-- `Popped f l r`: `r` is `l` without its first match of `f`.
pub data Popped (f : Finding) : List AnnotatedFinding → List AnnotatedFinding → Type 0 where
  here :
      (a : AnnotatedFinding) (l : List AnnotatedFinding) → matches f a ≡ true → Popped f (a ∷ l) l
  later :
      (a : AnnotatedFinding) (l r : List AnnotatedFinding)
      → matches f a ≡ false
      → Popped f l r
      → Popped f (a ∷ l) (a ∷ r)

-- `Interleaved ps ts fs`: `ps` is `ts` and `fs`, each in its order.
pub data Interleaved : List Finding → List Finding → List Finding → Type 0 where
  start : Interleaved [] [] []
  left :
      (ps ts fs : List Finding) (f : Finding)
      → Interleaved ps ts fs
      → Interleaved (ps ++ f ∷ []) (ts ++ f ∷ []) fs
  right :
      (ps ts fs : List Finding) (f : Finding)
      → Interleaved ps ts fs
      → Interleaved (ps ++ f ∷ []) ts (fs ++ f ∷ [])

-- `Paired ts es ms`: each of `ts`, in turn, takes its first match away from `es`, and `ms` is left.
pub data Paired : List Finding → List AnnotatedFinding → List AnnotatedFinding → Type 0 where
  unpaired : (es : List AnnotatedFinding) → Paired [] es es
  pair :
      (ts : List Finding) (es ms rest : List AnnotatedFinding) (f : Finding)
      → Paired ts es ms
      → Popped f ms rest
      → Paired (ts ++ f ∷ []) es rest

append_assoc : (a b c : List Finding) → (a ++ b) ++ c ≡ a ++ (b ++ c)
append_assoc [] b c = refl
append_assoc (x ∷ a) b c = ap (λ l. x ∷ l) (append_assoc a b c)

append_nil : (a : List Finding) → a ++ [] ≡ a
append_nil [] = refl
append_nil (x ∷ a) = ap (λ l. x ∷ l) (append_nil a)

pop_match-Popped :
    (f : Finding) (l r : List AnnotatedFinding) → pop_match f l ≡ some r → Popped f l r
unfolding pop_match
pop_match-Popped f [] r h = absurd (ground (arith, h))
pop_match-Popped f (a ∷ l) r h = elim (Bool-cases (matches f a)) [
  | inl m ↦ subst (Popped f (a ∷ l)) (some_eq (rw m at h)) (here a l m)
  | inr m ↦ elim (Option-cases (pop_match f l)) [
    | inl none_left ↦ absurd (ground (arith, rw (m, none_left) at h))
    | inr (rest, found) ↦
        subst (Popped f (a ∷ l)) (some_eq (rw (m, found) at h))
          (later a l rest m (pop_match-Popped f l rest found))
  ]
]

-- When nothing was popped, nothing matches.
pop_match-none :
    (f : Finding) (l : List AnnotatedFinding)
    → pop_match f l ≡ none
    → (a : AnnotatedFinding) → In a l
    → matches f a ≡ false
unfolding pop_match
pop_match-none f [] h a m = absurd m
pop_match-none f (b ∷ l) h a m = elim (Bool-cases (matches f b)) [
  | inl y ↦ absurd (ground (arith, rw y at h))
  | inr n ↦ elim (Option-cases (pop_match f l)) [
    | inl none_left ↦ elim m [
      | inl e ↦ ap (matches f) e ∙ n
      | inr there ↦ pop_match-none f l none_left a there
    ]
    | inr (rest, found) ↦ absurd (ground (arith, rw (n, found) at h))
  ]
]

Popped-In :
    (f : Finding) (l r : List AnnotatedFinding)
    → Popped f l r
    → (a : AnnotatedFinding) → In a r
    → In a l
Popped-In f _ _ (here a l m) b i = inr i
Popped-In f _ _ (later a l r m p) b (inl e) = inl e
Popped-In f _ _ (later a l r m p) b (inr i) = inr (Popped-In f l r p b i)

Popped-length : (f : Finding) (l r : List AnnotatedFinding) → Popped f l r → length l ≡ length r + 1
Popped-length f _ _ (here a l m) = omega arith
Popped-length f _ _ (later a l r m p) = omega (arith, Popped-length f l r p)

-- What holds of the three lists, `done` being the findings that were looked at.
record Sound (expected : List AnnotatedFinding) (done : List Finding) (c : Classified)
    : Type 0 where
  interleaved : Interleaved done c.true_positives c.false_positives
  paired : Paired c.true_positives expected c.unmatched
  apart :
      (f : Finding) (a : AnnotatedFinding)
      → In f c.false_positives
      → In a c.unmatched
      → matches f a ≡ false

In-snoc : (f g : Finding) (l : List Finding) → In f (l ++ g ∷ []) → In f l ⊎ (f ≡ g)
In-snoc f g [] (inl e) = inr e
In-snoc f g [] (inr e) = absurd e
In-snoc f g (x ∷ l) (inl e) = inl (inl e)
In-snoc f g (x ∷ l) (inr m) = elim (In-snoc f g l m) [ inl i ↦ inl (inr i) | inr e ↦ inr e ]

classified-Sound :
    (expected : List AnnotatedFinding) (done : List Finding) (c : Classified) (f : Finding)
    → Sound expected done c
    → Sound expected (done ++ f ∷ []) (classified c f (pop_match f c.unmatched))
unfolding classified
classified-Sound expected done c f s = elim (Option-cases (pop_match f c.unmatched)) [
  | inl h ↦ rw h (record {
    interleaved = right done c.true_positives c.false_positives f s.interleaved;
    paired = s.paired;
    apart = λ g a i j. elim (In-snoc g f c.false_positives i) [
      | inl old ↦ s.apart g a old j
      | inr e ↦ ap (λ x. matches x a) e ∙ pop_match-none f c.unmatched h a j
    ];
  })
  | inr (rest, h) ↦
      let popped = pop_match-Popped f c.unmatched rest h in
      rw h (record {
        interleaved = left done c.true_positives c.false_positives f s.interleaved;
        paired = pair c.true_positives expected c.unmatched rest f s.paired popped;
        apart = λ g a i j. s.apart g a i (Popped-In f c.unmatched rest popped a j);
      })
]

classify-Sound :
    (expected : List AnnotatedFinding) (findings done : List Finding) (c : Classified)
    → Sound expected done c
    → Sound expected (done ++ findings) (classify c findings)
unfolding classify
classify-Sound expected [] done c s = subst (λ d. Sound expected d c) (sym (append_nil done)) s
classify-Sound expected (f ∷ findings) done c s =
    subst (λ d. Sound expected d (classify c (f ∷ findings))) (append_assoc done (f ∷ []) findings)
      (classify-Sound expected findings (done ++ f ∷ []) _ (classified-Sound expected done c f s))

match_findings-Sound :
    (produced : List Finding) (expected : List AnnotatedFinding)
    → Sound expected produced (match_findings produced expected)
unfolding match_findings
match_findings-Sound produced expected =
    classify-Sound expected produced [] _
      (record { interleaved = start; paired = unpaired expected; apart = λ f a i j. absurd i })

-- The produced findings are the true and the false positives, each list in its order.
pub match_findings-Interleaved :
    (produced : List Finding) (expected : List AnnotatedFinding)
    → let c = match_findings produced expected in
      Interleaved produced c.true_positives c.false_positives
match_findings-Interleaved produced expected = (match_findings-Sound produced expected).interleaved

-- Each true positive, in turn, takes the first expected finding it matches that no earlier one took,
-- and the missed findings are those that are left.
pub match_findings-Paired :
    (produced : List Finding) (expected : List AnnotatedFinding)
    → let c = match_findings produced expected in Paired c.true_positives expected c.unmatched
match_findings-Paired produced expected = (match_findings-Sound produced expected).paired

-- No false positive matches a missed finding.
pub match_findings_apart :
    (produced : List Finding) (expected : List AnnotatedFinding) (f : Finding)
    (a : AnnotatedFinding)
    → In f (match_findings produced expected).false_positives
    → In a (match_findings produced expected).unmatched
    → matches f a ≡ false
match_findings_apart produced expected = (match_findings-Sound produced expected).apart

Interleaved-length :
    (ps ts fs : List Finding) → Interleaved ps ts fs → length ps ≡ length ts + length fs
Interleaved-length _ _ _ start = refl
Interleaved-length _ _ _ (left ps ts fs f i) =
    omega
      (arith, Interleaved-length ps ts fs i, length-append ps (f ∷ []), length-append ts (f ∷ []))
Interleaved-length _ _ _ (right ps ts fs f i) =
    omega
      (arith, Interleaved-length ps ts fs i, length-append ps (f ∷ []), length-append fs (f ∷ []))

Paired-length :
    (ts : List Finding) (es ms : List AnnotatedFinding)
    → Paired ts es ms
    → length ts + length ms ≡ length es
Paired-length _ _ _ (unpaired es) = omega arith
Paired-length _ _ _ (pair ts es ms rest f p popped) =
    omega
      (arith, Paired-length ts es ms p, Popped-length f ms rest popped, length-append ts (f ∷ []))

-- The counts: produced findings are true or false positives, expected ones found or missed.
pub match_findings-length :
    (produced : List Finding) (expected : List AnnotatedFinding)
    → let c = match_findings produced expected in
      (length produced ≡ length c.true_positives + length c.false_positives)
      × (length c.true_positives + length c.unmatched ≡ length expected)
match_findings-length produced expected =
    let s = match_findings-Sound produced expected in
    (Interleaved-length _ _ _ s.interleaved, Paired-length _ _ _ s.paired)

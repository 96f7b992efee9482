-- ===== src/Pending/Order.antt =====
-- kenjutsu/publisher/pending_review.py: which findings are published, and in which order.
use kenjutsu.Base.{
  ℕ, Bool, true, false, ◌≡◌, refl, sym, ap, ◌∙◌, ◌<◌, ◌≤◌, Option, List, [], ◌∷◌, ◌++◌, filter, All,
  All-append, leb, ◌==◌, nat_eq, if◌then◌else◌, arith, Bool-cases, inl, inr, ◌⊎◌,
}
use kenjutsu.Finding.{Finding, Severity, critical, warning, suggestion}
use kenjutsu.Pending.{
  is_publishable, is_critical, severity_order, insert_finding, sort_findings, near_rate_limit,
  select_findings,
}

abbrev rank : Finding → ℕ
rank f = severity_order f.severity

abbrev pub has_severity : Severity → Finding → Bool
has_severity s f = rank f == severity_order s

-- The findings of a severity, in their order.
abbrev pub of_severity : Severity → List Finding → List Finding
of_severity s fs = filter (has_severity s) fs

-- The critical findings, then the warnings, then the suggestions.
abbrev pub by_severity : List Finding → List Finding
by_severity fs = of_severity critical fs ++ (of_severity warning fs ++ of_severity suggestion fs)

abbrev pub selection : Option ℕ → List Finding → List Finding
selection remaining fs =
    if near_rate_limit remaining
    then of_severity critical (filter is_publishable fs)
    else by_severity (filter is_publishable fs)

of_severity-All :
    (P : Finding → Type 0) (s : Severity) (fs : List Finding)
    → ((f : Finding) → rank f ≡ severity_order s → P f)
    → All P (of_severity s fs)
of_severity-All P s [] h = tt
of_severity-All P s (f ∷ fs) h = elim (Bool-cases (has_severity s f)) [
  | inl y ↦ rw y (h f (ground (arith, y)), of_severity-All P s fs h)
  | inr n ↦ rw n (of_severity-All P s fs h)
]

insert_past :
    (f : Finding) (xs ys : List Finding)
    → All (λ g. rank g < rank f) xs
    → insert_finding f (xs ++ ys) ≡ xs ++ insert_finding f ys
unfolding insert_finding
insert_past f [] ys h = refl
insert_past f (x ∷ xs) ys h =
    let later : leb (rank f) (rank x) ≡ false = ground (arith, h.0) in
    rw later (ap (λ zs. x ∷ zs) (insert_past f xs ys h.1))

insert_before :
    (f : Finding) (ys : List Finding) → All (λ g. rank f ≤ rank g) ys → insert_finding f ys ≡ f ∷ ys
unfolding insert_finding
insert_before f [] h = refl
insert_before f (y ∷ ys) h =
    let now : leb (rank f) (rank y) ≡ true = ground (arith, h.0) in rw now refl

Severity-cases : (s : Severity) → (s ≡ critical) ⊎ (s ≡ warning) ⊎ (s ≡ suggestion)
Severity-cases critical = inl refl
Severity-cases warning = inr (inl refl)
Severity-cases suggestion = inr (inr refl)

module _ (f : Finding) (fs : List Finding) where
  not_below :
      (s : Severity) → rank f ≤ severity_order s → All (λ g. rank f ≤ rank g) (of_severity s fs)
  not_below s h = of_severity-All (λ g. rank f ≤ rank g) s fs (λ g e. omega (arith, h, e))

  below : (s : Severity) → severity_order s < rank f → All (λ g. rank g < rank f) (of_severity s fs)
  below s h = of_severity-All (λ g. rank g < rank f) s fs (λ g e. omega (arith, h, e))

  abbrev rank_of : (s : Severity) → f.severity ≡ s → rank f ≡ severity_order s
  rank_of s e = ap severity_order e

  insert-by_severity : insert_finding f (by_severity fs) ≡ by_severity (f ∷ fs)
  insert-by_severity =
      let c = of_severity critical fs in
      let w = of_severity warning fs in
      let s = of_severity suggestion fs in
      elim (Severity-cases f.severity) [
        | inl e ↦ rw (rank_of critical e) (
            insert_before f (c ++ (w ++ s)) (
              All-append (λ g. rank f ≤ rank g) c (w ++ s)
                (not_below critical (omega (arith, rank_of critical e)))
                (All-append (λ g. rank f ≤ rank g) w s
                  (not_below warning (omega (arith, rank_of critical e)))
                  (not_below suggestion (omega (arith, rank_of critical e))))))
        | inr (inl e) ↦ rw (rank_of warning e) (
            insert_past f c (w ++ s) (below critical (omega (arith, rank_of warning e)))
            ∙ ap (λ l. c ++ l)
                (insert_before f (w ++ s) (
                  All-append (λ g. rank f ≤ rank g) w s
                    (not_below warning (omega (arith, rank_of warning e)))
                    (not_below suggestion (omega (arith, rank_of warning e))))))
        | inr (inr e) ↦ rw (rank_of suggestion e) (
            insert_past f c (w ++ s) (below critical (omega (arith, rank_of suggestion e)))
            ∙ ap (λ l. c ++ l)
                (insert_past f w s (below warning (omega (arith, rank_of suggestion e)))
                  ∙ ap (λ l. w ++ l)
                      (insert_before f s
                        (not_below suggestion (omega (arith, rank_of suggestion e))))))
      ]

sort_findings-by_severity : (fs : List Finding) → sort_findings fs ≡ by_severity fs
unfolding sort_findings
sort_findings-by_severity [] = refl
sort_findings-by_severity (f ∷ fs) =
    ap (insert_finding f) (sort_findings-by_severity fs) ∙ insert-by_severity f fs

is_critical-rank : (f : Finding) → is_critical f ≡ has_severity critical f
is_critical-rank f = elim (Severity-cases f.severity) [
  | inl e ↦ rw e refl
  | inr (inl e) ↦ rw e refl
  | inr (inr e) ↦ rw e refl
]

insert-critical :
    (f : Finding) (fs : List Finding)
    → filter is_critical (insert_finding f fs) ≡ filter is_critical (f ∷ fs)
unfolding insert_finding
insert-critical f [] = refl
insert-critical f (g ∷ gs) = ground (arith, insert-critical f gs)

critical-sort :
    (fs : List Finding) → filter is_critical (sort_findings fs) ≡ of_severity critical fs
unfolding sort_findings
critical-sort [] = refl
critical-sort (f ∷ fs) = insert-critical f (sort_findings fs) ∙ (elim (Bool-cases (is_critical f)) [
  | inl y ↦ rw (y, sym (is_critical-rank f) ∙ y) (ap (λ l. f ∷ l) (critical-sort fs))
  | inr n ↦ rw (n, sym (is_critical-rank f) ∙ n) (critical-sort fs)
])

-- What is published: the publishable findings, the critical ones first, then the warnings, then the
-- suggestions, each in the order they were given in; near the rate limit, the critical ones alone.
pub select_findings-selection :
    (remaining : Option ℕ) (findings : List Finding)
    → select_findings remaining findings ≡ selection remaining findings
unfolding select_findings
select_findings-selection remaining findings = elim (Bool-cases (near_rate_limit remaining)) [
  | inl y ↦ rw y (critical-sort (filter is_publishable findings))
  | inr n ↦ rw n (sort_findings-by_severity (filter is_publishable findings))
]

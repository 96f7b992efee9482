-- ===== src/Command/Grammar.antt =====
-- kenjutsu/server/commands.py: the comments that are commands, and the command of each.
use kenjutsu.Base.{
  String, ◌≡◌, refl, sym, ap, subst, Option, none, some, List, [], ◌∷◌, arith, ◌==◌, string_eq,
  Bool-cases, inl, inr, some_eq, ◌↔◌,
}
use kenjutsu.Effect.{Result, ok, err}
use kenjutsu.Command.{
  review, ignore, ParsedCommand, ParseError, parse_review, parse_ignore, parse_tokens, found,
  parse_command,
}

-- The commands that the documentation lists, and the words of each.
pub data Documented : List String → ParsedCommand → Type 0 where
  whole : Documented ("review" ∷ []) (record { kind = review; file_path = none })
  scoped :
      (file : String)
      → Documented ("review" ∷ file ∷ []) (record { kind = review; file_path = some file })
  ignored : Documented ("ignore" ∷ []) (record { kind = ignore; file_path = none })

ok_eq : {A : Type 0} {a b : A} → ◌≡◌ {A = Result ParseError A} (ok a) (ok b) → a ≡ b
ok_eq h = cc

review-Documented :
    (args : List String) (c : ParsedCommand)
    → parse_review args ≡ ok c
    → Documented ("review" ∷ args) c
unfolding parse_review
review-Documented [] c h = subst (Documented ("review" ∷ [])) (ok_eq h) whole
review-Documented (f ∷ []) c h = subst (Documented ("review" ∷ f ∷ [])) (ok_eq h) (scoped f)
review-Documented (f ∷ g ∷ args) c h = absurd (ground (arith, h))

ignore-Documented :
    (args : List String) (c : ParsedCommand)
    → parse_ignore args ≡ ok c
    → Documented ("ignore" ∷ args) c
unfolding parse_ignore
ignore-Documented [] c h = subst (Documented ("ignore" ∷ [])) (ok_eq h) ignored
ignore-Documented (f ∷ args) c h = absurd (ground (arith, h))

parse_tokens-Documented :
    (tokens : List String) (c : ParsedCommand) → parse_tokens tokens ≡ ok c → Documented tokens c
unfolding parse_tokens
parse_tokens-Documented [] c h = absurd (ground (arith, h))
parse_tokens-Documented (s ∷ args) c h = elim (Bool-cases (s == "review")) [
  | inl y ↦
      subst (λ w. Documented (w ∷ args) c) (sym ((string_eq.equal_iff s "review").0 y))
        (review-Documented args c (rw y at h))
  | inr n ↦ elim (Bool-cases (s == "ignore")) [
    | inl y ↦
        subst (λ w. Documented (w ∷ args) c) (sym ((string_eq.equal_iff s "ignore").0 y))
          (ignore-Documented args c (rw (n, y) at h))
    | inr m ↦ absurd (ground (arith, rw (n, m) at h))
  ]
]

Documented-parse_tokens :
    (tokens : List String) (c : ParsedCommand) → Documented tokens c → parse_tokens tokens ≡ ok c
unfolding parse_tokens parse_review parse_ignore
Documented-parse_tokens _ _ whole = refl
Documented-parse_tokens _ _ (scoped file) = refl
Documented-parse_tokens _ _ ignored = refl

found-ok :
    (r : Result ParseError ParsedCommand) (c : ParsedCommand) → found r ≡ ok (some c) → r ≡ ok c
unfolding found
found-ok (ok d) c h = ap ok (some_eq (ok_eq h))
found-ok (err e) c h = absurd (ground (arith, h))

-- A comment whose words after `/kenjutsu` are `tokens` is the command `c` exactly when the tokens are
-- one of the documented forms of it.
pub parse_command-Documented :
    (words : String → Option (List String)) (comment : String) (tokens : List String)
    (c : ParsedCommand)
    → words comment ≡ some tokens
    → (parse_command words comment ≡ ok (some c)) ↔ Documented tokens c
unfolding parse_command found
parse_command-Documented words comment tokens c h =
    rw (h, parse_command)
      (
        λ e. parse_tokens-Documented tokens c (found-ok (parse_tokens tokens) c e),
        λ d. ap found (Documented-parse_tokens tokens c d),
      )

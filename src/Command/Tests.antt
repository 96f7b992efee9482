-- ===== src/Command/Tests.antt =====
-- Commands as they stand in comments.
use kenjutsu.Base.{
  String, Option, none, some, List, [], ◌∷◌, ◌≡◌, refl, ◌↔◌, if◌then◌else◌, ◌==◌, string_eq,
}
use kenjutsu.Effect.{ok, err}
use kenjutsu.Command.{
  review, parse_command, too_many_for_review, parse_tokens, parse_review, ParsedCommand,
}
use kenjutsu.Command.Grammar.{Documented, parse_command-Documented}

abbrev words : String → Option (List String)
words comment = if comment == "/kenjutsu review a.py" then some ("review" ∷ "a.py" ∷ []) else none

abbrev scoped_review : ParsedCommand
scoped_review = record { kind = review; file_path = some "a.py" }

refused : parse_tokens ("review" ∷ "a.py" ∷ "b.py" ∷ []) ≡ err too_many_for_review
unfolding parse_tokens parse_review
refused = refl

parse_command-Documented_example :
    (parse_command words "/kenjutsu review a.py" ≡ ok (some scoped_review))
    ↔ Documented ("review" ∷ "a.py" ∷ []) scoped_review
parse_command-Documented_example =
    parse_command-Documented words "/kenjutsu review a.py" ("review" ∷ "a.py" ∷ []) scoped_review
      refl

-- ===== src/Command.antt =====
-- kenjutsu/server/commands.py: the commands of a comment, from the words that follow `/kenjutsu`.
-- The search for the line and its split into words are Python's `re` and `str.split`, a parameter.
mod Grammar
mod Tests
use kenjutsu.Base.{String, ◌≡◌, Option, none, some, List, [], ◌∷◌, ◌==◌, string_eq, if◌then◌else◌}
use kenjutsu.Effect.{Result, ok, err}

pub data CommandKind : Type 0 where
  review ignore : CommandKind

pub record ParsedCommand : Type 0 where
  pub kind : CommandKind
  pub file_path : Option String

-- ParseError, by its message.
pub data ParseError : Type 0 where
  missing_subcommand too_many_for_review too_many_for_ignore : ParseError
  unknown_command : String → ParseError

unfoldable pub parse_review : List String → Result ParseError ParsedCommand
parse_review [] = ok (record { kind = review; file_path = none })
parse_review (file ∷ []) = ok (record { kind = review; file_path = some file })
parse_review (file ∷ other ∷ args) = err too_many_for_review

unfoldable pub parse_ignore : List String → Result ParseError ParsedCommand
parse_ignore [] = ok (record { kind = ignore; file_path = none })
parse_ignore (arg ∷ args) = err too_many_for_ignore

-- From the tokens on.
unfoldable pub parse_tokens : List String → Result ParseError ParsedCommand
parse_tokens [] = err missing_subcommand
parse_tokens (subcommand ∷ args) =
    if subcommand == "review"
    then parse_review args
    else if subcommand == "ignore"
    then parse_ignore args
    else err (unknown_command subcommand)

unfoldable pub found : Result ParseError ParsedCommand → Result ParseError (Option ParsedCommand)
found (ok c) = ok (some c)
found (err e) = err e

-- `words` is what stands after the first `/kenjutsu` at the start of a line, if there is one.
unfoldable pub parse_command :
    (String → Option (List String)) → String → Result ParseError (Option ParsedCommand)
parse_command words comment_body = elim (words comment_body) [
  | none ↦ ok none
  | some tokens ↦ found (parse_tokens tokens)
]

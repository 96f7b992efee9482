-- ===== src/Diff/Text.antt =====
-- Python's `str` methods on lines of a diff, and the patterns of kenjutsu/diff/parser.py.
use Prim.Native.Char.{Char, code}
use kenjutsu.Base.{
  ℕ, String, Bool, true, false, ◌&&◌, ◌+◌, ◌-◌, ◌*◌, Option, none, some, leb, ◌==◌, nat_eq,
  string_eq, if◌then◌else◌,
}

abbrev pub same_char : Char → Char → Bool
same_char c d = code c == code d

-- What follows a prefix, if the text starts with it.
unfoldable pub after : String → String → Option String
after String.[] s = some s
after (String.◌∷◌ p ps) String.[] = none
after (String.◌∷◌ p ps) (String.◌∷◌ c s) =
    let rest = after ps s in if same_char p c then rest else none

abbrev pub present : {A : Type 0} → Option A → Bool
present none = false
present (some a) = true

-- `s.startswith(prefix)`
abbrev pub starts : String → String → Bool
starts prefix s = present (after prefix s)

abbrev is_digit : Char → Bool
is_digit c = leb b'0' (code c) && leb (code c) b'9'

-- `\d*` from a number that was read so far; `\d` is an ASCII digit here.
unfoldable pub more_digits : ℕ → String → ℕ × String
more_digits n String.[] = (n, String.[])
more_digits n (String.◌∷◌ c s) =
    let rest = more_digits (n * 10 + (code c - b'0')) s in
    if is_digit c then rest else (n, String.◌∷◌ c s)

-- `(\d+)`
unfoldable pub digits : String → Option (ℕ × String)
digits String.[] = none
digits (String.◌∷◌ c s) =
    let rest = more_digits (code c - b'0') s in if is_digit c then some rest else none

abbrev pub or_one : Option (ℕ × String) → String → ℕ × String
or_one none s = (1, s)
or_one (some p) s = p

abbrev after_comma : Option String → Option (ℕ × String)
after_comma none = none
after_comma (some s) = digits s

-- `(?:,(\d+))?`, with the 1 that stands for a count left out.
unfoldable pub count_or_one : String → ℕ × String
count_or_one s = or_one (after_comma (after "," s)) s

-- `(\d+)(?:,(\d+))?`
unfoldable pub range : String → Option (ℕ × ℕ × String)
range s = elim (digits s) [
  | none ↦ none
  | some (start, rest) ↦ (let (count, rest') = count_or_one rest in some (start, count, rest'))
]

pub record HunkHeader : Type 0 where
  pub old_start : ℕ
  pub old_count : ℕ
  pub new_start : ℕ
  pub new_count : ℕ
  pub section : String

abbrev new_part : ℕ → ℕ → Option (ℕ × ℕ × String) → Option HunkHeader
new_part old_start old_count none = none
new_part old_start old_count (some (new_start, new_count, rest)) = elim (after " @@" rest) [
  | none ↦ none
  | some section ↦ some (record {
    old_start = old_start;
    old_count = old_count;
    new_start = new_start;
    new_count = new_count;
    section = section;
  })
]

abbrev old_part : Option (ℕ × ℕ × String) → Option HunkHeader
old_part none = none
old_part (some (old_start, old_count, rest)) = elim (after " +" rest) [
  | none ↦ none
  | some rest' ↦ new_part old_start old_count (range rest')
]

-- `_HUNK_HEADER.match(line)`
unfoldable pub hunk_header : String → Option HunkHeader
hunk_header line = elim (after "@@ -" line) [ none ↦ none | some rest ↦ old_part (range rest) ]

abbrev is_empty : String → Bool
is_empty String.[] = true
is_empty (String.◌∷◌ c s) = false

abbrev split_here : Option String → Option (String × String)
split_here none = none
split_here (some s) = if is_empty s then none else some (String.[], s)

-- The last ` b/` that something follows: what stands before it and after it.
unfoldable pub split_last : String → Option (String × String)
split_last String.[] = none
split_last (String.◌∷◌ c s) = elim (split_last s) [
  | some (before, rest) ↦ some (String.◌∷◌ c before, rest)
  | none ↦ split_here (after " b/" (String.◌∷◌ c s))
]

abbrev both_full : Option (String × String) → Option (String × String)
both_full none = none
both_full (some (old, new)) = if is_empty old then none else some (old, new)

-- `re.match(r"^diff --git a/(.+) b/(.+)$", line)`
unfoldable pub git_paths : String → Option (String × String)
git_paths line = elim (after "diff --git a/" line) [
  | none ↦ none
  | some s ↦ both_full (split_last s)
]

-- `_strip_path_prefix`
unfoldable pub strip_path_prefix : String → Option String
strip_path_prefix path = if path == "/dev/null" then none else elim (after "a/" path) [
  | some rest ↦ some rest
  | none ↦ elim (after "b/" path) [ some rest ↦ some rest | none ↦ some path ]
]

-- ===== src/Diff/Numbering.antt =====
-- The line numbers that `_parse_hunks` of kenjutsu/diff/parser.py gives.
use Prim.Native.Char.{code}
use kenjutsu.Base.{
  ℕ, String, ◌+◌, inl, inr, Option, none, some, List, [], ◌∷◌, ◌++◌, All, Option-cases, Bool-cases,
  ◌==◌, nat_eq,
}
use kenjutsu.Diff.{add, delete, context, HunkLine, Hunk}
use kenjutsu.Diff.Text.{starts, HunkHeader, hunk_header}
use kenjutsu.Diff.Parser.{OpenHunk, open_hunk, close_hunk, hunk_line, parse_from, parse_hunks}

-- `Numbered old new lines old' new'`: from the numbers `old` and `new` on, the lines count one by one:
-- an added line the new file's, a deleted line the old file's, a context line both.
pub data Numbered (old new : ℕ) : List HunkLine → ℕ → ℕ → Type 0 where
  start : Numbered old new [] old new
  added :
      (lines : List HunkLine) (i j : ℕ) (content : String)
      → Numbered old new lines i j
      → Numbered old new
          (lines
            ++ (record {
              change_type = add;
              content = content;
              old_lineno = none;
              new_lineno = some j;
            })
              ∷ [])
          i
          (j + 1)
  deleted :
      (lines : List HunkLine) (i j : ℕ) (content : String)
      → Numbered old new lines i j
      → Numbered old new
          (lines
            ++ (record {
              change_type = delete;
              content = content;
              old_lineno = some i;
              new_lineno = none;
            })
              ∷ [])
          (i + 1)
          j
  kept :
      (lines : List HunkLine) (i j : ℕ) (content : String)
      → Numbered old new lines i j
      → Numbered old new
          (lines
            ++ (record {
              change_type = context;
              content = content;
              old_lineno = some i;
              new_lineno = some j;
            })
              ∷ [])
          (i + 1)
          (j + 1)

abbrev pub HunkNumbered : Hunk → Type 0
HunkNumbered hunk = (i : ℕ) × (j : ℕ) × Numbered hunk.old_start hunk.new_start hunk.lines i j

abbrev OpenNumbered : OpenHunk → Type 0
OpenNumbered o =
    Numbered o.header.old_start o.header.new_start o.hunk_lines o.old_lineno o.new_lineno

hunk_line-Numbered :
    (o : OpenHunk) (line : String) → OpenNumbered o → OpenNumbered (hunk_line o line)
unfolding hunk_line
hunk_line-Numbered o String.[] w = kept o.hunk_lines o.old_lineno o.new_lineno String.[] w
hunk_line-Numbered o (String.◌∷◌ c content) w = elim (Bool-cases (code c == b'+')) [
  | inl y ↦ rw y (added o.hunk_lines o.old_lineno o.new_lineno content w)
  | inr n ↦ rw n (elim (Bool-cases (code c == b'-')) [
    | inl y ↦ rw y (deleted o.hunk_lines o.old_lineno o.new_lineno content w)
    | inr m ↦ rw m (elim (Bool-cases (code c == b' ')) [
      | inl y ↦ rw y (kept o.hunk_lines o.old_lineno o.new_lineno content w)
      | inr k ↦ rw k w
    ])
  ])
]

open_hunk-Numbered : (h : HunkHeader) → OpenNumbered (open_hunk h)
unfolding open_hunk
open_hunk-Numbered h = start

close_hunk-Numbered :
    (strip : String → String) (o : OpenHunk) → OpenNumbered o → HunkNumbered (close_hunk strip o)
unfolding close_hunk
close_hunk-Numbered strip o w = (o.old_lineno, o.new_lineno, w)

abbrev MaybeNumbered : Option OpenHunk → Type 0
MaybeNumbered none = Unit {0}
MaybeNumbered (some o) = OpenNumbered o

parse_from-Numbered :
    (strip : String → String) (o : Option OpenHunk) (lines : List String)
    → MaybeNumbered o
    → All HunkNumbered (parse_from strip o lines)
unfolding parse_from
parse_from-Numbered strip none [] w = tt
parse_from-Numbered strip (some o) [] w = (close_hunk-Numbered strip o w, tt)
parse_from-Numbered strip none (line ∷ lines) w = elim (Option-cases (hunk_header line)) [
  | inl h ↦ rw (h, parse_from) (parse_from-Numbered strip none lines tt)
  | inr (header, h) ↦
      rw (h, parse_from)
        (parse_from-Numbered strip (some (open_hunk header)) lines (open_hunk-Numbered header))
]
parse_from-Numbered strip (some o) (line ∷ lines) w = elim (Option-cases (hunk_header line)) [
  | inl h ↦
      rw (h, parse_from)
        (elim (Bool-cases (starts "diff --git" line)) [
          | inl y ↦ rw y (close_hunk-Numbered strip o w, parse_from-Numbered strip none lines tt)
          | inr n ↦ rw n (
              parse_from-Numbered strip (some (hunk_line o line)) lines
                (hunk_line-Numbered o line w))
        ])
  | inr (header, h) ↦
      rw (h, parse_from)
        (
          close_hunk-Numbered strip o w,
          parse_from-Numbered strip (some (open_hunk header)) lines (open_hunk-Numbered header),
        )
]

-- Whatever the lines are, the lines of each hunk that is parsed are numbered one by one from the
-- starts in its header.
pub parse_hunks-Numbered :
    (strip : String → String) (lines : List String) → All HunkNumbered (parse_hunks strip lines)
unfolding parse_hunks
parse_hunks-Numbered strip lines = parse_from-Numbered strip none lines tt

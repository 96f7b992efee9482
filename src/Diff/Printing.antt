-- ===== src/Diff/Printing.antt =====
-- Hunks as a diff writes them, and that kenjutsu/diff/parser.py reads them back.
use Prim.Native.Char.{Char}
use kenjutsu.Base.{
  ℕ, String, ◌+◌, ◌≡◌, refl, ap, ◌∙◌, none, some, List, [], ◌∷◌, ◌++◌, map, All, nat_eq,
}
use mathlib.Core.List.{append_assoc, append-nil}
use kenjutsu.Diff.{ChangeType, add, delete, context, HunkLine, Hunk}
use kenjutsu.Diff.Text.{after, HunkHeader, hunk_header}
use kenjutsu.Diff.Parser.{
  OpenHunk, open_hunk, close_hunk, add_line, delete_line, context_line, hunk_line, parse_from,
  parse_hunks,
}

abbrev marker : ChangeType → Char
marker add = "+"
marker delete = "-"
marker context = " "

-- A line of a hunk as it is written.
abbrev pub show_line : ChangeType × String → String
show_line (type, content) = String.◌∷◌ (marker type) content

-- A hunk: its header line, what stands in it, and its lines without numbers.
pub record Written : Type 0 where
  pub line : String
  pub header : HunkHeader
  pub body : List (ChangeType × String)

abbrev pub show_hunks : List Written → List String
show_hunks [] = []
show_hunks (w ∷ ws) = w.line ∷ (map show_line w.body ++ show_hunks ws)

-- The lines of a hunk, with the numbers that belong to them.
abbrev pub number_lines : ℕ → ℕ → List (ChangeType × String) → List HunkLine
number_lines old new [] = []
number_lines old new ((add, content) ∷ body) =
    (record { change_type = add; content = content; old_lineno = none; new_lineno = some new })
    ∷ number_lines old (new + 1) body
number_lines old new ((delete, content) ∷ body) =
    (record { change_type = delete; content = content; old_lineno = some old; new_lineno = none })
    ∷ number_lines (old + 1) new body
number_lines old new ((context, content) ∷ body) =
    (record {
      change_type = context;
      content = content;
      old_lineno = some old;
      new_lineno = some new;
    })
    ∷ number_lines (old + 1) (new + 1) body

abbrev pub hunk_of : (String → String) → Written → Hunk
hunk_of strip w = record {
  old_start = w.header.old_start;
  old_count = w.header.old_count;
  new_start = w.header.new_start;
  new_count = w.header.new_count;
  lines = number_lines w.header.old_start w.header.new_start w.body;
  section_header = strip w.header.section;
  enclosing_scope = none;
}

abbrev add_shown : ChangeType × String → OpenHunk → OpenHunk
add_shown (add, content) o = add_line content o
add_shown (delete, content) o = delete_line content o
add_shown (context, content) o = context_line content o

abbrev add_all : List (ChangeType × String) → OpenHunk → OpenHunk
add_all [] o = o
add_all (l ∷ ls) o = add_all ls (add_shown l o)

parse_from-show_line :
    (strip : String → String) (o : OpenHunk) (l : ChangeType × String) (lines : List String)
    → parse_from strip (some o) (show_line l ∷ lines)
      ≡ parse_from strip (some (add_shown l o)) lines
unfolding parse_from hunk_header after hunk_line
parse_from-show_line strip o (add, content) lines = refl
parse_from-show_line strip o (delete, content) lines = refl
parse_from-show_line strip o (context, content) lines = refl

parse_from-show_lines :
    (strip : String → String) (o : OpenHunk) (body : List (ChangeType × String))
    (lines : List String)
    → parse_from strip (some o) (map show_line body ++ lines)
      ≡ parse_from strip (some (add_all body o)) lines
parse_from-show_lines strip o [] lines = refl
parse_from-show_lines strip o (l ∷ ls) lines =
    parse_from-show_line strip o l (map show_line ls ++ lines)
    ∙ parse_from-show_lines strip (add_shown l o) ls lines

add_all-lines :
    (strip : String → String) (body : List (ChangeType × String)) (o : OpenHunk)
    → close_hunk strip (add_all body o) ≡ record (close_hunk strip o) {
      lines = o.hunk_lines ++ number_lines o.old_lineno o.new_lineno body;
    }
unfolding close_hunk
add_all-lines strip [] o = rw append-nil refl
add_all-lines strip ((add, content) ∷ body) o =
    add_all-lines strip body (add_line content o) ∙ rw append_assoc refl
add_all-lines strip ((delete, content) ∷ body) o =
    add_all-lines strip body (delete_line content o) ∙ rw append_assoc refl
add_all-lines strip ((context, content) ∷ body) o =
    add_all-lines strip body (context_line content o) ∙ rw append_assoc refl

close-add_all :
    (strip : String → String) (w : Written)
    → close_hunk strip (add_all w.body (open_hunk w.header)) ≡ hunk_of strip w
unfolding close_hunk open_hunk
close-add_all strip w = add_all-lines strip w.body (open_hunk w.header)

abbrev pub IsHeaded : Written → Type 0
IsHeaded w = hunk_header w.line ≡ some w.header

parse_from-open :
    (strip : String → String) (w : Written) (ws : List Written)
    → All IsHeaded ws
    → parse_from strip (some (add_all w.body (open_hunk w.header))) (show_hunks ws)
      ≡ hunk_of strip w ∷ map (hunk_of strip) ws
unfolding parse_from
parse_from-open strip w [] h = ap (λ x. x ∷ []) (close-add_all strip w)
parse_from-open strip w (v ∷ vs) h =
    rw (h.0, parse_from)
      (ap
          (λ x.
            x
            ∷ parse_from strip (some (open_hunk v.header)) (map show_line v.body ++ show_hunks vs))
          (close-add_all strip w)
        ∙ ap (λ l. hunk_of strip w ∷ l)
            (parse_from-show_lines strip (open_hunk v.header) v.body (show_hunks vs)
              ∙ parse_from-open strip v vs h.1))

-- Hunks that are written with header lines that the pattern matches are parsed to themselves: the
-- ranges of the header, each line with its kind, its content and the numbers that belong to it.
pub parse_hunks-show_hunks :
    (strip : String → String) (ws : List Written)
    → All IsHeaded ws
    → parse_hunks strip (show_hunks ws) ≡ map (hunk_of strip) ws
unfolding parse_hunks parse_from
parse_hunks-show_hunks strip [] h = refl
parse_hunks-show_hunks strip (w ∷ ws) h =
    rw (h.0, parse_from)
      (parse_from-show_lines strip (open_hunk w.header) w.body (show_hunks ws)
        ∙ parse_from-open strip w ws h.1)

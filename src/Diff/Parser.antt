-- ===== src/Diff/Parser.antt =====
-- kenjutsu/diff/parser.py: the parser of unified diffs. `strip` and `splitlines` are Python's.
use Prim.Native.Char.{code}
use kenjutsu.Base.{
  ℕ, String, Bool, true, false, not, ◌+◌, Option, none, some, List, [], ◌∷◌, ◌++◌, map, filter,
  ◌==◌, nat_eq, string_eq, if◌then◌else◌,
}
use kenjutsu.Diff.{
  add, delete, context, HunkLine, Hunk, PatchFile, is_deletion_only, is_deleted_file,
}
use kenjutsu.Diff.Text.{after, starts, HunkHeader, hunk_header, git_paths, strip_path_prefix}

-- The variables of the loop over the lines of a hunk.
pub record OpenHunk : Type 0 where
  pub header : HunkHeader
  pub hunk_lines : List HunkLine
  pub old_lineno : ℕ
  pub new_lineno : ℕ

unfoldable pub open_hunk : HunkHeader → OpenHunk
open_hunk h = record {
  header = h;
  hunk_lines = [];
  old_lineno = h.old_start;
  new_lineno = h.new_start;
}

unfoldable pub close_hunk : (String → String) → OpenHunk → Hunk
close_hunk strip o = record {
  old_start = o.header.old_start;
  old_count = o.header.old_count;
  new_start = o.header.new_start;
  new_count = o.header.new_count;
  lines = o.hunk_lines;
  section_header = strip o.header.section;
  enclosing_scope = none;
}

abbrev pub add_line : String → OpenHunk → OpenHunk
add_line content o = record o {
  hunk_lines =
      o.hunk_lines
      ++ (record {
        change_type = add;
        content = content;
        old_lineno = none;
        new_lineno = some o.new_lineno;
      })
        ∷ [];
  new_lineno = o.new_lineno + 1;
}

abbrev pub delete_line : String → OpenHunk → OpenHunk
delete_line content o = record o {
  hunk_lines =
      o.hunk_lines
      ++ (record {
        change_type = delete;
        content = content;
        old_lineno = some o.old_lineno;
        new_lineno = none;
      })
        ∷ [];
  old_lineno = o.old_lineno + 1;
}

abbrev pub context_line : String → OpenHunk → OpenHunk
context_line content o = record o {
  hunk_lines =
      o.hunk_lines
      ++ (record {
        change_type = context;
        content = content;
        old_lineno = some o.old_lineno;
        new_lineno = some o.new_lineno;
      })
        ∷ [];
  old_lineno = o.old_lineno + 1;
  new_lineno = o.new_lineno + 1;
}

-- One line of a hunk, by its first character.
unfoldable pub hunk_line : OpenHunk → String → OpenHunk
hunk_line o String.[] = context_line String.[] o
hunk_line o (String.◌∷◌ c content) =
    if code c == b'+'
    then add_line content o
    else if code c == b'-'
    then delete_line content o
    else if code c == b' '
    then context_line content o
    else o

-- The two loops of `_parse_hunks`, as one: outside of a hunk, or in one.
unfoldable pub parse_from : (String → String) → Option OpenHunk → List String → List Hunk
parse_from strip none [] = []
parse_from strip (some o) [] = close_hunk strip o ∷ []
parse_from strip none (line ∷ lines) = elim (hunk_header line) [
  | none ↦ parse_from strip none lines
  | some h ↦ parse_from strip (some (open_hunk h)) lines
]
parse_from strip (some o) (line ∷ lines) = elim (hunk_header line) [
  | some h ↦ close_hunk strip o ∷ parse_from strip (some (open_hunk h)) lines
  | none ↦ elim (starts "diff --git" line) [
    | true ↦ close_hunk strip o ∷ parse_from strip none lines
    | false ↦ parse_from strip (some (hunk_line o line)) lines
  ]
]

unfoldable pub parse_hunks : (String → String) → List String → List Hunk
parse_hunks strip lines = parse_from strip none lines

-- The variables of the loop over the lines before the hunks of a file.
pub record FileHeader : Type 0 where
  pub old_path : Option String
  pub new_path : Option String
  pub is_binary : Bool
  pub rename_from : Option String
  pub rename_to : Option String

abbrev pub set_git_paths : Option (String × String) → FileHeader → FileHeader
set_git_paths none h = h
set_git_paths (some (old, new)) h = record h { old_path = some old; new_path = some new }

-- The loop, with the lines in which the hunks stand: those after `+++`, if there is one.
unfoldable pub file_header : FileHeader → List String → FileHeader × List String
file_header h [] = (h, [])
file_header h (line ∷ lines) = elim (after "diff --git " line) [
  | some _ ↦ file_header (set_git_paths (git_paths line) h) lines
  | none ↦ elim (after "--- " line) [
    | some raw ↦ file_header (record h { old_path = strip_path_prefix raw }) lines
    | none ↦ elim (after "+++ " line) [
      | some raw ↦ (record h { new_path = strip_path_prefix raw }, lines)
      | none ↦ elim (after "Binary files" line) [
        | some _ ↦ (record h { is_binary = true }, [])
        | none ↦ elim (after "rename from " line) [
          | some path ↦ file_header (record h { rename_from = some path }) lines
          | none ↦ elim (after "rename to " line) [
            | some path ↦ file_header (record h { rename_to = some path }) lines
            | none ↦ file_header h lines
          ]
        ]
      ]
    ]
  ]
]

abbrev pub renamed : Option String → Option String → Option String
renamed none path = path
renamed (some name) path = some name

abbrev pub no_header : FileHeader
no_header = record {
  old_path = none;
  new_path = none;
  is_binary = false;
  rename_from = none;
  rename_to = none;
}

-- The patch of one block.
unfoldable pub parse_block : (String → String) → List String → PatchFile
parse_block strip block =
    let (h, lines) = file_header no_header block in
    record {
      old_path = renamed h.rename_from h.old_path;
      new_path = renamed h.rename_to h.new_path;
      hunks = if not h.is_binary then parse_hunks strip lines else [];
      is_binary = h.is_binary;
    }

-- The lines before the first `diff --git `, and the blocks that start there.
unfoldable pub split_blocks : List String → List String × List (List String)
split_blocks [] = ([], [])
split_blocks (line ∷ lines) =
    let (before, blocks) = split_blocks lines in
    if starts "diff --git " line then ([], (line ∷ before) ∷ blocks) else (line ∷ before, blocks)

-- `_apply_deletion_omission`
unfoldable pub without_deletions : PatchFile → PatchFile
without_deletions patch = record patch {
  hunks = filter (λ hunk. not (is_deletion_only hunk)) patch.hunks;
}

unfoldable pub apply_deletion_omission : List PatchFile → List PatchFile
apply_deletion_omission patches =
    map without_deletions (filter (λ patch. not (is_deleted_file patch)) patches)

unfoldable pub parse_diff :
    (String → String) → (String → List String) → String → Bool → List PatchFile
parse_diff strip splitlines diff_text include_deletions =
    if strip diff_text == ""
    then []
    else (let patches = map (parse_block strip) (split_blocks (splitlines diff_text)).1 in
        if not include_deletions then apply_deletion_omission patches else patches)

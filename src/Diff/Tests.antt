-- ===== src/Diff/Tests.antt =====
-- A diff of two files, parsed, and the theorems about diffs there.
use kenjutsu.Base.{
  String, true, false, ◌≡◌, refl, none, some, List, [], ◌∷◌, map, All, nat_eq, string_eq,
}
use kenjutsu.Diff.{add, delete, context, is_deleted_file}
use kenjutsu.Diff.Text.{
  after, starts, more_digits, digits, count_or_one, range, HunkHeader, hunk_header, git_paths,
  split_last, strip_path_prefix,
}
use kenjutsu.Diff.Parser.{
  open_hunk, close_hunk, hunk_line, parse_from, parse_hunks, file_header, parse_block, split_blocks,
  without_deletions, apply_deletion_omission, parse_diff,
}
use kenjutsu.Diff.Printing.{Written, hunk_of, show_hunks, parse_hunks-show_hunks}
use kenjutsu.Diff.Deletions.{parse_block-not_deleted}
use kenjutsu.Diff.Numbering.{HunkNumbered, parse_hunks-Numbered}
use kenjutsu.Diff.Omission.{Omitted, apply_deletion_omission-Omitted}

abbrev same : String → String
same text = text

abbrev first_header : HunkHeader
first_header = record {
  old_start = 7;
  old_count = 2;
  new_start = 7;
  new_count = 3;
  section = " def run():";
}

abbrev second_header : HunkHeader
second_header = record {
  old_start = 40;
  old_count = 1;
  new_start = 41;
  new_count = 0;
  section = "";
}

abbrev first : Written
first = record {
  line = "@@ -7,2 +7,3 @@ def run():";
  header = first_header;
  body =
      (context, "    x = 1") ∷ (delete, "    y = 2") ∷ (add, "    y = 3") ∷ (add, "    z = 4") ∷ [];
}

abbrev second : Written
second = record { line = "@@ -40 +41,0 @@"; header = second_header; body = (delete, "done()") ∷ [] }

first_line : hunk_header first.line ≡ some first_header
unfolding hunk_header after range digits more_digits count_or_one
first_line = refl

second_line : hunk_header second.line ≡ some second_header
unfolding hunk_header after range digits more_digits count_or_one
second_line = refl

no_header_line : hunk_header "@@ -7,2 +x,3 @@" ≡ none
unfolding hunk_header after range digits more_digits count_or_one
no_header_line = refl

parse_hunks-show_hunks_example :
    parse_hunks same (show_hunks (first ∷ second ∷ [])) ≡ map (hunk_of same) (first ∷ second ∷ [])
parse_hunks-show_hunks_example =
    parse_hunks-show_hunks same (first ∷ second ∷ []) (first_line, (second_line, tt))

abbrev deleted_image : List String
deleted_image =
    "deleted file mode 100644" ∷ "index 1f2e3d4..0000000"
    ∷ "Binary files a/x.png and /dev/null differ" ∷ []

image_paths : git_paths "diff --git a/x.png b/x.png" ≡ some ("x.png", "x.png")
unfolding git_paths after split_last
image_paths = refl

image_starts : starts "diff --git " "diff --git a/x.png b/x.png" ≡ true
unfolding after
image_starts = refl

no_new_file : All (λ line. after "+++ " line ≡ none) deleted_image
unfolding after
no_new_file = (refl, (refl, (refl, tt)))

parse_block-not_deleted_example :
    is_deleted_file (parse_block same ("diff --git a/x.png b/x.png" ∷ deleted_image)) ≡ false
parse_block-not_deleted_example =
    parse_block-not_deleted same "diff --git a/x.png b/x.png" deleted_image "x.png" "x.png"
      image_starts image_paths no_new_file

abbrev diff_lines : List String
diff_lines =
    "diff --git a/a.py b/a.py" ∷ "--- a/a.py" ∷ "+++ b/a.py" ∷ "@@ -7,2 +7,3 @@ def run():"
    ∷ "-    y = 2" ∷ "+    y = 3" ∷ "@@ -40 +41,0 @@" ∷ "-done()" ∷ "diff --git a/old.py b/old.py"
    ∷ "--- a/old.py" ∷ "+++ /dev/null" ∷ "@@ -1 +0,0 @@" ∷ "-pass" ∷ []

-- Of the two files and three hunks, one file with one hunk is left without deletions.
hunk_numbers :
    map
      (λ patch. map (λ hunk. hunk.new_start) patch.hunks)
      (parse_diff same (λ text. diff_lines) "diff" true)
    ≡ (7 ∷ 41 ∷ []) ∷ (0 ∷ []) ∷ []
unfolding parse_diff split_blocks parse_block file_header parse_hunks parse_from hunk_header after
    range digits more_digits count_or_one open_hunk close_hunk hunk_line git_paths split_last
    strip_path_prefix
hunk_numbers = refl

hunks_left :
    map
      (λ patch. map (λ hunk. hunk.new_start) patch.hunks)
      (parse_diff same (λ text. diff_lines) "diff" false)
    ≡ (7 ∷ []) ∷ []
unfolding parse_diff split_blocks parse_block file_header parse_hunks parse_from hunk_header after
    range digits more_digits count_or_one open_hunk close_hunk hunk_line git_paths split_last
    strip_path_prefix apply_deletion_omission without_deletions
hunks_left = refl

parse_hunks-Numbered_example : All HunkNumbered (parse_hunks same diff_lines)
parse_hunks-Numbered_example = parse_hunks-Numbered same diff_lines

apply_deletion_omission-Omitted_example :
    Omitted
      (map (parse_block same) (split_blocks diff_lines).1)
      (apply_deletion_omission (map (parse_block same) (split_blocks diff_lines).1))
apply_deletion_omission-Omitted_example =
    apply_deletion_omission-Omitted (map (parse_block same) (split_blocks diff_lines).1)

-- ===== src/Diff.antt =====
-- kenjutsu/diff/models.py: the data of a parsed diff. Its children are kenjutsu/diff/parser.py.
pub mod Text
mod Parser
mod Numbering
mod Printing
mod Omission
mod Deletions
mod Tests
use kenjutsu.Base.{
  ℕ, String, Bool, true, false, not, ◌&&◌, ◌+◌, ◌-◌, Option, none, some, List, [], ◌∷◌, count,
  sum_map, ◌==◌, string_eq, if◌then◌else◌,
}

pub data ChangeType : Type 0 where
  add delete context : ChangeType

pub record HunkLine : Type 0 where
  pub change_type : ChangeType
  pub content : String
  pub old_lineno : Option ℕ
  pub new_lineno : Option ℕ

pub record ScopeContext : Type 0 where
  pub kind : String
  pub name : String
  pub signature : String
  pub start_line : ℕ
  pub end_line : ℕ
  pub language : String

pub record Hunk : Type 0 where
  pub old_start : ℕ
  pub old_count : ℕ
  pub new_start : ℕ
  pub new_count : ℕ
  pub lines : List HunkLine
  pub section_header : String
  pub enclosing_scope : Option ScopeContext

abbrev pub is_add : HunkLine → Bool
is_add line = elim line.change_type [ add ↦ true | _ ↦ false ]

abbrev pub is_delete : HunkLine → Bool
is_delete line = elim line.change_type [ delete ↦ true | _ ↦ false ]

-- `any(ln.change_type == ChangeType.ADD for ln in lines)`
abbrev pub any_add : List HunkLine → Bool
any_add [] = false
any_add (line ∷ lines) = if is_add line then true else any_add lines

abbrev pub is_deletion_only : Hunk → Bool
is_deletion_only hunk = not (any_add hunk.lines)

-- `max(new_count - 1, 0)` is subtraction that stops at 0.
abbrev pub new_line_range : Hunk → ℕ × ℕ
new_line_range hunk = (hunk.new_start, hunk.new_start + (hunk.new_count - 1))

pub record PatchFile : Type 0 where
  pub old_path : Option String
  pub new_path : Option String
  pub hunks : List Hunk
  pub is_binary : Bool

-- `a or b` of optional texts, where the empty text counts as none.
abbrev pub or_text : Option String → String → String
or_text none other = other
or_text (some text) other = if text == "" then other else text

abbrev pub patch_path : PatchFile → String
patch_path patch = or_text patch.new_path (or_text patch.old_path "")

abbrev present : Option String → Bool
present none = false
present (some path) = true

abbrev pub is_new_file : PatchFile → Bool
is_new_file patch = not (present patch.old_path) && present patch.new_path

abbrev pub is_deleted_file : PatchFile → Bool
is_deleted_file patch = present patch.old_path && not (present patch.new_path)

abbrev differ : Option String → Option String → Bool
differ (some old) (some new) = not (old == new)
differ _ _ = false

abbrev pub is_rename : PatchFile → Bool
is_rename patch = differ patch.old_path patch.new_path

abbrev pub additions : PatchFile → ℕ
additions patch = sum_map (λ hunk. count is_add hunk.lines) patch.hunks

abbrev pub deletions : PatchFile → ℕ
deletions patch = sum_map (λ hunk. count is_delete hunk.lines) patch.hunks

-- ===== src/Diff/Deletions.antt =====
-- Files that a diff deletes without a `+++` line, as it does a binary or an empty file, in
-- kenjutsu/diff/parser.py.
use kenjutsu.Base.{
  arith, String, true, false, ◌≡◌, refl, Option, none, some, List, [], ◌∷◌, All, Option-cases, inl,
  inr,
}
use kenjutsu.Diff.{PatchFile, is_deleted_file}
use kenjutsu.Diff.Text.{after, starts, git_paths, strip_path_prefix}
use kenjutsu.Diff.Parser.{FileHeader, set_git_paths, file_header, renamed, no_header, parse_block}

abbrev HasNew : FileHeader → Type 0
HasNew h = (path : String) × h.new_path ≡ some path

-- No line says what the file is after the change.
abbrev pub NoNewFile : List String → Type 0
NoNewFile lines = All (λ line. after "+++ " line ≡ none) lines

set_git_paths-HasNew :
    (paths : Option (String × String)) (h : FileHeader) → HasNew h → HasNew (set_git_paths paths h)
set_git_paths-HasNew none h p = p
set_git_paths-HasNew (some (old, new)) h p = (new, refl)

file_header-HasNew :
    (h : FileHeader) (lines : List String)
    → HasNew h
    → NoNewFile lines
    → HasNew (file_header h lines).0
unfolding file_header
file_header-HasNew h [] p n = p
file_header-HasNew h (line ∷ lines) p n = elim (Option-cases (after "diff --git " line)) [
  | inr (s, e) ↦
      rw (e, file_header)
        (file_header-HasNew (set_git_paths (git_paths line) h) lines
          (set_git_paths-HasNew (git_paths line) h p) n.1)
  | inl e ↦
      rw (e, file_header)
        (elim (Option-cases (after "--- " line)) [
          | inr (s, e) ↦
              rw (e, file_header)
                (file_header-HasNew (record h { old_path = strip_path_prefix s }) lines p n.1)
          | inl e ↦
              rw (e, n.0, file_header)
                (elim (Option-cases (after "Binary files" line)) [
                  | inr (s, e) ↦ rw (e, file_header) p
                  | inl e ↦
                      rw (e, file_header)
                        (elim (Option-cases (after "rename from " line)) [
                          | inr (s, e) ↦
                              rw (e, file_header)
                                (file_header-HasNew (record h { rename_from = some s }) lines p n.1)
                          | inl e ↦
                              rw (e, file_header)
                                (elim (Option-cases (after "rename to " line)) [
                                  | inr (s, e) ↦
                                      rw (e, file_header)
                                        (file_header-HasNew (record h { rename_to = some s }) lines
                                          p n.1)
                                  | inl e ↦ rw (e, file_header) (file_header-HasNew h lines p n.1)
                                ])
                        ])
                ])
        ])
]

renamed-some :
    (name path : Option String)
    → (s : String) × path ≡ some s
    → (s : String) × renamed name path ≡ some s
renamed-some none path p = p
renamed-some (some name) path p = (name, refl)

not_deleted :
    (patch : PatchFile) → (s : String) × patch.new_path ≡ some s → is_deleted_file patch ≡ false
not_deleted patch (s, e) = elim (Option-cases patch.old_path) [
  | inl o ↦ rw o refl
  | inr (x, o) ↦ rw (o, e) refl
]

-- A file whose block has no line that starts with `+++ ` is not counted as deleted, whatever else the
-- block says, where the pattern for paths matches the line it starts with.
pub parse_block-not_deleted :
    (strip : String → String) (line : String) (lines : List String) (old new : String)
    → starts "diff --git " line ≡ true
    → git_paths line ≡ some (old, new)
    → NoNewFile lines
    → is_deleted_file (parse_block strip (line ∷ lines)) ≡ false
unfolding parse_block file_header
parse_block-not_deleted strip line lines old new h g n =
    elim (Option-cases (after "diff --git " line)) [
      | inl e ↦ absurd (ground (arith, rw e at h))
      | inr (s, e) ↦
          let f =
            file_header-HasNew (set_git_paths (git_paths line) no_header) lines (new, rw g refl)
              n in
          not_deleted (parse_block strip (line ∷ lines)) (
            renamed-some (file_header no_header (line ∷ lines)).0.rename_to
              (file_header no_header (line ∷ lines)).0.new_path (rw (e, file_header) f))
    ]

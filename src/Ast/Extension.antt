-- ===== src/Ast/Extension.antt =====
-- `extend_hunks_with_ast` and `find_enclosing_scope` of kenjutsu/diff/ast_context.py.
pub mod Encloses
use kenjutsu.Base.{
  ℕ, String, Bool, true, false, ◌||◌, ◌+◌, ◌-◌, Option, none, some, List, [], ◌∷◌, map, ◌==◌,
  string_eq, if◌then◌else◌,
}
use kenjutsu.Effect.{Result, ok, err}
use kenjutsu.Diff.{ScopeContext, Hunk, PatchFile, patch_path, is_deleted_file, new_line_range}
use kenjutsu.Ast.{Node, find_innermost_scope}
use kenjutsu.Ast.Languages.{
  lookup, LanguageConfig, language_configs, detect_language, load_language,
}
use kenjutsu.Ast.Context.{build_scope_context}

-- `_LANGUAGE_CONFIGS[lang_name][1]`, of a language that was loaded.
abbrev pub scope_kinds : String → List String
scope_kinds lang_name = elim (lookup language_configs lang_name) [
  | none ↦ []
  | some config ↦ config.scope_node_kinds
]

abbrev pub no_hunks : List Hunk → Bool
no_hunks [] = true
no_hunks (hunk ∷ hunks) = false

-- Python's methods on texts, with `suffix_lower` for `Path(path).suffix.lower()`; the loading of a
-- grammar from a module's function, and its parser, with `none` for an exception.
pub record Tools (Language : Type 0) : Type 0 where
  pub suffix_lower : String → String
  pub rstrip : String → String
  pub strip : String → String
  pub splitlines : String → List String
  pub grammar : String → String → Option Language
  pub parse : Language → String → Option Node

module _ {Language : Type 0} (tools : Tools Language) where
  unfoldable pub scope_of : Node → List String → String → Hunk → Option ScopeContext
  scope_of root source_lines lang_name hunk =
      let range = new_line_range hunk in
      elim (find_innermost_scope range.0 range.1 (scope_kinds lang_name) root) [
        | none ↦ none
        | some n ↦ some (build_scope_context tools.rstrip tools.strip n source_lines lang_name)
      ]

  -- `none` is an exception of the parser.
  unfoldable pub find_enclosing_scope : String → Hunk → String → Option (Option ScopeContext)
  find_enclosing_scope source hunk lang_name = elim (load_language tools.grammar lang_name) [
    | none ↦ some none
    | some language ↦ elim (tools.parse language source) [
      | none ↦ none
      | some root ↦ some (scope_of root (tools.splitlines source) lang_name hunk)
    ]
  ]

  -- The loop body over the hunks.
  unfoldable pub extend_hunk : Node → List String → String → Hunk → Hunk
  extend_hunk root source_lines lang_name hunk = elim (scope_of root source_lines lang_name hunk) [
    | none ↦ hunk
    | some scope ↦ record hunk { enclosing_scope = some scope }
  ]

  unfoldable pub extend_parsed : PatchFile → String → String → Option Node → PatchFile
  extend_parsed patch lang_name source none = patch
  extend_parsed patch lang_name source (some root) = record patch {
    hunks = map (extend_hunk root (tools.splitlines source) lang_name) patch.hunks;
  }

  -- From the language on: a `continue` leaves the patch as it is.
  unfoldable pub extend_language :
      (String → Option String) → PatchFile → String → Option Language → PatchFile
  extend_language file_content_getter patch lang_name none = patch
  extend_language file_content_getter patch lang_name (some language) =
      elim (file_content_getter (patch_path patch)) [
        | none ↦ patch
        | some source ↦ extend_parsed patch lang_name source (tools.parse language source)
      ]

  -- The loop body over the patches.
  unfoldable pub extend_patch : (String → Option String) → PatchFile → PatchFile
  extend_patch file_content_getter patch =
      if patch.is_binary || (is_deleted_file patch || no_hunks patch.hunks)
      then patch
      else elim (detect_language tools.suffix_lower (patch_path patch)) [
        | none ↦ patch
        | some lang_name ↦
            extend_language file_content_getter patch lang_name
              (load_language tools.grammar lang_name)
      ]

  unfoldable pub extend_hunks_with_ast : List PatchFile → (String → Option String) → List PatchFile
  extend_hunks_with_ast patches file_content_getter = map (extend_patch file_content_getter) patches

-- ===== src/Ast/Extension/Encloses.antt =====
-- What `extend_hunks_with_ast` of kenjutsu/diff/ast_context.py changes: scopes, and only to ones that
-- enclose their hunk.
use kenjutsu.Base.{
  String, ◌||◌, ◌≤◌, ◌≡◌, refl, ◌⊎◌, inl, inr, Option, none, some, List, [], ◌∷◌, map, arith,
  Bool-cases, Option-cases, string_eq,
}
use kenjutsu.Diff.{ScopeContext, Hunk, PatchFile, patch_path, is_deleted_file, new_line_range}
use kenjutsu.Ast.{Node, find_innermost_scope, encloses}
use kenjutsu.Ast.Innermost.{find_sound}
use kenjutsu.Ast.Languages.{detect_language, load_language}
use kenjutsu.Ast.Context.{build_scope_context}
use kenjutsu.Ast.Extension.{
  Tools, scope_kinds, no_hunks, scope_of, extend_hunk, extend_parsed, extend_language, extend_patch,
  extend_hunks_with_ast,
}

-- The scope's lines include the new lines of the hunk.
pub record Covers (hunk : Hunk) (scope : ScopeContext) : Type 0 where
  pub from_start : scope.start_line ≤ (new_line_range hunk).0
  pub to_end : (new_line_range hunk).1 ≤ scope.end_line

-- The hunk after is the hunk before, except that it may have got a scope that covers it.
abbrev pub Scoped : Hunk → Hunk → Type 0
Scoped before after =
    (after ≡ before)
    ⊎ ((scope : ScopeContext) × (after ≡ record before { enclosing_scope = some scope })
        × Covers before scope)

-- The lists correspond item by item.
pub Each : {A : Type 0} → (A → A → Type 0) → List A → List A → Type 0
Each R [] [] = Unit
Each R [] (y ∷ ys) = ⊥
Each R (x ∷ xs) [] = ⊥
Each R (x ∷ xs) (y ∷ ys) = R x y × Each R xs ys

Each-map :
    {A : Type 0} (R : A → A → Type 0) (f : A → A)
    → ((x : A) → R x (f x))
    → (xs : List A) → Each R xs (map f xs)
unfolding Each
Each-map R f h [] = tt
Each-map R f h (x ∷ xs) = (h x, Each-map R f h xs)

Each-refl : {A : Type 0} (R : A → A → Type 0) → ((x : A) → R x x) → (xs : List A) → Each R xs xs
unfolding Each
Each-refl R h [] = tt
Each-refl R h (x ∷ xs) = (h x, Each-refl R h xs)

-- The file after has the same paths, and its hunks are the ones before, some with a scope.
pub record Extended (before after : PatchFile) : Type 0 where
  pub old_path : after.old_path ≡ before.old_path
  pub new_path : after.new_path ≡ before.new_path
  pub is_binary : after.is_binary ≡ before.is_binary
  pub hunks : Each Scoped before.hunks after.hunks

Extended-refl : (patch : PatchFile) → Extended patch patch
Extended-refl patch = record {
  old_path = refl;
  new_path = refl;
  is_binary = refl;
  hunks = Each-refl Scoped (λ hunk. inl refl) patch.hunks;
}

module _ {Language : Type 0} (tools : Tools Language) where
  context-Covers :
      (root n : Node) (lines : List String) (lang : String) (hunk : Hunk)
      → find_innermost_scope (new_line_range hunk).0 (new_line_range hunk).1 (scope_kinds lang) root
        ≡ some n
      → Covers hunk (build_scope_context tools.rstrip tools.strip n lines lang)
  unfolding build_scope_context encloses
  context-Covers root n lines lang hunk h =
      let found =
        find_sound (new_line_range hunk).0 (new_line_range hunk).1 (scope_kinds lang) root n h in
      record {
        from_start = ground (arith, found.1.around);
        to_end = ground (arith, found.1.around);
      }

  extend_hunk-Scoped :
      (root : Node) (lines : List String) (lang : String) (hunk : Hunk)
      → Scoped hunk (extend_hunk tools root lines lang hunk)
  unfolding extend_hunk scope_of
  extend_hunk-Scoped root lines lang hunk =
      let range = new_line_range hunk in
      elim (Option-cases (find_innermost_scope range.0 range.1 (scope_kinds lang) root)) [
        | inl h ↦ rw (h, extend_hunk) (inl refl)
        | inr (n, h) ↦
            rw (h, extend_hunk)
              (inr (
                build_scope_context tools.rstrip tools.strip n lines lang,
                refl,
                context-Covers root n lines lang hunk h,
              ))
      ]

  extend_parsed-Extended :
      (patch : PatchFile) (lang source : String) (root : Option Node)
      → Extended patch (extend_parsed tools patch lang source root)
  unfolding extend_parsed
  extend_parsed-Extended patch lang source none = Extended-refl patch
  extend_parsed-Extended patch lang source (some root) = record {
    old_path = refl;
    new_path = refl;
    is_binary = refl;
    hunks = Each-map Scoped _ (extend_hunk-Scoped root (tools.splitlines source) lang) patch.hunks;
  }

  extend_language-Extended :
      (getter : String → Option String) (patch : PatchFile) (lang : String)
      (language : Option Language)
      → Extended patch (extend_language tools getter patch lang language)
  unfolding extend_language
  extend_language-Extended getter patch lang none = Extended-refl patch
  extend_language-Extended getter patch lang (some language) =
      elim (Option-cases (getter (patch_path patch))) [
        | inl h ↦ rw (h, extend_language) (Extended-refl patch)
        | inr (source, h) ↦
            rw (h, extend_language)
              (extend_parsed-Extended patch lang source (tools.parse language source))
      ]

  extend_patch-Extended :
      (getter : String → Option String) (patch : PatchFile)
      → Extended patch (extend_patch tools getter patch)
  unfolding extend_patch
  extend_patch-Extended getter patch =
      elim (Bool-cases (patch.is_binary || (is_deleted_file patch || no_hunks patch.hunks))) [
        | inl y ↦ rw y (Extended-refl patch)
        | inr n ↦
            rw n (elim (Option-cases (detect_language tools.suffix_lower (patch_path patch))) [
              | inl h ↦ rw h (Extended-refl patch)
              | inr (lang, h) ↦
                  rw h
                    (extend_language-Extended getter patch lang (load_language tools.grammar lang))
            ])
      ]

  -- Extending a diff changes no file's paths and no hunk but for its scope, and a hunk gets only a
  -- scope whose lines include all of its new lines.
  pub extend_hunks-Extended :
      (patches : List PatchFile) (getter : String → Option String)
      → Each Extended patches (extend_hunks_with_ast tools patches getter)
  unfolding extend_hunks_with_ast
  extend_hunks-Extended patches getter =
      Each-map Extended (extend_patch tools getter) (extend_patch-Extended getter) patches

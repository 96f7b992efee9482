-- ===== src/Ast/Languages.antt =====
-- The tables of kenjutsu/diff/ast_context.py: languages by extension, the node kinds that are scopes,
-- and their labels.
use kenjutsu.Base.{String, Option, none, some, List, [], ◌∷◌, ◌==◌, string_eq, if◌then◌else◌}

-- A dictionary literal.
unfoldable pub lookup : {V : Type 0} → List (String × V) → String → Option V
lookup [] key = none
lookup ((name, value) ∷ entries) key = if name == key then some value else lookup entries key

pub record LanguageConfig : Type 0 where
  pub module_name : String
  pub scope_node_kinds : List String
  pub body_field_names : List String

abbrev body_only : String → List String → LanguageConfig
body_only module_name kinds = record {
  module_name = module_name;
  scope_node_kinds = kinds;
  body_field_names = "body" ∷ [];
}

abbrev javascript_kinds : List String
javascript_kinds =
    "function_declaration" ∷ "function_expression" ∷ "arrow_function" ∷ "class_declaration"
    ∷ "class_expression" ∷ "method_definition" ∷ []

abbrev pub language_configs : List (String × LanguageConfig)
language_configs =
    (
      "python",
      body_only "tree_sitter_python"
          ("function_definition" ∷ "class_definition" ∷ "decorated_definition" ∷ []),
    )
    ∷ ("javascript", body_only "tree_sitter_javascript" javascript_kinds)
    ∷ (
      "typescript",
      body_only "tree_sitter_typescript" ("abstract_method_signature" ∷ javascript_kinds),
    )
    ∷ ("tsx", body_only "tree_sitter_typescript" javascript_kinds)
    ∷ ("go", body_only "tree_sitter_go" ("function_declaration" ∷ "method_declaration" ∷ []))
    ∷ (
      "java",
      body_only "tree_sitter_java" (
          "method_declaration" ∷ "class_declaration" ∷ "interface_declaration"
          ∷ "constructor_declaration" ∷ []),
    )
    ∷ (
      "rust",
      body_only "tree_sitter_rust"
          ("function_item" ∷ "impl_item" ∷ "struct_item" ∷ "trait_item" ∷ []),
    )
    ∷ []

abbrev pub ext_to_language : List (String × String)
ext_to_language =
    (".py", "python")
    ∷ (".pyi", "python")
    ∷ (".js", "javascript")
    ∷ (".mjs", "javascript")
    ∷ (".cjs", "javascript")
    ∷ (".jsx", "javascript")
    ∷ (".ts", "typescript")
    ∷ (".mts", "typescript")
    ∷ (".cts", "typescript")
    ∷ (".tsx", "tsx")
    ∷ (".go", "go")
    ∷ (".java", "java")
    ∷ (".rs", "rust")
    ∷ []

abbrev pub kind_map : List (String × String)
kind_map =
    ("function_definition", "function")
    ∷ ("function_declaration", "function")
    ∷ ("function_expression", "function")
    ∷ ("arrow_function", "function")
    ∷ ("function_item", "function")
    ∷ ("class_definition", "class")
    ∷ ("class_declaration", "class")
    ∷ ("class_expression", "class")
    ∷ ("decorated_definition", "function")
    ∷ ("method_definition", "method")
    ∷ ("method_declaration", "method")
    ∷ ("abstract_method_signature", "method")
    ∷ ("constructor_declaration", "constructor")
    ∷ ("interface_declaration", "interface")
    ∷ ("struct_item", "struct")
    ∷ ("impl_item", "impl")
    ∷ ("trait_item", "trait")
    ∷ []

-- `suffix_lower` is `Path(file_path).suffix.lower()`.
unfoldable pub detect_language : (String → String) → String → Option String
detect_language suffix_lower file_path = lookup ext_to_language (suffix_lower file_path)

abbrev language_function : String → String
language_function lang_name =
    if lang_name == "tsx"
    then "language_tsx"
    else if lang_name == "typescript"
    then "language_typescript"
    else "language"

-- `grammar` imports a module and calls its function; `none` is any exception.
unfoldable pub load_language :
    {Language : Type 0} → (String → String → Option Language) → String → Option Language
load_language grammar lang_name = elim (lookup language_configs lang_name) [
  | none ↦ none
  | some config ↦ grammar config.module_name (language_function lang_name)
]

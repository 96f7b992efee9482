-- ===== src/Ast/Context.antt =====
-- The context that kenjutsu/diff/ast_context.py builds from a scope's node: its name and signature.
use kenjutsu.Base.{
  String, Bool, false, ◌||◌, ◌+◌, ◌-◌, Option, none, some, List, [], ◌∷◌, map, drop, take, ◌==◌,
  string_eq, if◌then◌else◌,
}
use kenjutsu.Finding.{join}
use kenjutsu.Diff.{ScopeContext}
use kenjutsu.Ast.{
  Node, node, Nodes, nil, cons, node_type, start_row, end_row, node_text, node_children,
}
use kenjutsu.Ast.Languages.{lookup, language_configs, kind_map}

abbrev is_field : String → Option String → Bool
is_field field none = false
is_field field (some name) = name == field

-- `node.child_by_field_name(field)`
unfoldable pub child_by_field_name : String → Nodes → Option Node
child_by_field_name field nil = none
child_by_field_name field (cons name child children) =
    if is_field field name then some child else child_by_field_name field children

-- The loop over the names of body fields.
unfoldable pub body_child : List String → Nodes → Option Node
body_child [] children = none
body_child (field ∷ fields) children = elim (child_by_field_name field children) [
  | none ↦ body_child fields children
  | some child ↦ some child
]

-- Python's `str.rstrip` and `str.strip` are parameters. A line is the decoded text of its bytes.
module _ (rstrip strip : String → String) where
  abbrev signature_rows : Node → Option Node → List String → List String
  signature_rows n none source_lines = take 1 (drop (start_row n) source_lines)
  signature_rows n (some body) source_lines =
      take (start_row body - start_row n) (drop (start_row n) source_lines)

  unfoldable pub extract_signature : Node → List String → String → String
  extract_signature n source_lines lang_name =
      let fields : List String = elim (lookup language_configs lang_name) [
        | none ↦ "body" ∷ []
        | some config ↦ config.body_field_names
      ] in
      strip (
        join "\n"
          (map rstrip (signature_rows n (body_child fields (node_children n)) source_lines)))

-- The first child that is an identifier with a text.
unfoldable pub identifier_text : Nodes → String
identifier_text nil = "<anonymous>"
identifier_text (cons name child children) =
    let later = identifier_text children in
    if node_type child == "identifier"
    then elim (node_text child) [ none ↦ later | some text ↦ text ]
    else later

unfoldable pub own_name : Nodes → String
own_name children = elim (child_by_field_name "name" children) [
  | none ↦ identifier_text children
  | some name ↦ elim (node_text name) [ none ↦ identifier_text children | some text ↦ text ]
]

abbrev is_definition : String → Bool
is_definition type =
    type == "function_definition"
    || (type == "class_definition" || type == "async_function_definition")

abbrev or_own : Option String → String → String
or_own none own = own
or_own (some name) own = name

unfoldable mutual
  pub extract_name : Node → String
  extract_name (node type start end text children) =
      let inner = definition_name children in
      if type == "decorated_definition" then or_own inner (own_name children) else own_name children

  -- The name of the first child that is a definition.
  pub definition_name : Nodes → Option String
  definition_name nil = none
  definition_name (cons field child children) =
      let this = extract_name child in
      let later = definition_name children in
      if is_definition (node_type child) then some this else later

abbrev or_type : Option String → String → String
or_type none type = type
or_type (some kind) type = kind

unfoldable pub build_scope_context :
    (String → String) → (String → String) → Node → List String → String → ScopeContext
build_scope_context rstrip strip n source_lines lang_name = record {
  kind = or_type (lookup kind_map (node_type n)) (node_type n);
  name = extract_name n;
  signature = extract_signature rstrip strip n source_lines lang_name;
  start_line = start_row n + 1;
  end_line = end_row n + 1;
  language = lang_name;
}

-- ===== src/Ast/Tests.antt =====
-- A class with a decorated method, as a tree, and the theorems about scopes there.
use kenjutsu.Base.{
  ℕ, String, false, none, some, [], ◌∷◌, ◌≡◌, refl, arith, ◌==◌, string_eq, if◌then◌else◌,
}
use kenjutsu.Diff.{ScopeContext, Hunk, PatchFile}
use kenjutsu.Ast.{Node, node, Nodes, nil, cons, find_innermost_scope, better, or_self, encloses}
use kenjutsu.Ast.Tree.{Nested}
use kenjutsu.Ast.Complete.{IsAnswer, find_innermost_scope-IsAnswer}
use kenjutsu.Ast.Languages.{lookup}
use kenjutsu.Ast.Context.{
  build_scope_context, extract_name, own_name, extract_signature, child_by_field_name, body_child,
}
use kenjutsu.Ast.Extension.{Tools, scope_kinds, extend_hunks_with_ast}
use kenjutsu.Ast.Extension.Encloses.{Each, Extended, extend_hunks-Extended}
use kenjutsu.Finding.{join}

abbrev identifier : String → ℕ → Node
identifier name row = node "identifier" row row (some name) nil

abbrev body : ℕ → ℕ → Nodes → Nodes
body start end children = cons (some "body") (node "block" start end none children) nil

abbrev method : Node
method =
    node "function_definition" 3 4 none (cons (some "name") (identifier "area" 3) (body 4 4 nil))

abbrev decorated : Node
decorated =
    node "decorated_definition" 2 4 none
      (cons none (node "decorator" 2 2 none nil) (cons (some "definition") method nil))

abbrev shape : Node
shape =
    node "class_definition" 0 4 none
      (cons (some "name") (identifier "Shape" 0) (body 2 4 (cons none decorated nil)))

abbrev root : Node
root = node "module" 0 9 none (cons none shape nil)

-- Line 5 is in the method; line 3 is only in the definition that is decorated; line 9 is in no scope.
innermost_scope : find_innermost_scope 5 5 (scope_kinds "python") root ≡ some method
unfolding find_innermost_scope better or_self encloses lookup
innermost_scope = refl

decorator_line : find_innermost_scope 3 3 (scope_kinds "python") root ≡ some decorated
unfolding find_innermost_scope better or_self encloses lookup
decorator_line = refl

outside : find_innermost_scope 9 9 (scope_kinds "python") root ≡ none
unfolding find_innermost_scope better or_self encloses lookup
outside = refl

root-Nested : Nested root
unfolding Nested
root-Nested = omega arith

find_innermost_scope-IsAnswer_example :
    IsAnswer 5 5 (scope_kinds "python") root (find_innermost_scope 5 5 (scope_kinds "python") root)
find_innermost_scope-IsAnswer_example =
    find_innermost_scope-IsAnswer 5 5 (scope_kinds "python") root (omega arith) root-Nested

abbrev tools : Tools (Unit {0})
tools = record {
  suffix_lower = λ path. if path == "a.py" then ".py" else "";
  rstrip = λ text. text;
  strip = λ text. text;
  splitlines = λ text. "class Shape:" ∷ "" ∷ "    @property" ∷ "    def area(self):" ∷ [];
  grammar = λ name function. some tt;
  parse = λ language source. some root;
}

abbrev hunk : Hunk
hunk = record {
  old_start = 5;
  old_count = 1;
  new_start = 5;
  new_count = 1;
  lines = [];
  section_header = "";
  enclosing_scope = none;
}

abbrev patch : PatchFile
patch = record {
  old_path = some "a.py";
  new_path = some "a.py";
  hunks = hunk ∷ [];
  is_binary = false;
}

abbrev area : ScopeContext
area = record {
  kind = "function";
  name = "area";
  signature = "    def area(self):";
  start_line = 4;
  end_line = 5;
  language = "python";
}

method_context :
    build_scope_context tools.rstrip tools.strip method (tools.splitlines "") "python" ≡ area
unfolding build_scope_context extract_name own_name extract_signature child_by_field_name body_child
    lookup join
method_context = refl

extend_hunks-Extended_example :
    Each Extended (patch ∷ []) (extend_hunks_with_ast tools (patch ∷ []) (λ path. some "source"))
extend_hunks-Extended_example = extend_hunks-Extended tools (patch ∷ []) (λ path. some "source")

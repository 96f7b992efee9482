-- ===== src/Ast.antt =====
-- kenjutsu/diff/ast_context.py: the scope around a hunk. Tree-sitter, with its grammars, is a
-- parameter; a node is what its bindings show of it, with the decoded text of the node.
mod Languages
mod Context
mod Tree
mod Innermost
mod Complete
mod Extension
mod Tests
use kenjutsu.Base.{
  ℕ, String, Bool, true, false, ◌&&◌, ◌||◌, ◌+◌, ◌-◌, Option, none, some, List, [], ◌∷◌, ltb, leb,
  ◌==◌, string_eq, if◌then◌else◌,
}

-- A node: its type, its first and last row (from 0), its text, and its children, each with the name of
-- its field, if it has one.
mutual
  pub data Node : Type 0 where
    node : String → ℕ → ℕ → Option String → Nodes → Node

  pub data Nodes : Type 0 where
    nil : Nodes
    cons : Option String → Node → Nodes → Nodes

abbrev pub node_type : Node → String
node_type (node type start end text children) = type

abbrev pub start_row : Node → ℕ
start_row (node type start end text children) = start

abbrev pub end_row : Node → ℕ
end_row (node type start end text children) = end

abbrev pub node_text : Node → Option String
node_text (node type start end text children) = text

abbrev pub node_children : Node → Nodes
node_children (node type start end text children) = children

-- `x in xs`
abbrev pub contains : List String → String → Bool
contains [] x = false
contains (y ∷ ys) x = if y == x then true else contains ys x

-- `candidate` in place of `best` when there is none yet or the candidate spans fewer rows; the spans
-- are compared crosswise, since a row less a row may be negative for a node that is not a tree's.
unfoldable pub better : Option Node → Option Node → Option Node
better best none = best
better none (some candidate) = some candidate
better (some best) (some candidate) =
    if ltb (end_row candidate + start_row best) (end_row best + start_row candidate)
    then some candidate
    else some best

unfoldable pub encloses : ℕ → ℕ → Node → Bool
encloses target_start target_end n =
    leb (start_row n + 1) target_start && leb target_end (end_row n + 1)

-- The node itself, when no child scope matched.
unfoldable pub or_self : ℕ → ℕ → List String → Node → Option Node → Option Node
or_self target_start target_end scope_kinds n (some best) = some best
or_self target_start target_end scope_kinds n none =
    if contains scope_kinds (node_type n) && encloses target_start target_end n
    then some n
    else none

-- The targets are line numbers, counted from 1, and a row is compared as the line it is, one more:
-- the source subtracts 1 from the lines, which makes -1 of the line 0 of an empty range.
unfoldable mutual
  pub find_innermost_scope : ℕ → ℕ → List String → Node → Option Node
  find_innermost_scope target_start target_end scope_kinds (node type start end text children) =
      let best = find_in_children target_start target_end scope_kinds children none in
      if ltb target_end (start + 1) || ltb (end + 1) target_start
      then none
      else or_self target_start target_end scope_kinds (node type start end text children) best

  -- The loop over the children, with the best scope so far.
  pub find_in_children : ℕ → ℕ → List String → Nodes → Option Node → Option Node
  find_in_children target_start target_end scope_kinds nil best = best
  find_in_children target_start target_end scope_kinds (cons name child children) best =
      find_in_children target_start target_end scope_kinds children
        (better best (find_innermost_scope target_start target_end scope_kinds child))

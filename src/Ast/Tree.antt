-- ===== src/Ast/Tree.antt =====
-- The nodes of a tree, and trees whose children lie within their parents' rows.
use kenjutsu.Base.{ℕ, String, ◌≤◌, Option, ◌≡◌}
use kenjutsu.Ast.{Node, node, Nodes, nil, cons, start_row, end_row}

-- `At d n`: the node `d` is `n` or lies below it. `AtSome d ns`: it is one of `ns` or lies below one.
mutual
  pub data At (d : Node) : Node → Type 0 where
    itself : (n : Node) → d ≡ n → At d n
    below :
        (type : String) (start end : ℕ) (text : Option String) (children : Nodes)
        → AtSome d children
        → At d (node type start end text children)

  pub data AtSome (d : Node) : Nodes → Type 0 where
    first :
        (name : Option String) (child : Node) (children : Nodes)
        → At d child
        → AtSome d (cons name child children)
    rest :
        (name : Option String) (child : Node) (children : Nodes)
        → AtSome d children
        → AtSome d (cons name child children)

-- Every child lies within the rows of its parent, all the way down.
unfoldable mutual
  pub Nested : Node → Type 0
  Nested (node type start end text children) = NestedIn start end children

  pub NestedIn : ℕ → ℕ → Nodes → Type 0
  NestedIn start end nil = Unit
  NestedIn start end (cons name child children) =
      (start ≤ start_row child) × (end_row child ≤ end) × Nested child × NestedIn start end children

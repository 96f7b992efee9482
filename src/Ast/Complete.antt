-- ===== src/Ast/Complete.antt =====
-- `_find_innermost_scope` of kenjutsu/diff/ast_context.py misses no scope around the target.
use kenjutsu.Base.{
  ℕ, String, false, ◌||◌, ◌+◌, ◌≤◌, ◌≡◌, sym, subst, inl, inr, Option, none, some, List, arith,
  Option-cases, ltb,
}
use kenjutsu.Ast.{
  Node, node, Nodes, nil, cons, start_row, end_row, node_children, encloses, or_self,
  find_innermost_scope, find_in_children,
}
use kenjutsu.Ast.Tree.{At, itself, below, AtSome, first, rest, Nested, NestedIn}
use kenjutsu.Ast.Innermost.{
  IsScopeAround, better-some, better-none, if_some, or_self-some, or_self-none, find_sound, At-rows,
}

-- No node around the target can lie outside of it.
around_inside :
    (ts te start end : ℕ) (kinds : List String) (d : Node)
    → ts ≤ te
    → IsScopeAround ts te kinds d
    → start ≤ start_row d
    → end_row d ≤ end
    → (ltb te (start + 1) || ltb (end + 1) ts) ≡ false
unfolding encloses
around_inside ts te start end kinds d h s a b = ground (arith, s.around)

abbrev pub NoneAt : ℕ → ℕ → List String → Node → Type 0
NoneAt ts te kinds n = (d : Node) → At d n → IsScopeAround ts te kinds d → ⊥

abbrev pub NoneAmong : ℕ → ℕ → List String → Nodes → Type 0
NoneAmong ts te kinds ns = (d : Node) → AtSome d ns → IsScopeAround ts te kinds d → ⊥

AtSome-nil : (d : Node) → AtSome d nil → ⊥
AtSome-nil d h = elim h [ ]

at_or_below :
    (ts te : ℕ) (kinds : List String) (d n : Node)
    → At d n
    → (IsScopeAround ts te kinds n → ⊥)
    → NoneAmong ts te kinds (node_children n)
    → IsScopeAround ts te kinds d
    → ⊥
at_or_below ts te kinds d n (itself _ e) not_here among s =
    not_here (subst (IsScopeAround ts te kinds) e s)
at_or_below ts te kinds d _ (below type start end text children a) not_here among s = among d a s

at_first :
    (ts te : ℕ) (kinds : List String) (name : Option String) (child : Node) (children : Nodes)
    (d : Node)
    → AtSome d (cons name child children)
    → (At d child → IsScopeAround ts te kinds d → ⊥)
    → (AtSome d children → IsScopeAround ts te kinds d → ⊥)
    → IsScopeAround ts te kinds d
    → ⊥
at_first ts te kinds _ _ _ d (first name child children a) now later s = now a s
at_first ts te kinds _ _ _ d (rest name child children a) now later s = later a s

mutual
  unfolding find_innermost_scope Nested

  find_complete :
      (ts te : ℕ) (kinds : List String) (n : Node)
      → ts ≤ te
      → Nested n
      → find_innermost_scope ts te kinds n ≡ none
      → NoneAt ts te kinds n
  find_complete ts te kinds (node type start end text children) le w h d a s =
      let here = node type start end text children in
      let rows = At-rows d here a w in
      let inside = around_inside ts te start end kinds d le s rows.0 rows.1 in
      let empty = or_self-none ts te kinds here _ (rw inside at h) in
      let among = find_in_complete ts te kinds start end children none le w empty.0 in
      at_or_below ts te kinds d here a empty.1 among.1 s

  find_in_complete :
      (ts te : ℕ) (kinds : List String) (start end : ℕ) (ns : Nodes) (best : Option Node)
      → ts ≤ te
      → NestedIn start end ns
      → find_in_children ts te kinds ns best ≡ none
      → (best ≡ none) × NoneAmong ts te kinds ns
  find_in_complete ts te kinds start end nil best le w h = (h, λ d a s. AtSome-nil d a)
  find_in_complete ts te kinds start end (cons name child children) best le w h =
      let later = find_in_complete ts te kinds start end children _ le w.3 h in
      let both = better-none best _ later.0 in
      let now = find_complete ts te kinds child le w.2 both.1 in
      (both.0, λ d a. at_first ts te kinds name child children d a (now d) (later.1 d))

-- No scope around the target lies strictly below the one that is found.
mutual
  unfolding find_innermost_scope Nested

  find_innermost :
      (ts te : ℕ) (kinds : List String) (n r : Node)
      → ts ≤ te
      → Nested n
      → find_innermost_scope ts te kinds n ≡ some r
      → NoneAmong ts te kinds (node_children r)
  find_innermost ts te kinds (node type start end text children) r le w h =
      let here = node type start end text children in
      let inside =
        if_some (ltb te (start + 1) || ltb (end + 1) ts)
          (or_self ts te kinds here (find_in_children ts te kinds children none)) r h in
      elim (or_self-some ts te kinds here r _ inside) [
        | inl b ↦
            find_in_innermost ts te kinds start end children none r le w
              (λ e. absurd (ground (arith, e))) b
        | inr (empty, same, scope) ↦
            subst (λ x. NoneAmong ts te kinds (node_children x)) (sym same)
              (find_in_complete ts te kinds start end children none le w empty).1
      ]

  find_in_innermost :
      (ts te : ℕ) (kinds : List String) (start end : ℕ) (ns : Nodes) (best : Option Node) (r : Node)
      → ts ≤ te
      → NestedIn start end ns
      → (best ≡ some r → NoneAmong ts te kinds (node_children r))
      → find_in_children ts te kinds ns best ≡ some r
      → NoneAmong ts te kinds (node_children r)
  find_in_innermost ts te kinds start end nil best r le w old h = old h
  find_in_innermost ts te kinds start end (cons name child children) best r le w old h =
      find_in_innermost ts te kinds start end children _ r le w.3
        (λ b. elim (better-some best _ r b) [
          | inl e ↦ old e
          | inr new ↦ find_innermost ts te kinds child r le w.2 new
        ])
        h

-- What the search is to return: without a result, no scope of the tree is around the target; a result
-- is a scope of the tree around the target, and none lies strictly below it.
abbrev pub IsAnswer : ℕ → ℕ → List String → Node → Option Node → Type 0
IsAnswer ts te kinds root none = NoneAt ts te kinds root
IsAnswer ts te kinds root (some r) =
    At r root × IsScopeAround ts te kinds r × NoneAmong ts te kinds (node_children r)

-- In a tree whose nodes lie within their parents, the search returns a scope of the tree whose rows
-- include the target's, with no other such scope strictly below it, and returns none only where the
-- tree has no such scope.
pub find_innermost_scope-IsAnswer :
    (ts te : ℕ) (kinds : List String) (root : Node)
    → ts ≤ te
    → Nested root
    → IsAnswer ts te kinds root (find_innermost_scope ts te kinds root)
find_innermost_scope-IsAnswer ts te kinds root le w =
    elim (Option-cases (find_innermost_scope ts te kinds root)) [
      | inl h ↦ rw h (find_complete ts te kinds root le w h)
      | inr (r, h) ↦
          let sound = find_sound ts te kinds root r h in
          rw h (sound.0, sound.1, find_innermost ts te kinds root r le w h)
    ]

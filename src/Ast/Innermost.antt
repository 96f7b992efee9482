-- ===== src/Ast/Innermost.antt =====
-- `_find_innermost_scope` of kenjutsu/diff/ast_context.py finds an innermost scope around the target.
use kenjutsu.Base.{
  ℕ, String, Bool, true, ◌&&◌, ◌||◌, ◌+◌, ◌≤◌, ◌≡◌, refl, sym, ap, subst, ◌⊎◌, inl, inr, Option,
  none, some, List, arith, Bool-cases, some_eq, ltb, if◌then◌else◌,
}
use kenjutsu.Ast.{
  Node, node, Nodes, nil, cons, node_type, start_row, end_row, contains, better, encloses, or_self,
  find_innermost_scope, find_in_children,
}
use kenjutsu.Ast.Tree.{At, itself, below, AtSome, first, rest, Nested, NestedIn}

module _ (target_start target_end : ℕ) (scope_kinds : List String) where
  abbrev find : Node → Option Node
  find = find_innermost_scope target_start target_end scope_kinds

  abbrev find_in : Nodes → Option Node → Option Node
  find_in = find_in_children target_start target_end scope_kinds

  -- A node of a scope's kind whose rows include the target's.
  pub record IsScopeAround (n : Node) : Type 0 where
    pub kind : contains scope_kinds (node_type n) ≡ true
    pub around : encloses target_start target_end n ≡ true

pub better-some :
    (best candidate : Option Node) (r : Node)
    → better best candidate ≡ some r
    → (best ≡ some r) ⊎ (candidate ≡ some r)
unfolding better
better-some best none r h = inl h
better-some none (some c) r h = inr h
better-some (some b) (some c) r h = ground (arith, h)

pub better-none :
    (best candidate : Option Node)
    → better best candidate ≡ none
    → (best ≡ none) × (candidate ≡ none)
unfolding better
better-none best none h = (h, refl)
better-none none (some c) h = absurd (ground (arith, h))
better-none (some b) (some c) h = absurd (ground (arith, h))

and_parts : (a b : Bool) → (a && b) ≡ true → (a ≡ true) × (b ≡ true)
and_parts a b h = ground arith

pub if_some :
    (b : Bool) (x : Option Node) (r : Node) → (if b then none else x) ≡ some r → x ≡ some r
if_some b x r h = ground (arith, h)

module _ (target_start target_end : ℕ) (scope_kinds : List String) where
  pub or_self-some :
      (n r : Node) (best : Option Node)
      → or_self target_start target_end scope_kinds n best ≡ some r
      → (best ≡ some r)
        ⊎ ((best ≡ none) × (r ≡ n) × IsScopeAround target_start target_end scope_kinds r)
  unfolding or_self
  or_self-some n r (some b) h = inl h
  or_self-some n r none h =
      elim (Bool-cases (contains scope_kinds (node_type n) && encloses target_start target_end n)) [
        | inl y ↦
            let same : n ≡ r = some_eq (rw y at h) in
            let both = and_parts _ _ y in
            inr (
              refl,
              sym same,
              subst (IsScopeAround target_start target_end scope_kinds) same
                  (record { kind = both.0; around = both.1 }),
            )
        | inr x ↦ absurd (ground (arith, rw x at h))
      ]

  pub or_self-none :
      (n : Node) (best : Option Node)
      → or_self target_start target_end scope_kinds n best ≡ none
      → (best ≡ none) × (IsScopeAround target_start target_end scope_kinds n → ⊥)
  unfolding or_self
  or_self-none n (some b) h = absurd (ground (arith, h))
  or_self-none n none h = (refl, λ s. ground (arith, h, s.kind, s.around))

-- The scope that is found is a node of the tree, and one around the target.
mutual
  unfolding find_innermost_scope

  pub find_sound :
      (target_start target_end : ℕ) (kinds : List String) (n r : Node)
      → find_innermost_scope target_start target_end kinds n ≡ some r
      → At r n × IsScopeAround target_start target_end kinds r
  find_sound ts te kinds (node type start end text children) r h =
      let inside =
        if_some (ltb te (start + 1) || ltb (end + 1) ts)
          (or_self ts te kinds (node type start end text children)
            (find_in_children ts te kinds children none))
          r h in
      elim (or_self-some ts te kinds (node type start end text children) r _ inside) [
        | inl b ↦ elim (find_in_sound ts te kinds children none r b) [
          | inl e ↦ absurd (ground (arith, e))
          | inr (there, scope) ↦ (below type start end text children there, scope)
        ]
        | inr (_, same, scope) ↦ (itself _ same, scope)
      ]

  pub find_in_sound :
      (target_start target_end : ℕ) (kinds : List String) (ns : Nodes) (best : Option Node)
      (r : Node)
      → find_in_children target_start target_end kinds ns best ≡ some r
      → (best ≡ some r) ⊎ (AtSome r ns × IsScopeAround target_start target_end kinds r)
  find_in_sound ts te kinds nil best r h = inl h
  find_in_sound ts te kinds (cons name child children) best r h =
      elim (find_in_sound ts te kinds children _ r h) [
        | inl b ↦ elim (better-some best _ r b) [
          | inl old ↦ inl old
          | inr new ↦
              let found = find_sound ts te kinds child r new in
              inr (first name child children found.0, found.1)
        ]
        | inr found ↦ inr (rest name child children found.0, found.1)
      ]

-- In a nested tree, the rows of a node lie within those of the nodes above it.
mutual
  unfolding Nested

  pub At-rows :
      (d n : Node) → At d n → Nested n → (start_row n ≤ start_row d) × (end_row d ≤ end_row n)
  At-rows d n (itself _ e) w = ground (arith, ap start_row e, ap end_row e)
  At-rows d _ (below type start end text children a) w = AtSome-rows d start end children a w

  pub AtSome-rows :
      (d : Node) (start end : ℕ) (ns : Nodes)
      → AtSome d ns
      → NestedIn start end ns
      → (start ≤ start_row d) × (end_row d ≤ end)
  AtSome-rows d start end _ (first name child children a) w =
      omega (arith, w.0, w.1, At-rows d child a w.2)
  AtSome-rows d start end _ (rest name child children a) w = AtSome-rows d start end children a w.3

-- ===== src/Dict.antt =====
-- Python's `dict`: clients see the laws of `get`, `put` and `remove`, not the association list.
-- The order of entries, which the modelled code never reads, is not part of the model.
use kenjutsu.Base.{
  Option, none, some, List, [], ◌∷◌, ◌≡◌, refl, arith, Comparable, ◌==◌, if◌then◌else◌,
}

pub record Dict {ℓ κ} (K : Type ℓ) (V : Type κ) : Type (ℓ ⊔ κ) where
  entries : List (K × V)

module _ {ℓ κ} {K : Type ℓ} {V : Type κ} where
  -- `{}`
  pub empty : Dict K V
  empty = record { entries = [] }

module _ {ℓ κ} {K : Type ℓ} {V : Type κ} ⦃e : Comparable K⦄ where
  lookup : List (K × V) → K → Option V
  lookup [] k = none
  lookup ((j, v) ∷ l) k = if j == k then some v else lookup l k

  without : List (K × V) → K → List (K × V)
  without [] k = []
  without ((j, v) ∷ l) k = let rest = without l k in if j == k then rest else (j, v) ∷ rest

  -- `d.get(k)`
  pub get : Dict K V → K → Option V
  unfolding lookup
  get d k = lookup d.entries k

  -- `d[k] = v`
  pub put : Dict K V → K → V → Dict K V
  unfolding without
  put d k v = record { entries = (k, v) ∷ without d.entries k }

  -- `d.pop(k, None)`
  pub remove : Dict K V → K → Dict K V
  unfolding without
  remove d k = record { entries = without d.entries k }

  lookup-without :
      (l : List (K × V)) (k j : K) → lookup (without l k) j ≡ (if k == j then none else lookup l j)
  unfolding lookup without
  lookup-without [] k j = ground arith
  lookup-without ((i, v) ∷ l) k j =
      ground (arith, lookup-without l k j, e.equal_iff i k, e.equal_iff i j, e.equal_iff k j)

  pub get-empty : (k : K) → get (empty {V = V}) k ≡ none
  unfolding get empty
  get-empty k = refl

  pub get-put :
      (d : Dict K V) (k : K) (v : V) (j : K)
      → get (put d k v) j ≡ (if k == j then some v else get d j)
  unfolding get put
  get-put d k v j = ground (arith, lookup-without d.entries k j)

  pub get-remove :
      (d : Dict K V) (k j : K) → get (remove d k) j ≡ (if k == j then none else get d j)
  unfolding get remove
  get-remove d k j = lookup-without d.entries k j

pub ruleset dict_laws = (get-empty, get-put, get-remove)

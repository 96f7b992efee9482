-- ===== src/Base/Equality.antt =====
-- Python's `==` on the types of keys: one operator, with an instance for each type.
use Prim.Native.Nat.{ℕ, compare, Ordering}
use Prim.Native.String.{String}
use mathlib.Core.Path.{◌≡◌, refl}
use mathlib.Core.Logic.{◌↔◌}
use mathlib.Core.Bool.{Bool, true, false, ◌&&◌}
use native.Mathlib.Omega.{arith}
use text.Mathlib.Text.{◌==◌ as same_text}
use text.Mathlib.TextEquality.{eq_iff as same_text_iff}

-- A type whose values Python compares by what they are.
pub record Comparable {ℓ} (A : Type ℓ) : Type ℓ where
  pub equal : A → A → Bool
  pub equal_iff : (x y : A) → (equal x y ≡ true) ↔ (x ≡ y)

abbrev pub nat_equal : ℕ → ℕ → Bool
nat_equal m n = elim (compare m n) [ Ordering.eq ↦ true | _ ↦ false ]

pub nat_equal_iff : (m n : ℕ) → (nat_equal m n ≡ true) ↔ (m ≡ n)
nat_equal_iff m n = ground arith

instance abbrev pub string_eq : Comparable String
string_eq = record { equal_iff = same_text_iff; equal = same_text }

instance abbrev pub nat_eq : Comparable ℕ
nat_eq = record { equal_iff = nat_equal_iff; equal = nat_equal }

module _ {ℓ κ} {A : Type ℓ} {B : Type κ} ⦃e : Comparable A⦄ ⦃f : Comparable B⦄ where
  abbrev pub pair_equal : A × B → A × B → Bool
  pair_equal p q = e.equal p.0 q.0 && f.equal p.1 q.1

  pub pair_equal_iff : (p q : A × B) → (pair_equal p q ≡ true) ↔ (p ≡ q)
  pair_equal_iff p q = ground (arith, e.equal_iff p.0 q.0, f.equal_iff p.1 q.1)

  instance abbrev pub pair_eq : Comparable (A × B)
  pair_eq = record { equal_iff = pair_equal_iff; equal = pair_equal }

module _ {ℓ} {A : Type ℓ} ⦃e : Comparable A⦄ where
  infix 50 ◌==◌
  abbrev pub ◌==◌ : A → A → Bool
  ◌==◌ = e.equal

  pub beq_refl : (x : A) → (x == x) ≡ true
  beq_refl x = (e.equal_iff x x).1 refl

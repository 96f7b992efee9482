-- ===== src/Effect.antt =====
-- Code that changes a state and may raise. What was changed before a raise stays changed, so the
-- state comes back beside the error too.

use kenjutsu.Base.{◌≡◌, refl, ◌⊎◌, inl, inr}

pub data Result (E A : Type 0) : Type 0 where
  ok : A → Result E A
  err : E → Result E A

abbrev pub Exec : Type 0 → Type 0 → Type 0 → Type 0
Exec E S A = S → Result E A × S

module _ {E S A : Type 0} where
  unfoldable pub pure : A → Exec E S A
  pure a s = (ok a, s)

  unfoldable pub raise : E → Exec E S A
  raise e s = (err e, s)

module _ {E S A B : Type 0} where
  -- What follows a call, by how the call ended.
  abbrev pub and_then : (A → Exec E S B) → Result E A → Exec E S B
  and_then f (ok a) s = f a s
  and_then f (err e) s = (err e, s)

  infixl 5 ◌>>=◌ ◌>>◌
  unfoldable pub ◌>>=◌ : Exec E S A → (A → Exec E S B) → Exec E S B
  unfolding pure raise
  ◌>>=◌ m f s = let (r, s') = m s in and_then f r s'

  unfoldable pub ◌>>◌ : Exec E S A → Exec E S B → Exec E S B
  unfolding ◌>>=◌
  m >> k = m >>= λ _. k

-- To split on how a call ended, and keep the equation.
pub Result-cases :
    {E A : Type 0} (r : Result E A) → ((a : A) × (r ≡ ok a)) ⊎ ((e : E) × (r ≡ err e))
Result-cases (ok a) = inl (a, refl)
Result-cases (err e) = inr (e, refl)

-- A property of a call and what follows it, from each way in which the call can end.
pub bind_cases {ℓ} :
    {E S A B : Type 0} (P : Result E B × S → Type ℓ) (m : Exec E S A) (f : A → Exec E S B) (s : S)
    → ((e : E) → (m s).0 ≡ err e → P (err e, (m s).1))
    → ((a : A) → (m s).0 ≡ ok a → P (f a (m s).1))
    → P ((m >>= f) s)
unfolding ◌>>=◌
bind_cases P m f s failed returned = elim (Result-cases (m s).0) [
  | inl (a, h) ↦ rw h (returned a h)
  | inr (e, h) ↦ rw h (failed e h)
]

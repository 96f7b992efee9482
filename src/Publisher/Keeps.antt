-- ===== src/Publisher/Keeps.antt =====
-- That what is true of each request sent stays true, through the steps of a publication.
use kenjutsu.Base.{
  Bool, true, false, List, [], ◌∷◌, ◌++◌, ◌≡◌, sym, subst, All, All-append, if◌then◌else◌,
}
use kenjutsu.Effect.{Exec, ok, bind_cases, ◌>>=◌}
use kenjutsu.Publisher.Github.{Session, Request, Error}

pub Keeps-send :
    (Bound : Request → Type 0) (xs : List Request) {ys : List Request} (request : Request)
    → ys ≡ xs ++ request ∷ []
    → Bound request
    → All Bound xs
    → All Bound ys
Keeps-send Bound xs request e b h =
    subst (All Bound) (sym e) (All-append Bound xs (request ∷ []) h (b, tt))

module _ {W : Type 0} (Bound : Request → Type 0) where
  abbrev pub Keeps : Session W → Session W → Type 0
  Keeps s t = All Bound s.sent → All Bound t.sent

  pub Keeps-bind :
      {A B : Type 0} (m : Exec Error (Session W) A) (f : A → Exec Error (Session W) B)
      (s : Session W)
      → Keeps s (m s).1
      → ((a : A) → (m s).0 ≡ ok a → (t : Session W) → Keeps t (f a t).1)
      → Keeps s ((m >>= f) s).1
  Keeps-bind m f s k l = bind_cases (λ r. Keeps s r.1) m f s (λ e h. k) λ a h p. l a h (m s).1 (k p)

  pub Keeps-if :
      {A : Type 0} (b : Bool) (m n : Exec Error (Session W) A) (s : Session W)
      → Keeps s (m s).1
      → Keeps s (n s).1
      → Keeps s ((if b then m else n) s).1
  Keeps-if true m n s k l = k
  Keeps-if false m n s k l = l

-- ===== src/Prelude/Prog.antt =====
-- Programs over a state that succeed with a value or fail with an error, and keep the state in
-- both cases: the shape of a Go function with effects that returns `(value, error)`.
use mathlib.Core.Path.{◌≡◌, refl}
use mathlib.Core.Logic.{◌⊎◌, inl, inr}
use mathlib.Core.Bool.{Bool, true, false}
use mathlib.Core.Option.{Option, none, some}

pub data Outcome (E S A : Type 0) : Type 0 where
  ok : A → S → Outcome E S A
  err : E → S → Outcome E S A

abbrev pub Prog : Type 0 → Type 0 → Type 0 → Type 0
Prog E S A = S → Outcome E S A

module _ {E S : Type 0} where
  abbrev pub final : {A : Type 0} → Outcome E S A → S
  final (ok a s) = s
  final (err e s) = s

  abbrev pub pure : {A : Type 0} → A → Prog E S A
  pure a s = ok a s

  abbrev pub fail : {A : Type 0} → E → Prog E S A
  fail e s = err e s

  infixl 5 ◌>>=◌ ◌>>◌
  abbrev pub ◌>>=◌ : {A B : Type 0} → Prog E S A → (A → Prog E S B) → Prog E S B
  ◌>>=◌ m f s = elim (m s) [ ok a s' ↦ f a s' | err e s' ↦ err e s' ]

  abbrev pub ◌>>◌ : {B : Type 0} → Prog E S (Unit {0}) → Prog E S B → Prog E S B
  m >> k = m >>= λ _. k

  -- The early return of an error unless the test holds.
  abbrev pub require : Bool → E → Prog E S (Unit {0})
  require true e s = ok tt s
  require false e s = err e s

  -- The value, or the early return of an error.
  abbrev pub or_fail : {A : Type 0} → Option A → E → Prog E S A
  or_fail (some a) e s = ok a s
  or_fail none e s = err e s

  -- To split on what a program returns and keep the equation.
  pub Outcome-cases :
      {A : Type 0} (o : Outcome E S A)
      → ((a : A) × (s : S) × (o ≡ ok a s)) ⊎ ((e : E) × (s : S) × (o ≡ err e s))
  Outcome-cases (ok a s) = inl (a, s, refl)
  Outcome-cases (err e s) = inr (e, s, refl)

-- A program whose error the caller looks at, and goes on.
abbrev pub noted : {E F S A : Type 0} → Outcome E S A → Outcome F S (E ⊎ A)
noted (ok a s) = ok (inr a) s
noted (err e s) = ok (inl e) s

abbrev pub attempt : {E F S A : Type 0} → Prog E S A → Prog F S (E ⊎ A)
attempt m s = noted (m s)

-- The value, or another one in place of an error.
abbrev pub or_else : {E A : Type 0} → A → E ⊎ A → A
or_else a (inl e) = a
or_else a (inr b) = b

-- A program with another type of errors.
abbrev pub map_outcome : {E F S A : Type 0} → (E → F) → Outcome E S A → Outcome F S A
map_outcome f (ok a s) = ok a s
map_outcome f (err e s) = err (f e) s

abbrev pub map_err : {E F S A : Type 0} → (E → F) → Prog E S A → Prog F S A
map_err f m s = map_outcome f (m s)

-- ===== src/Common/Run.antt =====
-- Calls that change a state or panic, and results that are a value or an error.
use mathlib.Core.Path.{◌≡◌, refl}
use mathlib.Core.Logic.{◌⊎◌, inl, inr}
use mathlib.Core.Option.{Option, none, some}

-- A value, or the error that a Go function returns in its place.
pub data Result (E A : Type 0) : Type 0 where
  ok : A → Result E A
  err : E → Result E A

pub Result-cases :
    {E A : Type 0} (r : Result E A) → ((a : A) × (r ≡ ok a)) ⊎ ((e : E) × (r ≡ err e))
Result-cases (ok a) = inl (a, refl)
Result-cases (err e) = inr (e, refl)

-- The rest of a function, unless there is an error.
abbrev pub or_err : {E A B : Type 0} → Result E A → (A → Result E B) → Result E B
or_err (ok a) f = f a
or_err (err e) f = err e

-- A call that panics has no result.
abbrev pub Run : Type 0 → Type 0 → Type 0
Run W A = W → Option (W × A)

unfoldable pub return : {W A : Type 0} → A → Run W A
return a w = some (w, a)

abbrev pub panic : {W A : Type 0} → Run W A
panic w = none

abbrev pub continue : {W A B : Type 0} → (A → Run W B) → Option (W × A) → Option (W × B)
continue f none = none
continue f (some (w, a)) = f a w

infixl 5 ◌>>=◌
unfoldable pub ◌>>=◌ : {W A B : Type 0} → Run W A → (A → Run W B) → Run W B
(m >>= f) w = continue f (m w)

infixl 5 ◌>>◌
unfoldable pub ◌>>◌ : {W A B : Type 0} → Run W A → Run W B → Run W B
(m >> n) w = continue (λ _. n) (m w)

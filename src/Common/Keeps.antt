-- ===== src/Common/Keeps.antt =====
-- What calls keep: a predicate on the state that holds again when a call has returned.
use mathlib.Core.Path.{◌≡◌}
use mathlib.Core.Bool.{Bool, true, false}
use mathlib.Core.Option.{Option, none, some}
use grafana_operator.Common.Tests.{if◌then◌else◌}
use grafana_operator.Common.Run.{Run, return, continue, ◌>>=◌, ◌>>◌}

-- What a call leaves behind, if it returns.
abbrev pub Ensures : {W A : Type 0} → (W → Type 0) → Option (W × A) → Type 0
Ensures P none = Unit
Ensures P (some (w, a)) = P w

pub record Keeps {W A : Type 0} (P : W → Type 0) (m : Run W A) : Type 0 where
  pub at : (w : W) → P w → Ensures P (m w)

module _ {W A B : Type 0} {P : W → Type 0} where
  Ensures-continue :
      (f : A → Run W B) (r : Option (W × A))
      → Ensures P r
      → ((a : A) → Keeps P (f a))
      → Ensures P (continue f r)
  Ensures-continue f none h k = tt
  Ensures-continue f (some (w, a)) h k = (k a).at w h

  pub Keeps-bind :
      (m : Run W A) (f : A → Run W B) → Keeps P m → ((a : A) → Keeps P (f a)) → Keeps P (m >>= f)
  unfolding ◌>>=◌
  Keeps-bind m f km kf = record { at = λ w h. Ensures-continue f (m w) (km.at w h) kf }

  pub Keeps-then : (m : Run W A) (n : Run W B) → Keeps P m → Keeps P n → Keeps P (m >> n)
  unfolding ◌>>◌
  Keeps-then m n km kn = record {
    at = λ w h. Ensures-continue (λ _. n) (m w) (km.at w h) (λ _. kn);
  }

module _ {W A : Type 0} {P : W → Type 0} where
  pub Keeps-return : (a : A) → Keeps P (return {W = W} a)
  unfolding return
  Keeps-return a = record { at = λ w h. h }

  pub Keeps-if : (b : Bool) (m n : Run W A) → Keeps P m → Keeps P n → Keeps P (if b then m else n)
  Keeps-if true m n km kn = km
  Keeps-if false m n km kn = kn

  -- What holds of the state that a call returned.
  pub Keeps-result : (m : Run W A) (w w' : W) (a : A) → Keeps P m → m w ≡ some (w', a) → P w → P w'
  Keeps-result m w w' a k e h = let e' : Ensures P (some (w', a)) = rw e at (k.at w h) in e'

-- What a call leads to, from a state where `P` holds: a state where `Q` does, if it returns.
pub record Leads {W A : Type 0} (P Q : W → Type 0) (m : Run W A) : Type 0 where
  pub at : (w : W) → P w → Ensures Q (m w)

module _ {W A : Type 0} {P Q : W → Type 0} where
  Ensures-weaken : (r : Option (W × A)) → Ensures P r → ((w : W) → P w → Q w) → Ensures Q r
  Ensures-weaken none h k = tt
  Ensures-weaken (some (w, a)) h k = k w h

  pub Leads-weaken : (m : Run W A) → ((w : W) → P w → Q w) → Keeps P m → Leads P Q m
  Leads-weaken m k h = record { at = λ w p. Ensures-weaken (m w) (h.at w p) k }

  pub Leads-if :
      (b : Bool) (m n : Run W A) → Leads P Q m → Leads P Q n → Leads P Q (if b then m else n)
  Leads-if true m n km kn = km
  Leads-if false m n km kn = kn

  pub Leads-result :
      (m : Run W A) (w w' : W) (a : A) → Leads P Q m → m w ≡ some (w', a) → P w → Q w'
  Leads-result m w w' a k e h = let e' : Ensures Q (some (w', a)) = rw e at (k.at w h) in e'

module _ {W A B : Type 0} {P Q : W → Type 0} where
  Ensures-Leads :
      (f : A → Run W B) (r : Option (W × A))
      → Ensures P r
      → ((a : A) → Leads P Q (f a))
      → Ensures Q (continue f r)
  Ensures-Leads f none h k = tt
  Ensures-Leads f (some (w, a)) h k = (k a).at w h

  pub Leads-bind :
      (m : Run W A) (f : A → Run W B)
      → Keeps P m
      → ((a : A) → Leads P Q (f a))
      → Leads P Q (m >>= f)
  unfolding ◌>>=◌
  Leads-bind m f km kf = record { at = λ w h. Ensures-Leads f (m w) (km.at w h) kf }

  pub Leads-then : (m : Run W A) (n : Run W B) → Keeps P m → Leads P Q n → Leads P Q (m >> n)
  unfolding ◌>>◌
  Leads-then m n km kn = record { at = λ w h. Ensures-Leads (λ _. n) (m w) (km.at w h) (λ _. kn) }

  pub Leads-Keeps : (m : Run W A) (n : Run W B) → Leads P Q m → Keeps Q n → Leads P Q (m >> n)
  unfolding ◌>>◌
  Leads-Keeps m n km kn = record {
    at = λ w h. Ensures-continue (λ _. n) (m w) (km.at w h) (λ _. kn);
  }

pub ruleset keeps_rules = (Keeps-bind, Keeps-then, Keeps-return, Keeps-if)

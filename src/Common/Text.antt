-- ===== src/Common/Text.antt =====
-- Texts: the order of Go's `<` on strings, which is that of the UTF-8's bytes, and `strings.Join`.
use Prim.Native.Char.{code}
use Prim.Native.String.{String, ◌++◌}
use mathlib.Core.Path.{◌≡◌, refl, ap₂}
use mathlib.Core.Logic.{inl, inr}
use mathlib.Core.Bool.{Bool, true, false}
use mathlib.Core.List.{List}
use native.Mathlib.Omega.{arith}
use text.Mathlib.TextEquality.{Char-path, eq_iff}
use text.Mathlib.Text.{◌==◌}
use mathlib.Core.HLevel.{hedberg}
use grafana_operator.Common.Tests.{ltb, if◌then◌else◌, Bool-cases}

infixr 65 ◌⧺◌
abbrev pub ◌⧺◌ : String → String → String
s ⧺ t = s ++ t

-- `s <= t`
unfoldable pub text_le : String → String → Bool
text_le String.[] t = true
text_le (String.◌∷◌ c s) String.[] = false
text_le (String.◌∷◌ c s) (String.◌∷◌ d t) =
    if ltb (code c) (code d) then true else if ltb (code d) (code c) then false else text_le s t

pub text_le_refl : (s : String) → text_le s s ≡ true
unfolding text_le
text_le_refl String.[] = refl
text_le_refl (String.◌∷◌ c s) = ground (arith, text_le_refl s)

pub text_le_total : (s t : String) → text_le s t ≡ false → text_le t s ≡ true
unfolding text_le
text_le_total String.[] t h = ground arith
text_le_total (String.◌∷◌ c s) String.[] h = refl
text_le_total (String.◌∷◌ c s) (String.◌∷◌ d t) h = ground (arith, text_le_total s t)

pub text_le_trans : (s t u : String) → text_le s t ≡ true → text_le t u ≡ true → text_le s u ≡ true
unfolding text_le
text_le_trans String.[] t u h k = refl
text_le_trans (String.◌∷◌ c s) String.[] u h k = ground arith
text_le_trans (String.◌∷◌ c s) (String.◌∷◌ d t) String.[] h k = ground arith
text_le_trans (String.◌∷◌ c s) (String.◌∷◌ d t) (String.◌∷◌ e u) h k =
    ground (arith, text_le_trans s t u)

pub text_le_antisymm : (s t : String) → text_le s t ≡ true → text_le t s ≡ true → s ≡ t
unfolding text_le
text_le_antisymm String.[] String.[] h k = refl
text_le_antisymm String.[] (String.◌∷◌ d t) h k = ground arith
text_le_antisymm (String.◌∷◌ c s) String.[] h k = ground arith
text_le_antisymm (String.◌∷◌ c s) (String.◌∷◌ d t) h k =
    ap₂ String.◌∷◌ (Char-path c d (ground arith))
      (text_le_antisymm s t (ground arith) (ground arith))

-- `strings.Join(parts, sep)`
unfoldable pub join : List String → String → String
join List.[] sep = ""
join (List.◌∷◌ x List.[]) sep = x
join (List.◌∷◌ x (List.◌∷◌ y r)) sep = x ++ (sep ++ join (List.◌∷◌ y r) sep)

-- The concatenation of all texts of a list, as a `strings.Builder` collects them.
unfoldable pub concat : List String → String
concat List.[] = ""
concat (List.◌∷◌ x r) = x ++ concat r

pub String-discrete : Discrete String
String-discrete s t = elim (Bool-cases (s == t)) [
  | inl e ↦ yes ((eq_iff s t).0 e)
  | inr e ↦ no (λ p. ground (arith, eq_iff s t))
]

pub String-set : IsSet String
String-set = hedberg String-discrete

-- ===== src/Common/Sort.antt =====
-- `sort.Strings`: the ascending order of a list of texts. The order is total and antisymmetric, so
-- the result is the same whatever the order in which the texts come.
use mathlib.Core.Path.{◌≡◌, refl, ◌∙◌}
use mathlib.Core.Logic.{inl, inr, ∥∥₁_elim}
use mathlib.Core.Bool.{true}
use mathlib.Core.List.{List, [], ◌∷◌, Perm, Permᴰ}
use native.Mathlib.Omega.{arith}
use Prim.Native.String.{String}
use grafana_operator.Common.Tests.{if◌then◌else◌, Bool-cases}
use grafana_operator.Common.Text.{
  text_le, text_le_total, text_le_trans, text_le_antisymm, String-set,
}

unfoldable pub insert_sorted : String → List String → List String
insert_sorted x [] = x ∷ []
insert_sorted x (y ∷ ys) = if text_le x y then x ∷ y ∷ ys else y ∷ insert_sorted x ys

unfoldable pub sort_strings : List String → List String
unfolding insert_sorted
sort_strings [] = []
sort_strings (x ∷ xs) = insert_sorted x (sort_strings xs)

-- Each text is at most the one behind it.
abbrev pub IsSorted : List String → Type 0
IsSorted [] = Unit
IsSorted (x ∷ []) = Unit
IsSorted (x ∷ y ∷ r) = (text_le x y ≡ true) × IsSorted (y ∷ r)

insert_sorted-IsSorted :
    (x : String) (ys : List String) → IsSorted ys → IsSorted (insert_sorted x ys)
unfolding insert_sorted
insert_sorted-IsSorted x [] h = tt
insert_sorted-IsSorted x (y ∷ []) h = elim (Bool-cases (text_le x y)) [
  | inl e ↦ rw e (e, tt)
  | inr e ↦ rw e (text_le_total x y e, tt)
]
insert_sorted-IsSorted x (y ∷ z ∷ r) h = elim (Bool-cases (text_le x y)) [
  | inl e ↦ rw e (e, h)
  | inr e ↦
      let rest = insert_sorted-IsSorted x (z ∷ r) h.1 in
      elim (Bool-cases (text_le x z)) [
        | inl k ↦ rw (e, k) (text_le_total x y e, (k, h.1))
        | inr k ↦ rw (e, k) (h.0, (rw k at rest))
      ]
]

pub sort_strings-IsSorted : (xs : List String) → IsSorted (sort_strings xs)
unfolding sort_strings
sort_strings-IsSorted [] = tt
sort_strings-IsSorted (x ∷ xs) =
    insert_sorted-IsSorted x (sort_strings xs) (sort_strings-IsSorted xs)

insert_sorted_comm :
    (x y : String) (l : List String)
    → insert_sorted x (insert_sorted y l) ≡ insert_sorted y (insert_sorted x l)
unfolding insert_sorted
insert_sorted_comm x y [] =
    ground (arith, text_le_total x y, text_le_total y x, text_le_antisymm x y)
insert_sorted_comm x y (z ∷ l) = ground (
  arith,
  insert_sorted_comm x y l,
  text_le_total x y,
  text_le_total y x,
  text_le_antisymm x y,
  text_le_trans x y z,
  text_le_trans y x z,
  text_le_total x z,
  text_le_total y z,
)

sort_permᴰ : {xs ys : List String} → Permᴰ xs ys → sort_strings xs ≡ sort_strings ys
unfolding sort_strings
sort_permᴰ Permᴰ.nil = refl
sort_permᴰ (Permᴰ.cons p q) = cc (p, sort_permᴰ q)
sort_permᴰ (Permᴰ.swap {a} {b} {l = l} p q) = cc (p, q, insert_sorted_comm a b (sort_strings l))
sort_permᴰ (Permᴰ.trans p q) = sort_permᴰ p ∙ sort_permᴰ q

pub sort_strings-perm : {xs ys : List String} → Perm xs ys → sort_strings xs ≡ sort_strings ys
sort_strings-perm p = ∥∥₁_elim p (texts_set _ _) sort_permᴰ
  where
    texts_set : IsSet (List String)
    texts_set = hlevel String-set

-- ===== src/Common/Lists.antt =====
-- Lists measured and indexed by native numbers, under the library's names, and the removal of an
-- element by putting the last one in its place.
use Prim.Native.Nat.{ℕ, zero, suc}
use mathlib.Core.Path.{◌≡◌, refl}
use mathlib.Core.List.{List, [], ◌∷◌, Perm}
use mathlib.Core.List.Perm
use mathlib.Core.Option.{Option, none, some}

module _ {ℓ} {A : Type ℓ} where
  abbrev pub length : List A → ℕ
  length [] = 0
  length (x ∷ xs) = suc (length xs)

  abbrev pub get_elem? : List A → ℕ → Option A
  get_elem? [] i = none
  get_elem? (x ∷ xs) zero = some x
  get_elem? (x ∷ xs) (suc i) = get_elem? xs i

  -- A write out of bounds changes nothing.
  abbrev pub set : List A → ℕ → A → List A
  set [] i v = []
  set (x ∷ xs) zero v = v ∷ xs
  set (x ∷ xs) (suc i) v = x ∷ set xs i v

  -- `list[len(list)-1]` of the list `x ∷ xs`
  abbrev pub last : A → List A → A
  last x [] = x
  last x (y ∷ ys) = last y ys

  -- `list[:len(list)-1]` of the list `x ∷ xs`
  abbrev pub drop_last_elem : A → List A → List A
  drop_last_elem x [] = []
  drop_last_elem x (y ∷ ys) = x ∷ drop_last_elem y ys

  abbrev pub drop_end : List A → List A
  drop_end [] = []
  drop_end (x ∷ xs) = drop_last_elem x xs

  -- `list[i] = list[len(list)-1]; list = list[:len(list)-1]`
  unfoldable pub swap_remove : List A → ℕ → List A
  swap_remove [] i = []
  swap_remove (x ∷ xs) i = drop_end (set (x ∷ xs) i (last x xs))

  last-perm : (x : A) (xs : List A) → Perm (last x xs ∷ drop_last_elem x xs) (x ∷ xs)
  last-perm x [] = Perm.refl (x ∷ [])
  last-perm x (y ∷ ys) =
      Perm.trans (Perm.swap x (last y ys) (drop_last_elem y ys)) (Perm.cons x (last-perm y ys))

  drop_last_elem-set :
      (y z : A) (l : List A) (i : ℕ) (v : A)
      → drop_last_elem y (set (z ∷ l) i v) ≡ y ∷ drop_end (set (z ∷ l) i v)
  drop_last_elem-set y z l zero v = refl
  drop_last_elem-set y z l (suc i) v = refl

module _ {ℓ} {A : Type ℓ} where
  -- The element that was at the index, and what is left, are the list.
  pub swap_remove-perm :
      (l : List A) (i : ℕ) (x : A) → get_elem? l i ≡ some x → Perm (x ∷ swap_remove l i) l
  unfolding swap_remove
  swap_remove-perm [] i x h = absurd cc
  swap_remove-perm (y ∷ []) zero x h = Perm.cons' (cc) (Perm.refl [])
  swap_remove-perm (y ∷ []) (suc i) x h = absurd cc
  swap_remove-perm (y ∷ z ∷ l) zero x h = Perm.cons' (cc) (last-perm z l)
  swap_remove-perm (y ∷ z ∷ l) (suc i) x h = rw (drop_last_elem-set y z l i (last z l)) (
      Perm.trans (Perm.swap y x (swap_remove (z ∷ l) i))
        (Perm.cons y (swap_remove-perm (z ∷ l) i x h)))

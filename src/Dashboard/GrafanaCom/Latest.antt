-- ===== src/Dashboard/GrafanaCom/Latest.antt =====
-- The revision that is taken as the latest one is the greatest, whichever way it is found.
use mathlib.Core.Path.{subst⁻¹}
use grafana_operator.Common.{
  String, ◌==◌, ◌+◌, ◌≤◌, ◌≡◌, refl, sym, ap, ◌⊎◌, inl, inr, true, false, ◌&&◌, some, List, [], ◌∷◌,
  ℤ, pos, negsuc, pos_part, neg_part, last, ltb_ℤ, if◌then◌else◌, arith, Bool-cases,
}
use grafana_operator.Dashboard.GrafanaCom.{
  DashboardRevisionItem, ListDashboardRevisionsResponse, max_revision, get_maximum_revision,
}

infix 50 ◌≤ℤ◌
abbrev pub ◌≤ℤ◌ : ℤ → ℤ → Type 0
a ≤ℤ b = pos_part a + neg_part b ≤ pos_part b + neg_part a

-- The revisions rise from `m` on.
abbrev pub IsAscending : ℤ → List DashboardRevisionItem → Type 0
IsAscending m [] = Unit
IsAscending m (item ∷ items) = (m ≤ℤ item.revision) × IsAscending item.revision items

-- No revision is greater than `m`.
abbrev pub IsBound : ℤ → List DashboardRevisionItem → Type 0
IsBound m [] = Unit
IsBound m (item ∷ items) = (item.revision ≤ℤ m) × IsBound m items

-- The first revision is not negative, and is the greatest.
abbrev pub HasGreatestFirst : List DashboardRevisionItem → Type 0
HasGreatestFirst [] = Unit
HasGreatestFirst (item ∷ items) = (pos 0 ≤ℤ item.revision) × IsBound item.revision items

-- `m` is the revision of an item.
abbrev pub IsAmong : ℤ → List DashboardRevisionItem → Type 0
IsAmong m [] = ⊥
IsAmong m (item ∷ items) = (m ≡ item.revision) ⊎ IsAmong m items

-- The response keeps its promise: revisions that are said to rise do so from 0 on, and of those
-- that are said to fall the first is the greatest.
abbrev pub IsOrdered : ListDashboardRevisionsResponse → Type 0
IsOrdered resp =
    if resp.order_by == "revision" && resp.direction == "asc"
    then IsAscending (pos 0) resp.items
    else if resp.order_by == "revision" && resp.direction == "desc"
    then HasGreatestFirst resp.items
    else Unit

greater : (m r : ℤ) → m ≤ℤ r → (if ltb_ℤ m r then r else m) ≡ r
greater (pos m) (pos r) h = ground arith
greater (pos m) (negsuc r) h = ground arith
greater (negsuc m) (pos r) h = ground arith
greater (negsuc m) (negsuc r) h = ground arith

not_greater : (m r : ℤ) → r ≤ℤ m → (if ltb_ℤ m r then r else m) ≡ m
not_greater (pos m) (pos r) h = ground arith
not_greater (pos m) (negsuc r) h = ground arith
not_greater (negsuc m) (pos r) h = ground arith
not_greater (negsuc m) (negsuc r) h = ground arith

max_revision-last :
    (m : ℤ) (item : DashboardRevisionItem) (items : List DashboardRevisionItem)
    → IsAscending m (item ∷ items)
    → max_revision m (item ∷ items) ≡ (last item items).revision
unfolding max_revision
max_revision-last m item [] h = greater m item.revision h.0
max_revision-last m item (next ∷ items) h =
    rw (greater m item.revision h.0) (max_revision-last item.revision next items h.1)

max_revision-bound :
    (m : ℤ) (items : List DashboardRevisionItem) → IsBound m items → max_revision m items ≡ m
unfolding max_revision
max_revision-bound m [] h = refl
max_revision-bound m (item ∷ items) h =
    rw (not_greater m item.revision h.0) (max_revision-bound m items h.1)

-- The loop gives an upper bound, which is the start or a revision.
max_revision-start : (m : ℤ) (items : List DashboardRevisionItem) → m ≤ℤ max_revision m items
unfolding max_revision
max_revision-start m [] = omega arith
max_revision-start m (item ∷ items) = elim (Bool-cases (ltb_ℤ m item.revision)) [
  | inl e ↦ rw e (ground (arith, max_revision-start item.revision items, e))
  | inr e ↦ rw e (max_revision-start m items)
]

max_revision-greater :
    (m : ℤ) (item : DashboardRevisionItem) (items : List DashboardRevisionItem)
    → ltb_ℤ m item.revision ≡ true
    → max_revision m (item ∷ items) ≡ max_revision item.revision items
unfolding max_revision
max_revision-greater m item items e = rw e refl

max_revision-not_greater :
    (m : ℤ) (item : DashboardRevisionItem) (items : List DashboardRevisionItem)
    → ltb_ℤ m item.revision ≡ false
    → max_revision m (item ∷ items) ≡ max_revision m items
unfolding max_revision
max_revision-not_greater m item items e = rw e refl

max_revision-IsBound :
    (m : ℤ) (items : List DashboardRevisionItem) → IsBound (max_revision m items) items
max_revision-IsBound m [] = tt
max_revision-IsBound m (item ∷ items) = elim (Bool-cases (ltb_ℤ m item.revision)) [
  | inl e ↦
      subst⁻¹ (λ x. IsBound x (item ∷ items)) (max_revision-greater m item items e)
        (max_revision-start item.revision items, max_revision-IsBound item.revision items)
  | inr e ↦
      subst⁻¹ (λ x. IsBound x (item ∷ items)) (max_revision-not_greater m item items e)
        (ground (arith, max_revision-start m items, e), max_revision-IsBound m items)
]

max_revision-IsAmong :
    (m : ℤ) (items : List DashboardRevisionItem)
    → (max_revision m items ≡ m) ⊎ IsAmong (max_revision m items) items
max_revision-IsAmong m [] = inl (unfold max_revision in refl)
max_revision-IsAmong m (item ∷ items) = elim (Bool-cases (ltb_ℤ m item.revision)) [
  | inl e ↦
      subst⁻¹ (λ x. (x ≡ m) ⊎ IsAmong x (item ∷ items)) (max_revision-greater m item items e)
        (inr (max_revision-IsAmong item.revision items))
  | inr e ↦
      subst⁻¹ (λ x. (x ≡ m) ⊎ IsAmong x (item ∷ items)) (max_revision-not_greater m item items e)
        (elim (max_revision-IsAmong m items) [ inl f ↦ inl f | inr f ↦ inr (inr f) ])
]

-- The branch that is taken gives what the loop would.
get_maximum_revision-loop :
    (order direction : String) (item : DashboardRevisionItem) (items : List DashboardRevisionItem)
    → IsOrdered (record { items = item ∷ items; order_by = order; direction = direction })
    → get_maximum_revision
        (record { items = item ∷ items; order_by = order; direction = direction })
      ≡ some (max_revision (pos 0) (item ∷ items))
unfolding get_maximum_revision
get_maximum_revision-loop order direction item items h =
    elim (Bool-cases (order == "revision" && direction == "asc")) [
      | inl asc ↦ rw asc (ap some (sym (max_revision-last (pos 0) item items (ordered_asc asc h))))
      | inr other ↦ elim (Bool-cases (order == "revision" && direction == "desc")) [
        | inl desc ↦ rw (other, desc) (ap some (sym (first_is_max (ordered_desc other desc h))))
        | inr unordered ↦ rw (other, unordered) refl
      ]
    ]
  where
    ordered_asc :
        (order == "revision" && direction == "asc") ≡ true
        → IsOrdered (record { items = item ∷ items; order_by = order; direction = direction })
        → IsAscending (pos 0) (item ∷ items)
    ordered_asc e k = rw e at k

    ordered_desc :
        (order == "revision" && direction == "asc") ≡ false
        → (order == "revision" && direction == "desc") ≡ true
        → IsOrdered (record { items = item ∷ items; order_by = order; direction = direction })
        → HasGreatestFirst (item ∷ items)
    ordered_desc e f k = rw (e, f) at k

    first_is_max :
        HasGreatestFirst (item ∷ items) → max_revision (pos 0) (item ∷ items) ≡ item.revision
    first_is_max (a, b) =
        unfold max_revision in
        rw (greater (pos 0) item.revision a) (max_revision-bound item.revision items b)

-- If a response has items and keeps the order that it promises, then a revision is found without a
-- panic, no item has a greater one, and it is 0 or the revision of an item.
pub get_maximum_revision-IsBound :
    (order direction : String) (item : DashboardRevisionItem) (items : List DashboardRevisionItem)
    → IsOrdered (record { items = item ∷ items; order_by = order; direction = direction })
    → (m : ℤ) × (get_maximum_revision
          (record { items = item ∷ items; order_by = order; direction = direction })
        ≡ some m)
      × IsBound m (item ∷ items)
      × ((m ≡ pos 0) ⊎ IsAmong m (item ∷ items))
get_maximum_revision-IsBound order direction item items h = (
  max_revision (pos 0) (item ∷ items),
  get_maximum_revision-loop order direction item items h,
  max_revision-IsBound (pos 0) (item ∷ items),
  max_revision-IsAmong (pos 0) (item ∷ items),
)

-- ===== src/Cluster/Readiness/Laws.antt =====
-- When a route and a deployment are ready.
use grafana_operator.Common.{
  ◌==◌, eq_iff, ◌≡◌, ◌≢◌, refl, ◌↔◌, ◌⊎◌, Bool, true, false, some, List, [], ◌∷◌, eqb_ℤ, eqb_ℤ_iff,
  arith, Bool-cases, inl, inr,
}
use grafana_operator.Cluster.Readiness.{
  Condition, Deployment, Check, checked, failure, is_stalled, check_conditions, is_deployment_ready,
  condition_status_success,
}

abbrev pub is_ready : Check → Bool
is_ready (checked b) = b
is_ready (failure _) = false

-- No condition reports a failure of replicas or a stalled progress.
abbrev pub AreFine : List Condition → Type 0
AreFine [] = Unit
AreFine (c ∷ l) =
    (c.condition_type ≢ "ReplicaFailure")
    × ((c.condition_type ≢ "Progressing") ⊎ (c.status ≡ condition_status_success))
    × AreFine l

not_stalled :
    (c : Condition)
    → is_stalled c ≡ false
    → (c.condition_type ≢ "Progressing") ⊎ (c.status ≡ condition_status_success)
not_stalled c h = elim (Bool-cases (c.status == condition_status_success)) [
  | inl e ↦ inr ((eq_iff c.status condition_status_success).0 e)
  | inr e ↦ inl (ground (arith, eq_iff c.condition_type "Progressing"))
]

check_conditions-fine :
    (l : List Condition) (b : Bool)
    → is_ready (check_conditions l (checked b)) ≡ true
    → AreFine l × (b ≡ true)
unfolding check_conditions
check_conditions-fine [] b h = (tt, h)
check_conditions-fine (c ∷ l) b h =
    let rest : is_ready (check_conditions l (checked b)) ≡ true = ground arith in
    let (fine, e) = check_conditions-fine l b rest in
    (
      (
        ground (arith, eq_iff c.condition_type "ReplicaFailure"),
        not_stalled c (ground arith),
        fine,
      ),
      e,
    )

check_conditions-ready :
    (l : List Condition) → AreFine l → check_conditions l (checked true) ≡ checked true
unfolding check_conditions
check_conditions-ready [] h = refl
check_conditions-ready (c ∷ l) h = elim h.1 [
  | inl e ↦ ground (
    arith,
    check_conditions-ready l h.2,
    eq_iff c.condition_type "ReplicaFailure",
    eq_iff c.condition_type "Progressing",
  )
  | inr e ↦ ground (
    arith,
    check_conditions-ready l h.2,
    eq_iff c.condition_type "ReplicaFailure",
    eq_iff c.status condition_status_success,
  )
]

-- A deployment is ready exactly when no condition reports a failure of replicas or a stalled
-- progress and as many replicas are ready as there are.
pub is_deployment_ready_iff :
    (d : Deployment)
    → (is_deployment_ready (some d) ≡ checked true)
      ↔ (AreFine d.conditions × (d.ready_replicas ≡ d.replicas))
unfolding is_deployment_ready
is_deployment_ready_iff d = (
  λ h.
      let (fine, e) =
        check_conditions-fine d.conditions (eqb_ℤ d.ready_replicas d.replicas) (rw h refl) in
      (fine, (eqb_ℤ_iff d.ready_replicas d.replicas).0 e),
  λ h. rw ((eqb_ℤ_iff d.ready_replicas d.replicas).1 h.1) (check_conditions-ready d.conditions h.0),
)

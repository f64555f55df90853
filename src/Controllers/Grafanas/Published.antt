-- ===== src/Controllers/Grafanas/Published.antt =====
-- What a reconciliation of Grafana sends to the controller of dashboards.
use grafana_operator.Common.{
  String, ◌≡◌, ◌≢◌, ◌⊎◌, refl, ap, Bool, true, false, Option, none, some, List, [], ◌∷◌, ◌++◌, ℤ,
  pos, negsuc, ltb_ℤ, inl, inr, arith,
}
use grafana_operator.Common.Run.{Result, ok, err, Run, return}
use grafana_operator.Common.Keeps.{
  Ensures, Keeps, keeps_rules, Leads, Leads-weaken, Leads-if, Leads-result, Leads-bind, Leads-then,
  Leads-Keeps,
}
use grafana_operator.Config.ControllerConfig.{ControllerConfig}
use grafana_operator.Cluster.State.{ClusterState}
use grafana_operator.Api.Users.{Accounts}
use grafana_operator.Controllers.State.{ControllerState}
use grafana_operator.Controllers.Dashboards.Reconcile.{Reconciled, Request}
use grafana_operator.Controllers.Grafanas.Types.{
  ClientSpec, Outside, GrafanasState, Step, get, or_panic, change_config, publish, record_warning,
  moved, outside, reached, inside,
}
use grafana_operator.Controllers.Grafanas.AdminUrl.Nonempty.{get_grafana_admin_url-nonempty}
use grafana_operator.Controllers.Grafanas.Reconcile.{
  not_ready, client_timeout, timeout_of, Cr, stop_dashboards, if_updated, report_to, manage_error,
  ready_state, publish_url, publish_if_updated, succeed_with, manage_success, after_libraries,
  after_actions, after_read, reconcile_instance, reconcile_grafana, update_if,
}

-- A state that the controller of dashboards can use: it is told to stop, or it gets an URL and a timeout
-- that is not negative.
abbrev pub IsFit : {S : Type 0} → ControllerState S → Type 0
IsFit c =
    (c.grafana_ready ≡ false) ⊎ ((c.admin_url ≢ "") × (ltb_ℤ c.client_timeout (pos 0) ≡ false))

timeout_of-at_least_zero : (seconds : Option ℤ) → ltb_ℤ (timeout_of seconds) (pos 0) ≡ false
timeout_of-at_least_zero none = refl
timeout_of-at_least_zero (some (pos n)) = ground arith
timeout_of-at_least_zero (some (negsuc n)) = ground arith

client_timeout-at_least_zero :
    (client : Option ClientSpec) → ltb_ℤ (client_timeout client) (pos 0) ≡ false
unfolding client_timeout
client_timeout-at_least_zero none = refl
client_timeout-at_least_zero (some client) = timeout_of-at_least_zero client.timeout_seconds

module _ (o : Outside) (l : List (ControllerState o.LabelSelector)) where
  abbrev pub Before : GrafanasState o → Type 0
  Before s = s.published ≡ l

  abbrev pub After : GrafanasState o → Type 0
  After s =
      (s.published ≡ l)
      ⊎ ((c : ControllerState o.LabelSelector) × (s.published ≡ l ++ c ∷ []) × IsFit c)

  Ensures-moved :
      {A : Type 0} (P : List (ControllerState o.LabelSelector) → Type 0) (s : GrafanasState o)
      (r : Option (Accounts o.site × A))
      → P s.published
      → Ensures (λ t. P t.published) (moved o s r)
  Ensures-moved P s none h = tt
  Ensures-moved P s (some (accounts, a)) h = h

  outside-Keeps : {A : Type 0} (f : Run (Accounts o.site) A) → Keeps Before (outside o f)
  unfolding outside
  outside-Keeps f = record { at = λ s h. Ensures-moved (λ p. p ≡ l) s (f s.accounts) h }

  outside-After : {A : Type 0} (f : Run (Accounts o.site) A) → Keeps After (outside o f)
  unfolding outside
  outside-After f = record {
    at = λ s h.
        Ensures-moved
          (λ p. (p ≡ l) ⊎ ((c : ControllerState o.LabelSelector) × (p ≡ l ++ c ∷ []) × IsFit c)) s
          (f s.accounts) h;
  }

  Ensures-reached :
      {A : Type 0} (s : GrafanasState o) (r : Option ((ControllerConfig × Accounts o.site) × A))
      → Before s
      → Ensures Before (reached o s r)
  Ensures-reached s none h = tt
  Ensures-reached s (some ((config, accounts), a)) h = h

  inside-Keeps :
      {A : Type 0} (f : Run (ControllerConfig × Accounts o.site) A) → Keeps Before (inside o f)
  unfolding inside
  inside-Keeps f = record { at = λ s h. Ensures-reached s (f (s.config, s.accounts)) h }

  get-Keeps : Keeps Before (get o)
  unfolding get
  get-Keeps = record { at = λ s h. h }

  or_panic-Keeps : {A : Type 0} (a : Option A) → Keeps Before (or_panic o a)
  unfolding or_panic
  or_panic-Keeps none = record { at = λ s h. tt }
  or_panic-Keeps (some a) = record { at = λ s h. h }

  change_config-Keeps : (f : ControllerConfig → ControllerConfig) → Keeps Before (change_config o f)
  unfolding change_config
  change_config-Keeps f = record { at = λ s h. h }

  record_warning-Keeps : (message : String) → Keeps Before (record_warning o message)
  unfolding record_warning
  record_warning-Keeps message = record { at = λ s h. h }

  publish-Leads : (c : ControllerState o.LabelSelector) → IsFit c → Leads Before After (publish o c)
  unfolding publish
  publish-Leads c fit = record { at = λ s h. inr (c, ap (λ p. p ++ c ∷ []) h, fit) }

  return-Leads : {A : Type 0} (a : A) → Leads Before After (return a)
  return-Leads a = Leads-weaken (return a) (λ s h. inl h) (search keeps_rules)

  return-After : {A : Type 0} (a : A) → Keeps After (return a)
  return-After a = search keeps_rules

  stop_dashboards-Leads : Leads Before After (stop_dashboards o)
  stop_dashboards-Leads =
      Leads-then _ _ (change_config-Keeps _)
        (Leads-Keeps _ _ (publish-Leads not_ready (inl refl)) (return-After _))

  update_if-Keeps : (differs : Bool) (cr : Cr o) → Keeps Before (update_if o differs cr)
  update_if-Keeps false cr = search keeps_rules
  update_if-Keeps true cr = outside-Keeps _

  if_updated-Leads :
      (e : Option o.Error) (next : Step o Reconciled)
      → Leads Before After next
      → Leads Before After (if_updated o e next)
  if_updated-Leads none next k = k
  if_updated-Leads (some e) next k = return-Leads _

  report_to-Leads : (cr : Cr o) (r : Result o.Error (Cr o)) → Leads Before After (report_to o cr r)
  report_to-Leads cr (err e) = return-Leads _
  report_to-Leads cr (ok instance) =
      Leads-bind _ _ (update_if-Keeps _ cr) (λ e. if_updated-Leads e _ stop_dashboards-Leads)

  manage_error-Leads :
      (cr : Cr o) (e : o.Error) (request : Request)
      → Leads Before After (manage_error o cr e request)
  unfolding manage_error
  manage_error-Leads cr e request =
      Leads-then _ _ (record_warning-Keeps _) (Leads-bind _ _ get-Keeps (λ s. report_to-Leads _ _))

  publish_url-Leads :
      (cr : Cr o) (request : Request) (url : Option String)
      → ((u : String) → url ≡ some u → u ≢ "")
      → Leads Before After (publish_url o cr request url)
  publish_url-Leads cr request none h = manage_error-Leads cr _ request
  publish_url-Leads cr request (some url) h =
      Leads-Keeps _ _
        (publish-Leads (ready_state o cr url)
          (inr (h url refl, client_timeout-at_least_zero cr.client)))
        (search (keeps_rules, outside-After))

  publish_if_updated-Leads :
      (cr : Cr o) (state : ClusterState o.kubernetes) (request : Request) (e : Option o.Error)
      → Leads Before After (publish_if_updated o cr state request e)
  publish_if_updated-Leads cr state request (some e) = manage_error-Leads cr e request
  publish_if_updated-Leads cr state request none =
      publish_url-Leads cr request _ (get_grafana_admin_url-nonempty o.kubernetes cr state)

  succeed_with-Leads :
      (cr : Cr o) (state : ClusterState o.kubernetes) (request : Request)
      (r : Result o.Error (Cr o))
      → Leads Before After (succeed_with o cr state request r)
  succeed_with-Leads cr state request (err e) = manage_error-Leads cr e request
  succeed_with-Leads cr state request (ok instance) =
      Leads-bind _ _ (update_if-Keeps _ cr) (publish_if_updated-Leads cr state request)

  manage_success-Leads :
      (cr : Cr o) (state : ClusterState o.kubernetes) (request : Request)
      → Leads Before After (manage_success o cr state request)
  unfolding manage_success
  manage_success-Leads cr state request =
      Leads-bind _ _ get-Keeps
        λ s. Leads-bind _ _ (or_panic-Keeps _) λ synced. succeed_with-Leads _ state request _

  after_libraries-Leads :
      (cr : Cr o) (state : ClusterState o.kubernetes) (request : Request) (e : Option o.Error)
      → Leads Before After (after_libraries o cr state request e)
  after_libraries-Leads cr state request (some e) = manage_error-Leads cr e request
  after_libraries-Leads cr state request none = manage_success-Leads cr state request

  after_actions-Leads :
      (state : ClusterState o.kubernetes) (request : Request) (r : Cr o × Option o.Error)
      → Leads Before After (after_actions o state request r)
  after_actions-Leads state request (cr, some e) = manage_error-Leads cr e request
  after_actions-Leads state request (cr, none) =
      Leads-bind _ _ get-Keeps
        λ s. Leads-bind _ _ (outside-Keeps _) (after_libraries-Leads cr state request)

  after_read-Leads :
      (cr : Cr o) (request : Request) (r : Result o.Error (ClusterState o.kubernetes))
      → Leads Before After (after_read o cr request r)
  after_read-Leads cr request (err e) = manage_error-Leads cr e request
  after_read-Leads cr request (ok state) =
      Leads-bind _ _ (inside-Keeps _) (after_actions-Leads state request)

  reconcile_instance-Leads :
      (request : Request) (s : GrafanasState o) (r : Result o.Error (Cr o))
      → Leads Before After (reconcile_instance o request s r)
  reconcile_instance-Leads request s (err e) =
      Leads-if _ _ _
        (Leads-then _ _ (change_config-Keeps _)
          (Leads-Keeps _ _ (publish-Leads not_ready (inl refl)) (return-After _)))
        (return-Leads _)
  reconcile_instance-Leads request s (ok cr) =
      Leads-bind _ _ (or_panic-Keeps _) (after_read-Leads cr request)

  -- A reconciliation that starts with the states `l` published.
  reconcile_grafana-Leads : (request : Request) → Leads Before After (reconcile_grafana o request)
  unfolding reconcile_grafana
  reconcile_grafana-Leads request =
      Leads-bind _ _ get-Keeps λ s. reconcile_instance-Leads request s _

-- A reconciliation of Grafana that returns has sent the controller of dashboards at most one state, after
-- those that were sent before. It either tells that controller to stop, or has an URL that is not
-- empty and a timeout that is not negative, whatever the resource asks for.
pub reconcile_grafana-IsFit :
    (o : Outside) (request : Request) (s s' : GrafanasState o) (result : Reconciled)
    → reconcile_grafana o request s ≡ some (s', result)
    → (s'.published ≡ s.published)
      ⊎ ((c : ControllerState o.LabelSelector) × (s'.published ≡ s.published ++ c ∷ []) × IsFit c)
reconcile_grafana-IsFit o request s s' result e =
    Leads-result (reconcile_grafana o request) s s' result
      (reconcile_grafana-Leads o s.published request) e refl

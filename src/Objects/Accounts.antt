-- ===== src/Objects/Accounts.antt =====
-- The service account and the administrator's secret: controllers/model/grafanaServiceAccount.go and
-- controllers/model/adminUserSecret.go.
pub mod Laws
use grafana_operator.Common.{
  String, ◌==◌, Bool, true, false, ◌||◌, Option, none, some, List, [], ◌∷◌, ◌++◌, Assoc, lookup,
  insert, or_other, if◌then◌else◌,
}
use grafana_operator.Cluster.Service.{merge_annotations}
use grafana_operator.Ini.Types.{GrafanaConfigSecurity}
use grafana_operator.Objects.Resource.{Kubernetes, GrafanaServiceAccount, Grafana}

-- A service account of the cluster; a reference to a secret is its name.
pub record ServiceAccount : Type 0 where
  pub name : String
  pub namespace : String
  pub labels : Option (Assoc String)
  pub annotations : Option (Assoc String)
  pub image_pull_secrets : List String

abbrev pub is_among : String → List String → Bool
is_among secret [] = false
is_among secret (s ∷ secrets) = s == secret || is_among secret secrets

abbrev pub append_if_absent : List String → String → List String
append_if_absent secrets secret =
    if is_among secret secrets then secrets else secrets ++ secret ∷ []

unfoldable pub merge_image_pull_secrets : (requested existing : List String) → List String
merge_image_pull_secrets [] existing = existing
merge_image_pull_secrets (s ∷ requested) existing =
    merge_image_pull_secrets requested (append_if_absent existing s)

-- A secret of the cluster, as far as the credentials go.
pub record Secret : Type 0 where
  pub name : String
  pub namespace : String
  pub content : Assoc String

-- The process's environment.
abbrev pub Environment : Type 0
Environment = Assoc String

abbrev pub admin_user_env_var : String
admin_user_env_var = "GF_SECURITY_ADMIN_USER"

abbrev pub admin_password_env_var : String
admin_password_env_var = "GF_SECURITY_ADMIN_PASSWORD"

abbrev pub secret_value : Option Secret → String → Option String
secret_value none key = none
secret_value (some current) key = lookup key current.content

abbrev or_text : String → Option String → String
or_text default none = default
or_text default (some text) = text

-- What the specification gives, if that is not empty.
abbrev pub specified :
    Option GrafanaConfigSecurity → (GrafanaConfigSecurity → String) → Option String
specified none part = none
specified (some security) part = if part security == "" then none else some (part security)

module _ (k : Kubernetes) where
  abbrev of_account {ℓ} : {A : Type ℓ} → Grafana k → A → (GrafanaServiceAccount → A) → A
  of_account cr default part = elim cr.service_account [ none ↦ default | some a ↦ part a ]

  unfoldable pub get_service_account_labels : Grafana k → Option (Assoc String)
  get_service_account_labels cr = of_account cr none λ a. some a.labels

  unfoldable pub get_service_account_annotations :
      Grafana k → Option (Assoc String) → Option (Assoc String)
  unfolding merge_annotations
  get_service_account_annotations cr existing =
      of_account cr existing λ a. some (merge_annotations a.annotations existing)

  unfoldable pub get_service_account_image_pull_secrets : Grafana k → List String → List String
  unfolding merge_image_pull_secrets
  get_service_account_image_pull_secrets cr existing =
      of_account cr existing λ a. merge_image_pull_secrets a.image_pull_secrets existing

  unfoldable pub grafana_service_account : Grafana k → ServiceAccount
  unfolding get_service_account_labels get_service_account_annotations
      get_service_account_image_pull_secrets
  grafana_service_account cr = record {
    name = "grafana-serviceaccount";
    namespace = cr.served.namespace;
    labels = get_service_account_labels cr;
    annotations = get_service_account_annotations cr none;
    image_pull_secrets = get_service_account_image_pull_secrets cr [];
  }

  unfoldable pub grafana_service_account_reconciled : Grafana k → ServiceAccount → ServiceAccount
  unfolding get_service_account_labels get_service_account_annotations
      get_service_account_image_pull_secrets
  grafana_service_account_reconciled cr current_state = record current_state {
    labels = get_service_account_labels cr;
    annotations = get_service_account_annotations cr current_state.annotations;
    image_pull_secrets = get_service_account_image_pull_secrets cr current_state.image_pull_secrets;
  }

  unfoldable pub get_admin_user : Grafana k → Option Secret → String
  unfolding lookup
  get_admin_user cr current = or_text "admin" (
      or_other (specified cr.security (λ s. s.admin_user))
        (secret_value current admin_user_env_var))

  -- `random` is the text of `RandStringRunes(10)`.
  unfoldable pub get_admin_password : (random : String) → Grafana k → Option Secret → String
  unfolding lookup
  get_admin_password random cr current = or_text random (
      or_other (specified cr.security (λ s. s.admin_password))
        (secret_value current admin_password_env_var))

  abbrev pub credentials : (random : String) → Grafana k → Option Secret → Assoc String
  credentials random cr current =
      (admin_user_env_var, get_admin_user cr current)
      ∷ (admin_password_env_var, get_admin_password random cr current)
      ∷ []

  abbrev pub set_credentials : (user password : String) → Environment → Environment
  set_credentials user password environment =
      insert admin_password_env_var password (insert admin_user_env_var user environment)

  -- The data of the secret, and the environment with the credentials put in.
  unfoldable pub get_data :
      (random : String) → Grafana k → Option Secret → Environment → Assoc String × Environment
  unfolding get_admin_user get_admin_password insert
  get_data random cr current environment = (
    credentials random cr current,
    set_credentials (get_admin_user cr current) (get_admin_password random cr current) environment,
  )

  unfoldable pub admin_secret : (random : String) → Grafana k → Environment → Secret × Environment
  unfolding get_data
  admin_secret random cr environment =
      let (content, after) = get_data random cr none environment in
      (
        record {
          name = "grafana-admin-credentials";
          namespace = cr.served.namespace;
          content = content;
        },
        after,
      )

  unfoldable pub admin_secret_reconciled :
      (random : String) → Grafana k → Secret → Environment → Secret × Environment
  unfolding get_data
  admin_secret_reconciled random cr current_state environment =
      let (content, after) = get_data random cr (some current_state) environment in
      (record current_state { content = content }, after)

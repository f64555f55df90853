-- ===== src/Api/Users.antt =====
-- The accounts of Grafana's users and its API keys: the functions after `manageSuccess` of
-- controllers/grafana/grafana_controller.go, and `GetGrafanaDashboardId` of
-- controllers/grafanadashboard/grafanadashboard_controller.go. The admission check is here too. Log lines are
-- left out.
use Prim.Native.Char.{Char}
use grafana_operator.Common.{
  String, ◌⧺◌, ◌==◌, ℕ, zero, suc, Bool, true, false, ◌&&◌, not, Option, none, some, List, [], ◌∷◌,
  ℤ, pos, negsuc, itoa, eqb_ℤ, Assoc, lookup, if◌then◌else◌,
}
use grafana_operator.Common.Run.{Result, ok, err, Run, ◌>>=◌, ◌>>◌, return}

-- `Grafana_user` of controllers/model/utils.go
pub record GrafanaUser : Type 0 where
  pub name : String
  pub email : String
  pub login : String
  pub password : String

-- `Grafana_User_Get` of controllers/model/utils.go, as far as it is read
pub record GrafanaUserGet : Type 0 where
  pub id : ℤ
  pub is_grafana_admin : Bool

-- `GrafanaKeyBody` of controllers/model/utils.go
pub record GrafanaKeyBody : Type 0 where
  pub name : String
  pub role : String
  pub seconds_to_live : ℤ

-- A binding of a role of the cluster: the role, and the names of its subjects.
pub record ClusterRoleBinding : Type 0 where
  pub role : String
  pub subjects : List String

-- What is called: `http.NewRequest`, `none` if it fails; `client.Do`, for the text of its error or for
-- what could be read of the body; encoding/json, of which errors are ignored; `rand.Intn` for the
-- letters; and the list of the bindings, `none` if it is nil.
pub record Site : Type 1 where
  pub Network : Type 0
  pub Request : Type 0
  pub new_request : (method url : String) → Option String → Option Request
  pub set_header : (key value : String) → Request → Request
  pub send : Request → Network → Network × Result String String
  pub marshal_user : GrafanaUser → String
  pub marshal_key : GrafanaKeyBody → String
  pub decode_user : String → GrafanaUserGet
  pub decode_key : String → String
  pub decode_dashboard_id : String → ℤ
  pub random_letter : Network → Network × Char
  pub list_role_bindings : Network → Network × Option (List ClusterRoleBinding)

abbrev monitoring_address : String
monitoring_address = "grafana-service.monitoring.svc.cluster.local:3000/"

abbrev api_url : (id password path : String) → String
api_url id password path =
    "http://" ⧺ (id ⧺ (":" ⧺ (password ⧺ ("@" ⧺ (monitoring_address ⧺ path)))))

-- The administrator of the cluster has an address.
abbrev address_of : String → String
address_of email = if email == "kubernetes-admin" then "kubernetes-admin@localhost" else email

-- An administrator of Grafana has the id -1.
abbrev user_id : GrafanaUserGet → ℤ
user_id user = if user.is_grafana_admin then negsuc 0 else user.id

abbrev with_subject : List String → Option (List String) → Option (List String)
with_subject [] rest = none
with_subject (name ∷ _) none = none
with_subject (name ∷ _) (some names) = some (name ∷ names)

abbrev is_hypercloud : Option String → Bool
is_hypercloud none = false
is_hypercloud (some label) = label == "hypercloud"

module _ (site : Site) where
  open site use {
    Network, Request, new_request, set_header, send, marshal_user, marshal_key, decode_user,
    decode_key, decode_dashboard_id, random_letter, list_role_bindings,
  }

  -- The network, and the variables of the packages: `grafanaId` and `grafanaPw` of the package grafana,
  -- and `model.GrafanaKey`.
  pub record Accounts : Type 0 where
    pub network : Network
    pub grafana_id : String
    pub grafana_pw : String
    pub grafana_key : String

  abbrev pub on_network : {A : Type 0} → (Network → Network × A) → Run Accounts A
  on_network f s = let (n, a) = f s.network in some (record s { network = n }, a)

  abbrev set_all : List (String × String) → Request → Request
  set_all [] request = request
  set_all ((key, value) ∷ l) request = set_all l (set_header key value request)

  -- A request that could not be made is nil, and panics when it is used.
  abbrev pub call :
      (method url : String)
      → Option String
      → List (String × String)
      → Run Accounts (Result String String)
  call method url body headers s = elim (new_request method url body) [
    | none ↦ none
    | some request ↦ on_network (send (set_all headers request)) s
  ]

  abbrev set_login : Run Accounts Unit
  set_login s = some (record s { grafana_id = "admin"; grafana_pw = "admin" }, tt)

  abbrev get_state : Run Accounts Accounts
  get_state s = some (s, s)

  unfoldable pub random_string : ℕ → Network → Network × String
  random_string zero n = (n, "")
  random_string (suc k) n =
      let (n', letter) = random_letter n in
      let (n'', rest) = random_string k n' in (n'', String.◌∷◌ letter rest)

  abbrev json_header : List (String × String)
  json_header = ("Content-Type", "application/json; charset=UTF-8") ∷ []

  unfoldable pub create_grafana_user : (email : String) → Run Accounts Unit
  unfolding random_string
  create_grafana_user email = do
    s ← get_state
    name ← on_network (random_string 8)
    login ← on_network (random_string 8)
    let user : GrafanaUser = record {
      name = name;
      email = address_of email;
      login = login;
      password = "1234";
    }
    call "POST" (api_url s.grafana_id s.grafana_pw "api/admin/users") (some (marshal_user user))
        json_header
    return tt

  -- The text of an error stands for the key.
  abbrev keep_key : Result String String → Run Accounts String
  keep_key (err e) s = some (s, e)
  keep_key (ok body) s =
      let key = "Bearer " ⧺ decode_key body in some (record s { grafana_key = key }, key)

  unfoldable pub get_grafana_key : Run Accounts String
  unfolding random_string
  get_grafana_key = do
    set_login
    name ← on_network (random_string 8)
    let body : GrafanaKeyBody = record { name = name; role = "Admin"; seconds_to_live = pos 300 }
    response ←
        call "POST" (api_url "admin" "admin" "api/auth/keys") (some (marshal_key body)) json_header
    keep_key response

  abbrev user_of : Result String String → ℤ
  user_of (err e) = pos 0
  user_of (ok body) = user_id (decode_user body)

  unfoldable pub get_grafana_user : (email : String) → Run Accounts ℤ
  get_grafana_user email = do
    set_login
    response ←
        call "GET" (api_url "admin" "admin" ("api/users/lookup?loginOrEmail=" ⧺ address_of email))
          none []
    return (user_of response)

  abbrev dashboard_id_of : Result String String → ℤ
  dashboard_id_of (err e) = pos 0
  dashboard_id_of (ok body) = decode_dashboard_id body

  unfoldable pub get_grafana_dashboard_id : (uid : String) → Run Accounts ℤ
  get_grafana_dashboard_id uid = do
    response ← call "GET" (api_url "admin" "admin" ("api/dashboards/uid/" ⧺ uid)) none []
    return (dashboard_id_of response)

  -- A binding of the role without a subject panics.
  unfoldable pub admin_subjects : List ClusterRoleBinding → Option (List String)
  admin_subjects [] = some []
  admin_subjects (crb ∷ l) =
      let rest = admin_subjects l in
      if crb.role == "cluster-admin" then with_subject crb.subjects rest else rest

  abbrev listed : Accounts → Option (List ClusterRoleBinding) → Option (Accounts × List String)
  listed s none = none
  listed s (some bindings) = elim (admin_subjects bindings) [
    | none ↦ none
    | some names ↦ some (s, names)
  ]

  unfoldable pub get_crb_admin : Run Accounts (List String)
  unfolding admin_subjects
  get_crb_admin s =
      let (n, bindings) = list_role_bindings s.network in listed (record s { network = n }) bindings

  abbrev make_admin : (user : String) → Run Accounts Unit
  make_admin user = do
    create_grafana_user user
    id ← get_grafana_user user
    call "PUT" (api_url "admin" "admin" ("api/admin/users/" ⧺ (itoa id ⧺ "/permissions")))
        (some "{\"isGrafanaAdmin\": true}") json_header
    call "PATCH" (api_url "admin" "admin" ("api/orgs/1/users/" ⧺ itoa id))
        (some "{\"role\":\"Admin\"}") json_header
    return tt

  -- A user that Grafana does not know becomes an administrator.
  abbrev make_admin_if : Bool → (user : String) → Run Accounts Unit
  make_admin_if false user = return tt
  make_admin_if true user = make_admin user

  unfoldable pub give_admin_to : List String → Run Accounts Unit
  unfolding create_grafana_user get_grafana_user
  give_admin_to [] = return tt
  give_admin_to (user ∷ users) = do
    id ← get_grafana_user user
    make_admin_if (eqb_ℤ id (pos 0) && not (user == "")) user
    give_admin_to users

  unfoldable pub give_admin : Run Accounts Unit
  unfolding get_crb_admin give_admin_to
  give_admin = do users ← get_crb_admin; give_admin_to users

-- `Grafanacheck`, given the namespace and the labels of the object of the review, or `none` if it cannot
-- be decoded: whether it is allowed.
unfoldable pub grafana_check : Option (String × Assoc String) → Bool
unfolding lookup
grafana_check none = false
grafana_check (some (namespace, labels)) =
    namespace == "monitoring" && is_hypercloud (lookup "grafana" labels)

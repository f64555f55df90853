-- ===== src/Api/Types.antt =====
-- The requests and responses of controllers/grafanadashboard/grafana_client.go, and what the client
-- needs of net/url, net/http and encoding/json. A pointer that may be nil is an option.
use grafana_operator.Common.{String, Bool, Option, none, some, List, ℤ, ℕ, pos}
use grafana_operator.Common.Run.{Result, Run}
use grafana_operator.Dashboard.Resource.{GrafanaDashboardRef}

pub record GrafanaRequest : Type 0 where
  pub dashboard : String
  pub folder_id : ℤ
  pub folder_name : String
  pub overwrite : Bool

pub record GrafanaResponse : Type 0 where
  pub id : Option ℕ
  pub org_id : Option ℕ
  pub message : Option String
  pub slug : Option String
  pub version : Option ℤ
  pub status : Option String
  pub uid : Option String
  pub url : Option String
  pub folder_id : Option ℤ
  pub folder_name : String

pub record GrafanaFolderRequest : Type 0 where
  pub title : String

pub record DashboardBody : Type 0 where
  pub id : Option ℕ
  pub uid : Option String
  pub title : Option String
  pub version : Option ℕ

pub record GrafanaDashboardMeta : Type 0 where
  pub folder_id : Option ℕ
  pub folder_title : Option String
  pub version : Option ℕ

pub record GrafanaDashboardResponse : Type 0 where
  pub meta : Option GrafanaDashboardMeta
  pub dashboard : Option DashboardBody

-- Of two fields with the key `url`, encoding/json fills neither.
pub record GrafanaDashboardListGetResponse : Type 0 where
  pub id : Option ℕ
  pub uid : String
  pub title : String
  pub uri : String
  pub url : String
  pub result_type : String
  pub folder_id : ℤ

pub record GrafanaFolderResponse : Type 0 where
  pub id : Option ℤ
  pub title : String
  pub uid : String

-- The values that a response is decoded into.
abbrev pub new_folder_response : GrafanaFolderResponse
new_folder_response = record { id = some (pos 0); title = ""; uid = "" }

abbrev pub new_response : GrafanaResponse
new_response = record {
  id = some 0;
  org_id = some 0;
  message = some "(empty)";
  slug = some "";
  version = some (pos 0);
  status = some "(empty)";
  uid = some "";
  url = some "";
  folder_id = none;
  folder_name = "";
}

abbrev pub new_dashboard_response : GrafanaDashboardResponse
new_dashboard_response = record {
  meta = none;
  dashboard = some (record { id = some 0; uid = some ""; title = some ""; version = some 0 });
}

-- The status of a response, and its body unless reading it fails.
pub record Reply (E : Type 0) : Type 0 where
  pub status_code : ℤ
  pub body : Result E String

-- `url.Parse`, `parsed.User = url.UserPassword(...)` with `parsed.String()`, `http.NewRequest` with or
-- without a body, `Header.Set`, `client.Do`, `fmt.Errorf`, and encoding/json, where decoding goes into
-- a value, and changes it even if it then fails. `Network` is all that a request can change.
pub record Http : Type 1 where
  pub Error : Type 0
  pub Url : Type 0
  pub Request : Type 0
  pub Network : Type 0
  pub parse_url : String → Result Error Url
  pub with_user : (user password : String) → Url → String
  pub new_request : (method url : String) → Option String → Result Error Request
  pub set_header : (key value : String) → Request → Request
  pub send : Request → Network → Network × Result Error (Reply Error)
  pub errorf : String → Error
  pub marshal_request : GrafanaRequest → Result Error String
  pub marshal_folder_request : GrafanaFolderRequest → Result Error String
  pub unmarshal_folders : String → List GrafanaFolderResponse × Option Error
  pub unmarshal_folder : String → GrafanaFolderResponse → GrafanaFolderResponse × Option Error
  pub unmarshal_response : String → GrafanaResponse → GrafanaResponse × Option Error
  pub unmarshal_dashboard :
      String → GrafanaDashboardResponse → GrafanaDashboardResponse × Option Error
  pub unmarshal_list : String → List GrafanaDashboardListGetResponse × Option Error

-- The interface `GrafanaClient`. Each operation returns a response and an error, if there is one.
pub record GrafanaClient (E N : Type 0) : Type 0 where
  pub create_or_update_dashboard :
      (dashboard : String)
      → (folder_id : ℤ) → (folder_name : String) → Run N (GrafanaResponse × Option E)
  pub delete_dashboard_by_uid : (uid : String) → Run N (GrafanaResponse × Option E)
  pub get_list_dashboard : (namespace : String) → Run N (List GrafanaDashboardResponse × Option E)
  pub create_or_update_folder : (folder_name : String) → Run N (GrafanaFolderResponse × Option E)
  pub delete_folder : (folder_id : Option ℤ) → Run N (Option E)
  pub safe_to_delete : List GrafanaDashboardRef → (folder_id : Option ℤ) → Run N Bool
  pub get_dashboard : (uid : String) → Run N (GrafanaDashboardResponse × Option E)
  pub get_all_folders : Run N (List GrafanaFolderResponse × Option E)

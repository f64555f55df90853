-- ===== src/Api/Client.antt =====
-- `GrafanaClientImpl` of controllers/grafanadashboard/grafana_client.go. Its timeout and transport are
-- part of what sends a request.
pub mod Folders
use grafana_operator.Common.{
  String, ◌⧺◌, ◌==◌, Bool, ℕ, true, false, ◌&&◌, ◌||◌, Option, none, some, List, [], ◌∷◌, ℤ, pos,
  itoa, eqb_ℤ, if◌then◌else◌,
}
use grafana_operator.Common.Run.{Result, ok, err, or_err, Run, ◌>>=◌, return, panic}
use grafana_operator.Dashboard.Resource.{GrafanaDashboardRef}
use grafana_operator.Api.Types.{
  GrafanaRequest, GrafanaResponse, GrafanaFolderRequest, GrafanaDashboardResponse,
  GrafanaDashboardListGetResponse, GrafanaFolderResponse, new_folder_response, new_response,
  new_dashboard_response, Reply, Http, GrafanaClient,
}

-- `GrafanaClientImpl`
pub record Credentials : Type 0 where
  pub url : String
  pub user : String
  pub password : String

-- `data, err := ioutil.ReadAll(resp.Body)`, and then `json.Unmarshal`
abbrev pub read_body : {E A : Type 0} → A → Result E String → (String → A × Option E) → A × Option E
read_body response (err e) unmarshal = (response, some e)
read_body response (ok content) unmarshal = unmarshal content

abbrev is_read : {E A : Type 0} → Result E A → Bool
is_read (ok a) = true
is_read (err e) = false

-- `return &response.UID, nil`, unless there is an error
abbrev uid_of : {E : Type 0} → GrafanaFolderResponse × Option E → Result E String
uid_of (response, some e) = err e
uid_of (response, none) = ok response.uid

abbrev pub is_status : ℤ → ℕ → Bool
is_status status code = eqb_ℤ status (pos code)

-- `folder.Title == folderInputName`, for the first folder of which that holds
unfoldable pub find_folder : String → List GrafanaFolderResponse → Option GrafanaFolderResponse
find_folder name [] = none
find_folder name (folder ∷ folders) =
    if folder.title == name then some folder else find_folder name folders

-- A dashboard without a folder makes the comparison panic, and so does a nil `id`.
unfoldable pub safe_to_delete : List GrafanaDashboardRef → (id : Option ℤ) → Option Bool
safe_to_delete [] id = some true
safe_to_delete (dashboard ∷ dashlist) id = elim dashboard.folder_id [
  | none ↦ none
  | some folder_id ↦ elim id [
    | none ↦ none
    | some i ↦
        let rest = safe_to_delete dashlist (some i) in
        if eqb_ℤ folder_id i then some false else rest
  ]
]

abbrev pub folder_title : (folder_input_name : String) → String
folder_title name = if name == "" then "Non-Namespaced" else name

module _ (http : Http) where
  open http use {
    Error, Url, Request, Network, parse_url, with_user, new_request, set_header, send, errorf,
    marshal_request, marshal_folder_request, unmarshal_folders, unmarshal_folder,
    unmarshal_response, unmarshal_dashboard, unmarshal_list,
  }

  unfoldable pub set_headers : Request → Request
  set_headers req =
      set_header "User-Agent" "grafana-operator"
        (set_header "Content-Type" "application/json" (set_header "Accept" "application/json" req))

  abbrev with_headers : Result Error Request → Result Error Request
  with_headers request = or_err request λ req. ok (set_headers req)

  -- The request of a method: the URL is parsed, then the body is made, then the request.
  unfoldable pub request_to :
      Credentials
      → (method raw_url : String) → (body : Result Error (Option String)) → Result Error Request
  unfolding set_headers
  request_to r method raw_url body = or_err (parse_url raw_url) λ parsed.
      or_err body λ raw. with_headers (new_request method (with_user r.user r.password parsed) raw)

  abbrev send_if_made : Result Error Request → Network → Network × Result Error (Reply Error)
  send_if_made (err e) n = (n, err e)
  send_if_made (ok req) n = send req n

  unfoldable pub submit :
      Credentials
      → (method raw_url : String) → (body : Result Error (Option String)) → Network
      → Network × Result Error (Reply Error)
  unfolding request_to
  submit r method raw_url body n = send_if_made (request_to r method raw_url body) n

  abbrev pub no_body : Result Error (Option String)
  no_body = ok none

  abbrev pub body_with : Result Error String → Result Error (Option String)
  body_with marshalled = or_err marshalled λ raw. ok (some raw)

  abbrev unexpected : (doing : String) → ℤ → Error
  unexpected doing status =
      errorf ("error " ⧺ (doing ⧺ (", expected status 200 but got " ⧺ itoa status)))

  -- The response, if the status is 200, and otherwise an error.
  abbrev pub expect_ok :
      {A : Type 0}
      → (doing : String) → A
      → (String → A × Option Error)
      → Result Error (Reply Error)
      → A × Option Error
  expect_ok doing response unmarshal (err e) = (response, some e)
  expect_ok doing response unmarshal (ok resp) =
      if is_status resp.status_code 200
      then read_body response resp.body unmarshal
      else (response, some (unexpected doing resp.status_code))

  -- A dashboard that is not found is no error.
  abbrev expect_found :
      {A : Type 0} → A → (String → A × Option Error) → Result Error (Reply Error) → A × Option Error
  expect_found response unmarshal (err e) = (response, some e)
  expect_found response unmarshal (ok resp) =
      if is_status resp.status_code 404
      then (response, none)
      else expect_ok "searching for dashboard" response unmarshal (ok resp)

  -- Nor is it one that Grafana is unavailable, of which `unavailable` is then the response.
  abbrev pub expect_available :
      {A : Type 0}
      → (doing : String) → (response unavailable : A) → (String → A × Option Error)
      → Result Error (Reply Error)
      → A × Option Error
  expect_available doing response unavailable unmarshal (err e) = (response, some e)
  expect_available doing response unavailable unmarshal (ok resp) =
      if is_status resp.status_code 503
      then (unavailable, none)
      else expect_ok doing response unmarshal (ok resp)

  unfoldable pub get_dashboard :
      Credentials → (uid : String) → Network → Network × (GrafanaDashboardResponse × Option Error)
  unfolding submit
  get_dashboard r uid n =
      let (n', resp) = submit r "GET" (r.url ⧺ ("/api/dashboards/uid/" ⧺ uid)) no_body n in
      (
        n',
        expect_found new_dashboard_response
            (λ content. unmarshal_dashboard content new_dashboard_response) resp,
      )

  unfoldable pub get_all_folders :
      Credentials → Network → Network × (List GrafanaFolderResponse × Option Error)
  unfolding submit
  get_all_folders r n =
      let (n', resp) = submit r "GET" (r.url ⧺ "/api/folders") no_body n in
      (n', expect_available "getting folders" [] [] unmarshal_folders resp)

  abbrev pub folder_body : (name : String) → Result Error (Option String)
  folder_body name = body_with (marshal_folder_request record { title = folder_title name })

  unfoldable pub create_folder :
      Credentials → (name : String) → Network → Network × (GrafanaFolderResponse × Option Error)
  unfolding submit
  create_folder r name n =
      let (n', resp) = submit r "POST" (r.url ⧺ "/api/folders") (folder_body name) n in
      (
        n',
        expect_available "creating folder" new_folder_response
            record { id = none; title = ""; uid = "" }
            (λ content. unmarshal_folder content new_folder_response) resp,
      )

  abbrev pub or_created :
      Credentials
      → (name : String) → Network
      → Option GrafanaFolderResponse
      → Network × (GrafanaFolderResponse × Option Error)
  or_created r name n (some folder) = (n, (folder, none))
  or_created r name n none = create_folder r name n

  abbrev pub create_unless_found :
      Credentials
      → (name : String) → Network
      → List GrafanaFolderResponse × Option Error
      → Network × (GrafanaFolderResponse × Option Error)
  create_unless_found r name n (folders, some e) = (n, (new_folder_response, some e))
  create_unless_found r name n (folders, none) = or_created r name n (find_folder name folders)

  unfoldable pub create_or_update_folder :
      Credentials
      → (folder_input_name : String) → Network
      → Network × (GrafanaFolderResponse × Option Error)
  unfolding get_all_folders find_folder create_folder
  create_or_update_folder r name n =
      let (n', folders) = get_all_folders r n in create_unless_found r name n' folders

  abbrev expect_ok_or_unavailable :
      {A : Type 0}
      → (doing : String) → A
      → (String → A × Option Error)
      → Result Error (Reply Error)
      → A × Option Error
  expect_ok_or_unavailable doing response unmarshal (err e) = (response, some e)
  expect_ok_or_unavailable doing response unmarshal (ok resp) =
      if is_status resp.status_code 200 || is_status resp.status_code 503
      then read_body response resp.body unmarshal
      else (response, some (unexpected doing resp.status_code))

  unfoldable pub create_or_update_dashboard :
      Credentials
      → (dashboard : String) → (folder_id : ℤ) → (folder_name : String) → Network
      → Network × (GrafanaResponse × Option Error)
  unfolding submit
  create_or_update_dashboard r dashboard folder_id folder_name n =
      let request : GrafanaRequest = record {
        dashboard = dashboard;
        folder_id = folder_id;
        folder_name = folder_name;
        overwrite = true;
      } in
      let (n', resp) =
        submit r "POST" (r.url ⧺ "/api/dashboards/db") (body_with (marshal_request request)) n in
      (
        n',
        expect_ok_or_unavailable "creating dashboard" new_response
            (λ content. unmarshal_response content new_response) resp,
      )

  unfoldable pub delete_dashboard_by_uid :
      Credentials → (uid : String) → Network → Network × (GrafanaResponse × Option Error)
  unfolding submit
  delete_dashboard_by_uid r uid n =
      let (n', resp) = submit r "DELETE" (r.url ⧺ ("/api/dashboards/uid/" ⧺ uid)) no_body n in
      (
        n',
        expect_ok "deleting dashboard" new_response
            (λ content. unmarshal_response content new_response) resp,
      )

  -- `GetListDashboard` writes through the nil `Dashboard` of a new response for each result that is a
  -- dashboard: it panics, which is `none`.
  unfoldable pub list_results :
      List GrafanaDashboardListGetResponse → Option (List GrafanaDashboardResponse)
  list_results [] = some []
  list_results (res ∷ response) =
      if res.result_type == "dash-db" then none else list_results response

  abbrev list_of :
      Network
      → List GrafanaDashboardListGetResponse × Option Error
      → Option (Network × (List GrafanaDashboardResponse × Option Error))
  list_of n (response, e) = elim (list_results response) [
    | none ↦ none
    | some dashboards ↦ some (n, (dashboards, e))
  ]

  unfoldable pub get_list_dashboard :
      Credentials → Run Network (List GrafanaDashboardResponse × Option Error)
  unfolding submit list_results
  get_list_dashboard r n =
      let (n', resp) = submit r "GET" (r.url ⧺ "/api/search") no_body n in
      list_of n' (expect_found [] unmarshal_list resp)

  -- The message of an unexpected status shows the pointer, not what it points to; the text of the pointer
  -- is `shown`.
  unfoldable pub get_folder_uid :
      (shown : String) → Credentials → (id : ℤ) → Network → Network × Result Error String
  unfolding submit
  get_folder_uid shown r id n =
      let (n', resp) = submit r "GET" (r.url ⧺ ("/api/folders/id/" ⧺ itoa id)) no_body n in
      (
        n',
        uid_of (
            expect_ok ("finding folder " ⧺ shown) new_folder_response
              (λ content. unmarshal_folder content new_folder_response) resp),
      )

  -- What is logged of the response, whose message may be nil.
  abbrev logged : Network → GrafanaResponse × Option Error → Bool → Option (Network × Option Error)
  logged n (response, e) false = some (n, e)
  logged n (response, e) true = elim response.message [ none ↦ none | some _ ↦ some (n, e) ]

  abbrev is_decoded : Result Error (Reply Error) → Bool
  is_decoded (err e) = false
  is_decoded (ok resp) = is_status resp.status_code 200 && is_read resp.body

  abbrev delete_by_uid : Credentials → Result Error String → Run Network (Option Error)
  delete_by_uid r (err e) n = some (n, some e)
  delete_by_uid r (ok uid) n =
      let (n', resp) = submit r "DELETE" (r.url ⧺ ("/api/folders/" ⧺ uid)) no_body n in
      logged n'
        (expect_ok "deleting folder" new_response
          (λ content. unmarshal_response content new_response) resp)
        (is_decoded resp)

  unfoldable pub delete_folder :
      (shown : String) → Credentials → (delete_id : Option ℤ) → Run Network (Option Error)
  unfolding get_folder_uid submit
  delete_folder shown r none n = none
  delete_folder shown r (some id) n =
      let (n', uid) = get_folder_uid shown r id n in delete_by_uid r uid n'

  abbrev never_panics : {A : Type 0} → (Network → Network × A) → Run Network A
  never_panics f n = some (f n)

  abbrev safe : List GrafanaDashboardRef → Option ℤ → Run Network Bool
  safe dashlist id n = elim (safe_to_delete dashlist id) [ none ↦ none | some b ↦ some (n, b) ]

  -- `NewGrafanaClient`
  unfoldable pub new_grafana_client :
      (shown : String) → (url user password : String) → GrafanaClient Error Network
  unfolding get_dashboard get_all_folders create_or_update_folder create_or_update_dashboard
      delete_dashboard_by_uid get_list_dashboard delete_folder safe_to_delete
  new_grafana_client shown url user password =
      let r : Credentials = record { url = url; user = user; password = password } in
      record {
        create_or_update_dashboard =
            λ dashboard id name. never_panics (create_or_update_dashboard r dashboard id name);
        delete_dashboard_by_uid = λ uid. never_panics (delete_dashboard_by_uid r uid);
        get_list_dashboard = λ namespace. get_list_dashboard r;
        create_or_update_folder = λ name. never_panics (create_or_update_folder r name);
        delete_folder = delete_folder shown r;
        safe_to_delete = safe;
        get_dashboard = λ uid. never_panics (get_dashboard r uid);
        get_all_folders = never_panics (get_all_folders r);
      }

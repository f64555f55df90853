-- ===== src/Tests/Api.antt =====
-- The client of Grafana (controllers/grafanadashboard/grafana_client.go) against a small server.
use grafana_operator.Common.{
  String, ◌⧺◌, ◌==◌, eq_iff, ◌≡◌, ◌≢◌, refl, Bool, true, false, Option, none, some, List, [], ◌∷◌,
  ℤ, pos, inl, if◌then◌else◌,
}
use grafana_operator.Common.Run.{Result, ok}
use grafana_operator.Api.Types.{GrafanaFolderResponse, Reply, Http}
use grafana_operator.Api.Client.{
  Credentials, submit, request_to, set_headers, no_body, get_all_folders, find_folder,
  create_folder, create_or_update_folder,
}
use grafana_operator.Api.Client.Folders.{IsListedIfCreated, create_or_update_folder-settles}

pub record Sent : Type 0 where
  pub method : String
  pub url : String
  pub body : Option String

abbrev folder : GrafanaFolderResponse
folder = record { id = some (pos 1); title = "ns"; uid = "u" }

abbrev reply : ℤ → String → Result String (Reply String)
reply status text = ok record { status_code = status; body = ok text }

abbrev listing : Bool → String
listing true = "one"
listing false = "none"

abbrev listed : Bool → List GrafanaFolderResponse
listed true = folder ∷ []
listed false = []

abbrev create : Option String → Bool × Result String (Reply String)
create none = (false, reply (pos 500) "")
create (some title) =
    if title == "ns" then (true, reply (pos 200) "made") else (false, reply (pos 500) "")

-- A server with at most one folder, which is titled ns.
abbrev serve : Sent → Bool → Bool × Result String (Reply String)
serve sent there =
    if sent.method == "GET"
    then (there, reply (pos 200) (listing there))
    else elim there [ true ↦ (true, reply (pos 500) "") | false ↦ create sent.body ]

abbrev server : Http
server = record {
  Error = String;
  Url = String;
  Request = Sent;
  Network = Bool;
  parse_url = λ url. ok url;
  with_user = λ user password url. url;
  new_request = λ method url body. ok record { method = method; url = url; body = body };
  set_header = λ key value sent. sent;
  send = serve;
  errorf = λ message. message;
  marshal_request = λ request. ok request.dashboard;
  marshal_folder_request = λ request. ok request.title;
  unmarshal_folders = λ text. (if text == "one" then listed true else [], none);
  unmarshal_folder = λ text response. (folder, none);
  unmarshal_response = λ text response. (response, none);
  unmarshal_dashboard = λ text response. (response, none);
  unmarshal_list = λ text. ([], none);
}

abbrev operator : Credentials
operator = record { url = "http://grafana"; user = "admin"; password = "admin" }

lists :
    (n : Bool)
    → (text : String) × (submit server operator "GET"
          ("http://grafana" ⧺ "/api/folders")
          (no_body server)
          n
        ≡ (n, ok record { status_code = pos 200; body = ok text }))
      × (server.unmarshal_folders text ≡ (listed n, none))
unfolding submit request_to set_headers
lists true = ("one", refl, refl)
lists false = ("none", refl, refl)

created : IsListedIfCreated server operator "ns" false true folder (folder ∷ [])
created text resp e h b u = (refl, inl refl)

made : create_or_update_folder server operator "ns" false ≡ (true, (folder, none))
unfolding create_or_update_folder get_all_folders find_folder create_folder submit request_to
    set_headers
made = refl

ns-ne-empty : ◌≢◌ {A = String} "ns" ""
ns-ne-empty p = let e : false ≡ true = (eq_iff "ns" "").1 p in absurd cc

create_or_update_folder-settles_example :
    (folder.title ≡ "ns")
    × (create_or_update_folder server operator "ns" true ≡ (true, (folder, none)))
unfolding find_folder
create_or_update_folder-settles_example =
    create_or_update_folder-settles server operator "ns" false true folder (pos 1) [] (folder ∷ [])
      ns-ne-empty (lists false) (lists true) (refl, tt) created made refl

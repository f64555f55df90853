-- ===== src/Notifications/Client.antt =====
-- controllers/grafananotificationchannel/grafana_client.go. Sending a request is that of Api/Client, of the
-- same steps and headers; the timeout and the transport are part of it.
use grafana_operator.Common.{String, ◌⧺◌, Bool, false, ℕ, Option, none, some}
use grafana_operator.Common.Run.{ok}
use grafana_operator.Api.Types.{Http}
use grafana_operator.Api.Client.{Credentials, submit, expect_ok}

pub record ChannelResponse : Type 0 where
  pub id : Option ℕ
  pub uid : Option String
  pub name : Option String
  pub channel_type : Option String
  pub is_default : Option Bool
  pub send_reminder : Option Bool
  pub disable_resolve_message : Option Bool
  pub created : Option String
  pub updated : Option String
  pub message : Option String

-- `newResponse`
abbrev pub new_channel_response : ChannelResponse
new_channel_response = record {
  id = some 0;
  uid = some "";
  name = some "(empty)";
  channel_type = some "";
  is_default = some false;
  send_reminder = some false;
  disable_resolve_message = some false;
  created = some "";
  updated = some "";
  message = some "(empty)";
}

-- The constants `opCreate`, `opRead`, `opUpdate` and `opDelete`: no other operation is asked for.
pub data Op : Type 0 where
  op_create : Op
  op_read : Op
  op_update : Op
  op_delete : Op

unfoldable pub op_text : Op → String
op_text op_create = "creating"
op_text op_read = "reading"
op_text op_update = "updating"
op_text op_delete = "deleting"

unfoldable pub method_of : Op → String
method_of op_create = "POST"
method_of op_read = "GET"
method_of op_update = "PUT"
method_of op_delete = "DELETE"

unfoldable pub raw_url_of : Op → (url uid : String) → String
raw_url_of op_create url uid = url ⧺ "/api/alert-notifications/"
raw_url_of _ url uid = url ⧺ ("/api/alert-notifications/uid/" ⧺ uid)

unfoldable pub request_body : Op → (channel : String) → Option String
request_body op_create channel = some channel
request_body op_update channel = some channel
request_body _ channel = none

-- The interface `GrafanaClient`. `N` is all that a request can change.
pub record ChannelClient (E N : Type 0) : Type 0 where
  pub create : (channel : String) → N → N × (ChannelResponse × Option E)
  pub delete_by_uid : (uid : String) → N → N × (ChannelResponse × Option E)
  pub update : (channel uid : String) → N → N × (ChannelResponse × Option E)
  pub get : (uid : String) → N → N × (ChannelResponse × Option E)

-- `unmarshal` decodes into a response, and changes it even if it then fails.
module _ (http : Http)
    (unmarshal : String → ChannelResponse → ChannelResponse × Option http.Error) where
  open http use {Error, Network}

  unfoldable pub do_request :
      Credentials
      → Op
      → (channel uid : String) → Network
      → Network × (ChannelResponse × Option Error)
  unfolding op_text method_of raw_url_of request_body submit
  do_request r op channel uid n =
      let (n', resp) =
        submit http r (method_of op) (raw_url_of op r.url uid) (ok (request_body op channel)) n in
      (
        n',
        expect_ok http (op_text op ⧺ " notificationChannel") new_channel_response
            (λ text. unmarshal text new_channel_response) resp,
      )

  unfoldable pub create_notification_channel :
      Credentials → (channel : String) → Network → Network × (ChannelResponse × Option Error)
  unfolding do_request
  create_notification_channel r channel = do_request r op_create channel ""

  unfoldable pub update_notification_channel :
      Credentials → (channel uid : String) → Network → Network × (ChannelResponse × Option Error)
  unfolding do_request
  update_notification_channel r channel uid = do_request r op_update channel uid

  unfoldable pub get_notification_channel :
      Credentials → (uid : String) → Network → Network × (ChannelResponse × Option Error)
  unfolding do_request
  get_notification_channel r uid = do_request r op_read "" uid

  unfoldable pub delete_notification_channel_by_uid :
      Credentials → (uid : String) → Network → Network × (ChannelResponse × Option Error)
  unfolding do_request
  delete_notification_channel_by_uid r uid = do_request r op_delete "" uid

  -- `NewGrafanaClient`
  unfoldable pub new_channel_client : (url user password : String) → ChannelClient Error Network
  unfolding create_notification_channel update_notification_channel get_notification_channel
      delete_notification_channel_by_uid
  new_channel_client url user password =
      let r : Credentials = record { url = url; user = user; password = password } in
      record {
        create = create_notification_channel r;
        delete_by_uid = delete_notification_channel_by_uid r;
        update = update_notification_channel r;
        get = get_notification_channel r;
      }

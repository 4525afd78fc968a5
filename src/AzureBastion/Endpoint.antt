-- ===== src/AzureBastion/Endpoint.antt =====
-- internal/azurebastion/session.go: newSessionClient, and the URLs of its requests. url.Parse and the
-- two escapes of net/url are parameters.
pub mod Encryption
mod Tests
use terraform_provider_tunne.Base.{Bool, true, false, ◌||◌, List, [], ◌∷◌, ◌++◌, if◌then◌else◌}
use terraform_provider_tunne.Errors.{Error, message, invalid_endpoint, Result, ok, err}
use terraform_provider_tunne.GoText.{Text, lit, is_empty, text_eq, contains}
use terraform_provider_tunne.AzureBastion.Config.{TunnelPlan}
use terraform_provider_tunne.AzureBastion.Session.{SessionClient, TokenResponse}

-- What the source reads of a *url.URL.
pub record Url : Type 0 where
  pub scheme : Text
  pub host : Text

pub record NetUrl : Type 0 where
  pub parse : Text → Result Url
  pub path_escape : Text → Text
  pub query_escape : Text → Text

-- `baseURL` and `wsBaseURL` of a sessionClient.
pub record BaseUrls : Type 0 where
  pub base_url : Text
  pub ws_base_url : Text

-- A sessionClient: the URLs, and the state of AzureBastion.Session.
pub record NewSession : Type 0 where
  pub urls : BaseUrls
  pub client : SessionClient

pub with_scheme : Text → Text
with_scheme endpoint =
    if contains endpoint (lit "://") then endpoint else lit "https://" ++ endpoint

base_urls : Url → BaseUrls
base_urls u =
    if text_eq u.scheme (lit "http")
    then record { base_url = lit "http://" ++ u.host; ws_base_url = lit "ws://" ++ u.host }
    else record { base_url = lit "https://" ++ u.host; ws_base_url = lit "wss://" ++ u.host }

new_client : TunnelPlan → SessionClient
new_client plan = record {
  target_resource_id = plan.plan_target;
  target_port = plan.plan_target_port;
  hostname = plan.hostname;
  auth_token = [];
  node_id = [];
  cached_token = record { token = []; expires_on = 0 };
}

of_url : TunnelPlan → Result Url → Result NewSession
unfolding base_urls new_client
of_url plan (err e) = err (message invalid_endpoint)
of_url plan (ok u) =
    if is_empty u.host
    then err (message invalid_endpoint)
    else ok (record { urls = base_urls u; client = new_client plan })

module _ (net : NetUrl) where
  -- `newSessionClient(endpoint, plan, credential)`
  pub new_session_client : Text → TunnelPlan → Result NewSession
  unfolding of_url with_scheme
  new_session_client endpoint plan = of_url plan (net.parse (with_scheme endpoint))

  -- The URLs that negotiate, deleteToken and open make their requests to.
  pub token_url : BaseUrls → Text
  token_url urls = urls.base_url ++ lit "/api/tokens"

  pub delete_url : BaseUrls → Text → Text
  delete_url urls token = urls.base_url ++ (lit "/api/tokens/" ++ net.path_escape token)

  pub ws_url : BaseUrls → TokenResponse → Text
  ws_url urls t =
      urls.ws_base_url
      ++ (lit "/webtunnelv2/"
          ++ (net.path_escape t.websocket_token
              ++ (lit "?X-Node-Id=" ++ net.query_escape t.response_node_id)))

-- ===== src/AzureBastion/Session.antt =====
-- internal/azurebastion/session.go: sessionClient. What the credential and the data plane answer,
-- and the clock, are arguments; the escaping of URLs and forms is left out.
pub mod Tokens
pub mod Callers
mod Tests
use terraform_provider_tunne.Base.{
  ℕ, ◌+◌, Bool, true, false, not, ◌&&◌, ◌||◌, Option, none, some, List, [], ◌∷◌, ◌++◌, ltb, ◌==◌,
  if◌then◌else◌, ℤ,
}
use terraform_provider_tunne.Errors.{
  Error, message, wrap, acquire_credential, create_token_request, send_token_request,
  read_token_response, token_status, token_fields, cleanup_request, send_cleanup, cleanup_status,
  connect_websocket, invalid_endpoint, Result, ok, err,
}
use terraform_provider_tunne.GoText.{Text, lit, is_empty, itoa, contains}

-- azcore.AccessToken, with its expiry in seconds.
pub record AccessToken : Type 0 where
  pub token : Text
  pub expires_on : ℕ

pub record SessionClient : Type 0 where
  pub target_resource_id : Text
  pub target_port : ℤ
  pub hostname : Text
  pub auth_token : Text
  pub node_id : Text
  pub cached_token : AccessToken

-- tokenRefreshWindow: five minutes.
abbrev pub token_refresh_window : ℕ
token_refresh_window = 300

refresh : SessionClient → Result AccessToken → SessionClient × Result Text
refresh c (err e) = (c, err (wrap acquire_credential e))
refresh c (ok t) = (record c { cached_token = t }, ok t.token)

-- `accessToken`, at the time `now`; `credential` is what `GetToken` would answer.
pub access_token : ℕ → Result AccessToken → SessionClient → SessionClient × Result Text
unfolding refresh
access_token now credential c =
    if ltb (now + token_refresh_window) c.cached_token.expires_on
    then (c, ok c.cached_token.token)
    else refresh c credential

pub record TokenResponse : Type 0 where
  pub response_auth_token : Text
  pub response_node_id : Text
  pub websocket_token : Text

-- What the data plane answers to a request: no request could be made or sent, its body could not
-- be read, or a status and a body; a body that is no such JSON has empty fields.
pub data Answer : Type 0 where
  not_created not_sent unreadable : Error → Answer
  answered : ℕ → TokenResponse → Answer

-- The POST request of `negotiate`: its form, and its header X-Node-Id if that is set.
pub record TokenRequest : Type 0 where
  pub form : List (Text × Text)
  pub node_header : Option Text

with_hostname : Text → List (Text × Text) → List (Text × Text)
with_hostname [] form = form
with_hostname (h ∷ host) form = form ++ (lit "hostname", h ∷ host) ∷ []

form_of : Text → SessionClient → List (Text × Text)
unfolding with_hostname
form_of aztoken c = with_hostname c.hostname (
    (lit "resourceId", c.target_resource_id)
    ∷ (lit "protocol", lit "tcptunnel")
    ∷ (lit "workloadHostPort", itoa c.target_port)
    ∷ (lit "aztoken", aztoken)
    ∷ (lit "token", c.auth_token)
    ∷ [])

header_of : Text → Option Text
header_of [] = none
header_of (d ∷ node) = some (d ∷ node)

pub token_request : Text → SessionClient → TokenRequest
unfolding form_of header_of
token_request aztoken c = record { form = form_of aztoken c; node_header = header_of c.node_id }

missing_field : TokenResponse → Bool
missing_field t =
    is_empty t.response_auth_token || is_empty t.response_node_id || is_empty t.websocket_token

-- The token of an answer, or the error that negotiate returns.
pub token_of : Answer → Result TokenResponse
unfolding missing_field
token_of (not_created e) = err (wrap create_token_request e)
token_of (not_sent e) = err (wrap send_token_request e)
token_of (unreadable e) = err (wrap read_token_response e)
token_of (answered status t) =
    if not (status == 200)
    then err (message token_status)
    else if missing_field t
    then err (message token_fields)
    else ok t

store : SessionClient → Result TokenResponse → SessionClient
store c (err e) = c
store c (ok t) = record c { auth_token = t.response_auth_token; node_id = t.response_node_id }

-- `negotiate`: the state after it, and its result.
pub negotiate : Answer → SessionClient → SessionClient × Result TokenResponse
unfolding store token_of
negotiate answer c = (store c (token_of answer), token_of answer)

-- A DELETE request: the token in its URL, and its header X-Node-Id.
pub record DeleteRequest : Type 0 where
  pub deleted : Text
  pub delete_header : Option Text

-- What the data plane answers to it.
pub data DeleteAnswer : Type 0 where
  delete_not_created delete_not_sent : Error → DeleteAnswer
  delete_answered : ℕ → DeleteAnswer

delete_error : DeleteAnswer → Option Error
delete_error (delete_not_created e) = some (message cleanup_request)
delete_error (delete_not_sent e) = some (message send_cleanup)
delete_error (delete_answered status) =
    if not (status == 200) && not (status == 204) && not (status == 404)
    then some (message cleanup_status)
    else none

delete_token : Text → Text → DeleteAnswer → Option DeleteRequest × Option Error
unfolding delete_error header_of
delete_token [] node answer = (none, none)
delete_token (t ∷ token) node answer =
    (some (record { deleted = t ∷ token; delete_header = header_of node }), delete_error answer)

-- `close`: the state after it, the request that it makes, and its error.
pub close_session :
    DeleteAnswer → SessionClient → SessionClient × Option DeleteRequest × Option Error
unfolding delete_token
close_session answer c =
    let (request, error) = delete_token c.auth_token c.node_id answer in
    (record c { auth_token = []; node_id = [] }, request, error)

dial_result : Option Error → TokenResponse → Result TokenResponse
dial_result (some e) t = err (message connect_websocket)
dial_result none t = ok t

by_token :
    Option Error → SessionClient × Result TokenResponse → SessionClient × Result TokenResponse
unfolding dial_result
by_token dial (c, err e) = (c, err e)
by_token dial (c, ok t) = (c, dial_result dial t)

by_access :
    Answer → Option Error → SessionClient × Result Text → SessionClient × Result TokenResponse
unfolding by_token
by_access answer dial (c, err e) = (c, err e)
by_access answer dial (c, ok aztoken) = by_token dial (negotiate answer c)

-- `open`: the access token, the negotiation and the dial of the WebSocket; a connection that is
-- opened is known by the token that it was dialled with.
pub open_session :
    ℕ
    → Result AccessToken
    → Answer
    → Option Error
    → SessionClient
    → SessionClient × Result TokenResponse
unfolding by_access
open_session now credential answer dial c = by_access answer dial (access_token now credential c)

-- ===== src/AzureBastion/Endpoint/Encryption.antt =====
-- internal/azurebastion/session.go: the requests go to the Bastion host, encrypted.
use terraform_provider_tunne.Base.{◌≡◌, refl, ap, ◌∙◌, false, ◌∷◌, ◌++◌, arith}
use mathlib.Core.List.{append_assoc}
use terraform_provider_tunne.Errors.{Result, ok, err}
use terraform_provider_tunne.GoText.{Text, lit, is_empty, text_eq, contains}
use terraform_provider_tunne.AzureBastion.Config.{TunnelPlan}
use terraform_provider_tunne.AzureBastion.Session.{TokenResponse}
use terraform_provider_tunne.AzureBastion.Endpoint.{
  Url, NetUrl, BaseUrls, NewSession, with_scheme, base_urls, of_url, new_session_client, token_url,
  delete_url, ws_url,
}

-- The base URLs of an https URL with a host, or of an http one.
abbrev pub OfScheme : Text → Text → BaseUrls → Type 0
OfScheme http ws urls =
    (host : Text) × (is_empty host ≡ false)
    × (urls.base_url ≡ http ++ host)
    × (urls.ws_base_url ≡ ws ++ host)

https-base_urls :
    (u : Url)
    → text_eq u.scheme (lit "http") ≡ false
    → is_empty u.host ≡ false
    → OfScheme (lit "https://") (lit "wss://") (base_urls u)
unfolding base_urls
https-base_urls u n h = (u.host, h, ground arith, ground arith)

https_is_not_http : (s : Text) → s ≡ lit "https" → text_eq s (lit "http") ≡ false
unfolding text_eq
https_is_not_http s e = rw e refl

of_url-https :
    (plan : TunnelPlan) (r : Result Url) (s : NewSession)
    → ((u : Url) → r ≡ ok u → u.scheme ≡ lit "https")
    → of_url plan r ≡ ok s
    → OfScheme (lit "https://") (lit "wss://") s.urls
unfolding of_url
of_url-https plan (err e) s secure h = cc
of_url-https plan (ok u) s secure h =
    let n = https_is_not_http u.scheme (secure u refl) in
    let b : (is_empty u.host ≡ false) × (base_urls u ≡ s.urls) = ground arith in
    let secured = https-base_urls u n b.0 in rw b.1 at secured

-- The URL is that of a path at the host.
abbrev pub IsAt : Text → Text → Text → Type 0
IsAt scheme host url = (path : Text) × (url ≡ scheme ++ (host ++ (b'/' ∷ path)))

-- The URLs of all requests of a session: for its tokens, for their deletion, and of its WebSockets.
abbrev pub OnlyAt : NetUrl → Text → Text → BaseUrls → Type 0
OnlyAt net http ws urls =
    (host : Text) × (is_empty host ≡ false)
    × IsAt http host (token_url net urls)
    × ((token : Text) → IsAt http host (delete_url net urls token))
    × ((t : TokenResponse) → IsAt ws host (ws_url net urls t))

IsAt-base :
    (scheme host url base path : Text)
    → url ≡ base ++ (b'/' ∷ path)
    → base ≡ scheme ++ host
    → IsAt scheme host url
IsAt-base scheme host url base path u b =
    (path, u ∙ ap (λ t. t ++ (b'/' ∷ path)) b ∙ append_assoc scheme host (b'/' ∷ path))

OfScheme-OnlyAt :
    (net : NetUrl) (http ws : Text) (urls : BaseUrls)
    → OfScheme http ws urls
    → OnlyAt net http ws urls
unfolding token_url delete_url ws_url
OfScheme-OnlyAt net http ws urls (host, set, base, ws_base) = (
  host,
  set,
  IsAt-base http host _ urls.base_url _ refl base,
  λ token. IsAt-base http host _ urls.base_url _ refl base,
  λ t. IsAt-base ws host _ urls.ws_base_url _ refl ws_base,
)

-- For a Bastion host that is named without a scheme, as the Azure API names it, every URL that the
-- session makes its requests to is an https one, or for a WebSocket a wss one, at one host that is not
-- empty; that holds for a url.Parse which reads https back from a URL that begins with it.
pub new_session_client-encrypted :
    (net : NetUrl) (endpoint : Text) (plan : TunnelPlan) (s : NewSession)
    → ((t : Text) (u : Url) → net.parse (lit "https://" ++ t) ≡ ok u → u.scheme ≡ lit "https")
    → contains endpoint (lit "://") ≡ false
    → new_session_client net endpoint plan ≡ ok s
    → OnlyAt net (lit "https://") (lit "wss://") s.urls
unfolding new_session_client with_scheme
new_session_client-encrypted net endpoint plan s secure bare h =
    OfScheme-OnlyAt net (lit "https://") (lit "wss://") s.urls
      (of_url-https plan _ s (λ u e. secure endpoint u e) (rw bare at h))

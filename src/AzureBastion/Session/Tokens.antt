-- ===== src/AzureBastion/Session/Tokens.antt =====
-- internal/azurebastion/session.go: the continuation token and the access token.
use terraform_provider_tunne.Base.{
  ℕ, ◌+◌, ◌<◌, ◌≡◌, ◌↔◌, refl, ◌⊎◌, true, false, Option, none, some, List, [], ◌∷◌, arith,
  if◌then◌else◌,
}
use terraform_provider_tunne.Errors.{Result, ok, err, is_ok}
use terraform_provider_tunne.GoText.{Text, is_empty, text_eq}
use terraform_provider_tunne.GoText.Equality.{text_eq_refl}
use terraform_provider_tunne.AzureBastion.Session.{
  AccessToken, SessionClient, token_refresh_window, access_token, TokenResponse, Answer, answered,
  token_of, store, negotiate, DeleteRequest, DeleteAnswer, delete_token, close_session,
}

-- A negotiation succeeds exactly if the answer has status 200 and none of the three fields is
-- empty; only then do the continuation token and the node change, and both are then that answer's.
pub negotiate_iff :
    (c : SessionClient) (status : ℕ) (t : TokenResponse)
    → let r = negotiate (answered status t) c in
      ((is_ok r.1 ≡ true) ↔ (
        (status ≡ 200)
        × (is_empty t.response_auth_token ≡ false)
        × (is_empty t.response_node_id ≡ false)
        × (is_empty t.websocket_token ≡ false)))
      × (((is_ok r.1 ≡ false) × (r.0 ≡ c))
          ⊎ ((is_ok r.1 ≡ true)
              × (r.0.auth_token ≡ t.response_auth_token)
              × (r.0.node_id ≡ t.response_node_id)))
unfolding negotiate
negotiate_iff c status t = ((λ h. ground arith, λ h. ground arith), ground arith)

-- The calls that a session goes through, with what the data plane answers.
pub data Call : Type 0 where
  negotiates : Answer → Call
  closes : DeleteAnswer → Call

unfoldable pub after : SessionClient → Call → SessionClient
after c (negotiates answer) = (negotiate answer c).0
after c (closes answer) = (close_session answer c).0

-- The session that the data plane holds for this client: the last one that a negotiation has
-- handed out, until its deletion is asked for.
abbrev deleted_from : Option Text → Option DeleteRequest → Option Text
deleted_from none request = none
deleted_from (some live) none = some live
deleted_from (some live) (some request) = if text_eq request.deleted live then none else some live

abbrev issued : Option Text → Result TokenResponse → Option Text
issued live (err e) = live
issued live (ok t) = some t.response_auth_token

unfoldable pub held_after : SessionClient → Option Text → Call → Option Text
held_after c live (negotiates answer) = issued live (negotiate answer c).1
held_after c live (closes answer) = deleted_from live (close_session answer c).1

abbrev token_held : Text → Option Text
token_held [] = none
token_held (x ∷ t) = some (x ∷ t)

abbrev pub run : SessionClient → List Call → SessionClient
run c [] = c
run c (x ∷ xs) = run (after c x) xs

abbrev pub held : SessionClient → Option Text → List Call → Option Text
held c live [] = live
held c live (x ∷ xs) = held (after c x) (held_after c live x) xs

issued_held :
    (c : SessionClient) (answer : Answer)
    → issued (token_held c.auth_token) (token_of answer)
      ≡ token_held (store c (token_of answer)).auth_token
unfolding token_of store
issued_held c answer = ground arith

delete_held :
    (t node : Text) (answer : DeleteAnswer)
    → deleted_from (token_held t) (delete_token t node answer).0 ≡ none
unfolding delete_token
delete_held [] node answer = refl
delete_held (x ∷ t) node answer = rw (text_eq_refl (x ∷ t))

step_held :
    (c : SessionClient) (x : Call)
    → held_after c (token_held c.auth_token) x ≡ token_held (after c x).auth_token
unfolding held_after after negotiate close_session
step_held c (negotiates answer) = issued_held c answer
step_held c (closes answer) = delete_held c.auth_token c.node_id answer

-- The client's continuation token is at all times that of the session which the data plane holds
-- for it, through any sequence of negotiations, failed ones included, and closes.
pub auth_token-held :
    (c : SessionClient) (xs : List Call)
    → held c (token_held c.auth_token) xs ≡ token_held (run c xs).auth_token
auth_token-held c [] = refl
auth_token-held c (x ∷ xs) = rw (step_held c x) (auth_token-held (after c x) xs)

close_releases_held :
    (c : SessionClient) (xs : List Call) (answer : DeleteAnswer)
    → held_after (run c xs) (held c (token_held c.auth_token) xs) (closes answer) ≡ none
unfolding after close_session
close_releases_held c xs answer = rw (auth_token-held c xs) (step_held (run c xs) (closes answer))

-- A close asks for the deletion of the session that is held, whatever came before it and whatever
-- the data plane answers; a second close then makes no request and reports no error.
pub close-held :
    (c : SessionClient) (xs : List Call) (answer again : DeleteAnswer)
    → (held_after (run c xs) (held c (token_held c.auth_token) xs) (closes answer) ≡ none)
      × (close_session again (close_session answer (run c xs)).0
          ≡ ((close_session answer (run c xs)).0, none, none))
close-held c xs answer again = (close_releases_held c xs answer, twice (run c xs))
  where
    twice :
        (d : SessionClient)
        → close_session again (close_session answer d).0 ≡ ((close_session answer d).0, none, none)
    twice d = unfold close_session delete_token in refl

-- An access token that is handed out is the cached one from then on; the credential is asked only
-- if the cached token ends within five minutes, and a failure of the credential changes nothing.
pub access_token-cached :
    (now : ℕ) (credential : Result AccessToken) (c : SessionClient)
    → let r = access_token now credential c in
      ((t : Text) → r.1 ≡ ok t → r.0.cached_token.token ≡ t)
      × (now + token_refresh_window < c.cached_token.expires_on → r ≡ (c, ok c.cached_token.token))
      × (is_ok r.1 ≡ false → r.0 ≡ c)
unfolding access_token
access_token-cached now (ok t) c = (λ x h. ground arith, λ h. ground arith, λ h. ground arith)
access_token-cached now (err e) c = (λ x h. ground arith, λ h. ground arith, λ h. ground arith)

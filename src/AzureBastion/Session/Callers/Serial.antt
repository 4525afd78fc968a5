-- ===== src/AzureBastion/Session/Callers/Serial.antt =====
-- internal/azurebastion/session.go: callers that negotiate at the same time are served one by one.
use terraform_provider_tunne.Base.{
  Bool, true, false, arith, ℕ, ◌≡◌, refl, ap, ◌∙◌, inl, inr, List, [], ◌∷◌, ◌==◌, Bool-cases,
}
use terraform_provider_tunne.GoText.{Text}
use terraform_provider_tunne.AzureBastion.Session.{
  SessionClient, Answer, DeleteAnswer, token_request, negotiate, close_session,
}
use terraform_provider_tunne.AzureBastion.Session.Callers.{
  Waiter, Shared, Event, sends, receives, closes, detached, send, find_waiter, without, receive,
  close_shared, step, run, share,
}

-- A call without interruption.
pub data Call : Type 0 where
  negotiates : Text → Answer → Call
  deletes : DeleteAnswer → Call

-- The calls, newest first, one after the other on a client that no other caller holds.
pub negotiated : Text → Answer → Shared → Shared
negotiated aztoken answer s = record s {
  client = (negotiate answer s.client).0;
  exchanges = record { request = token_request aztoken s.client; answer = answer } ∷ s.exchanges;
}

pub deleted : DeleteAnswer → Shared → Shared
deleted answer s =
    let (c, request, error) = close_session answer s.client in
    record s { client = c; deletions = detached request s.deletions }

pub serial : SessionClient → List Call → Shared
unfolding negotiated deleted
serial c [] = share c
serial c (negotiates aztoken answer ∷ calls) = negotiated aztoken answer (serial c calls)
serial c (deletes answer ∷ calls) = deleted answer (serial c calls)

-- The mutex is locked exactly while one caller waits, and none but one does; its request is that of the
-- present state.
abbrev pub WaitersOk : Bool → List Waiter → SessionClient → Type 0
WaitersOk false [] c = Unit
WaitersOk true (w ∷ []) c = w.sent ≡ token_request w.aztoken c
WaitersOk locked waiters c = ⊥

-- The state without its mutex and its waiters.
abbrev pub settled : Shared → Shared
settled s = record s { locked = false; waiters = [] }

abbrev Serves : SessionClient → Shared → List Call → Type 0
Serves c s calls = (settled s ≡ serial c calls) × WaitersOk s.locked s.waiters s.client

send-Serves :
    (c : SessionClient) (s : Shared) (l : Bool) (ws : List Waiter) (caller : ℕ) (aztoken : Text)
    (calls : List Call)
    → s.locked ≡ l
    → s.waiters ≡ ws
    → Serves c s calls
    → Serves c (send caller aztoken s) calls
unfolding send
send-Serves c s true ws caller aztoken calls el ew h =
    let held : WaitersOk true s.waiters s.client = rw el at h.1 in simp el (h.0, held)
send-Serves c s false [] caller aztoken calls el ew h = rw (el, ew) (h.0, refl)
send-Serves c s false (w ∷ ws) caller aztoken calls el ew h = ground arith

received :
    (s : Shared) (w : Waiter) (answer : Answer)
    → w.sent ≡ token_request w.aztoken s.client
    → record s {
      client = (negotiate answer s.client).0;
      locked = false;
      waiters = [];
      exchanges = record { request = w.sent; answer = answer } ∷ s.exchanges;
    }
      ≡ negotiated w.aztoken answer (settled s)
unfolding negotiated
received s w answer e = λ i. record s {
  client = (negotiate answer s.client).0;
  locked = false;
  waiters = [];
  exchanges = record { request = e i; answer = answer } ∷ s.exchanges;
}

receive-Serves :
    (c : SessionClient) (s : Shared) (l : Bool) (ws : List Waiter) (caller : ℕ) (answer : Answer)
    (calls : List Call)
    → s.locked ≡ l
    → s.waiters ≡ ws
    → Serves c s calls
    → (cs : List Call) × Serves c (receive caller answer (find_waiter caller ws) s) cs
unfolding receive serial find_waiter without
receive-Serves c s l [] caller answer calls el ew h = (calls, h)
receive-Serves c s false (w ∷ ws) caller answer calls el ew h = ground arith
receive-Serves c s true (w ∷ v ∷ ws) caller answer calls el ew h = ground arith
receive-Serves c s true (w ∷ []) caller answer calls el ew h =
    elim (Bool-cases (w.caller == caller)) [
      | inr other ↦ (calls, simp other h)
      | inl mine ↦
          let sent : w.sent ≡ token_request w.aztoken s.client = rw (el, ew) at h.1 in
          (
            negotiates w.aztoken answer ∷ calls,
            simp (mine, ew) (received s w answer sent ∙ ap (negotiated w.aztoken answer) h.0, tt),
          )
    ]

close_shared-Serves :
    (c : SessionClient) (s : Shared) (l : Bool) (ws : List Waiter) (answer : DeleteAnswer)
    (calls : List Call)
    → s.locked ≡ l
    → s.waiters ≡ ws
    → Serves c s calls
    → (cs : List Call) × Serves c (close_shared answer s) cs
unfolding close_shared serial deleted
close_shared-Serves c s true ws answer calls el ew h =
    let held : WaitersOk true s.waiters s.client = rw el at h.1 in (calls, simp el (h.0, held))
close_shared-Serves c s false (w ∷ ws) answer calls el ew h = ground arith
close_shared-Serves c s false [] answer calls el ew h =
    (deletes answer ∷ calls, rw (el, ew) (ap (deleted answer) h.0, tt))

step-Serves :
    (c : SessionClient) (s : Shared) (e : Event) (calls : List Call)
    → Serves c s calls
    → (cs : List Call) × Serves c (step s e) cs
unfolding step
step-Serves c s (sends caller aztoken) calls h =
    (calls, send-Serves c s s.locked s.waiters caller aztoken calls refl refl h)
step-Serves c s (receives caller answer) calls h =
    receive-Serves c s s.locked s.waiters caller answer calls refl refl h
step-Serves c s (closes answer) calls h =
    close_shared-Serves c s s.locked s.waiters answer calls refl refl h

run-Serves :
    (c : SessionClient) (s : Shared) (es : List Event) (calls : List Call)
    → Serves c s calls
    → (cs : List Call) × Serves c (run s es) cs
unfolding run
run-Serves c s [] calls h = (calls, h)
run-Serves c s (e ∷ es) calls h =
    let (cs, k) = step-Serves c s e calls h in run-Serves c (step s e) es cs k

-- Refinement: whatever the order in which the callers of negotiate send, receive and give up, and in
-- which the session is closed, the client's state, the negotiations that the data plane has answered
-- and the deletions that were asked for are those of some sequence of calls that follow each other
-- without interruption; and at most one request is under way, exactly while the mutex is locked, and it
-- carries the tokens of the present state.
pub run-serial :
    (c : SessionClient) (es : List Event)
    → let s = run (share c) es in
      (calls : List Call) × (settled s ≡ serial c calls) × WaitersOk s.locked s.waiters s.client
unfolding serial
run-serial c es =
    let (calls, (same, ok_holder)) = run-Serves c (share c) es [] (refl, tt) in
    (calls, same, ok_holder)

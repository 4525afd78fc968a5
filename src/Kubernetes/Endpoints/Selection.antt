-- ===== src/Kubernetes/Endpoints/Selection.antt =====
-- internal/kubernetes/endpoints.go: which pod and which port are selected.
use mathlib.Core.List.{Memᴰ}
use mathlib.Core.List.Memᴰ
use terraform_provider_tunne.Base.{
  ℕ, ◌≤◌, ◌≡◌, ◌≢◌, refl, sym, ap, ◌∙◌, ◌↔◌, ◌⊎◌, inl, inr, true, false, Option, none, some, List,
  [], ◌∷◌, arith, Bool-cases, ℤ, pos,
}
use terraform_provider_tunne.Errors.{Error, Result-cases, Result, ok, err, is_ok}
use terraform_provider_tunne.GoText.{Text}
use terraform_provider_tunne.Kubernetes.Endpoints.{
  Pod, Service, Endpoint, text_lt, sort_pods, is_nil, pod_ready, find_service_port,
  resolve_pod_port, select_pod, resolve_endpoint,
}
use terraform_provider_tunne.Kubernetes.Endpoints.Order.{
  IsSorted, Below, sort_pods-IsSorted, mem-sort_pods, text_le_antisymm, text_lt_irrefl,
}

-- The pod is ready and its port is known.
abbrev pub Usable : (Pod → Result ℤ) → Pod → ℤ → Type 0
Usable port_of p port = (pod_ready p ≡ true) × (port_of p ≡ ok port)

-- `e` is a usable pod of the list, and no usable pod of the list has a smaller name.
abbrev pub IsFirst : (Pod → Result ℤ) → List Pod → Endpoint → Type 0
IsFirst port_of ps e =
    ((p : Pod) × Memᴰ p ps × (p.name ≡ e.pod) × Usable port_of p e.endpoint_port)
    × ((q : Pod) (port : ℤ) → Memᴰ q ps → Usable port_of q port → text_lt q.name e.pod ≡ false)

module _ (port_of : Pod → Result ℤ) where
  -- One round of the loop: the pod is passed over, or it is the answer.
  select_pod-cons :
      (p : Pod) (ps : List Pod) (port_err : Option Error)
      → ((next : Option Error) × (select_pod port_of port_err (p ∷ ps) ≡ select_pod port_of next ps)
          × ((port : ℤ) → Usable port_of p port → ⊥))
        ⊎ ((port : ℤ) × Usable port_of p port
            × (select_pod port_of port_err (p ∷ ps)
                ≡ ok (record { pod = p.name; endpoint_port = port })))
  unfolding select_pod
  select_pod-cons p ps port_err = elim (Bool-cases (pod_ready p)) [
    | inr unready ↦ inl (port_err, rw unready, λ port u. cc)
    | inl ready ↦ elim (Result-cases (port_of p)) [
      | inl (e, failed) ↦ inl (some e, rw (ready, failed), λ port u. ground arith)
      | inr (port, found) ↦ inr (port, (ready, found), rw (ready, found))
    ]
  ]

  IsFirst-head :
      (p : Pod) (ps : List Pod) (port : ℤ) {e : Endpoint}
      → Below p ps
      → Usable port_of p port
      → record { pod = p.name; endpoint_port = port } ≡ e
      → IsFirst port_of (p ∷ ps) e
  IsFirst-head p ps port low u h = rw (sym h) (
    (p, Memᴰ.head refl, refl, u),
    λ q z m v. elim (Memᴰ.cases_cons m) [ inl e ↦ rw e (text_lt_irrefl p.name) | inr n ↦ low q n ],
  )

  pub select_pod-IsFirst :
      (ps : List Pod) (port_err : Option Error) {e : Endpoint}
      → IsSorted ps
      → select_pod port_of port_err ps ≡ ok e
      → IsFirst port_of ps e
  unfolding select_pod
  select_pod-IsFirst [] none s h = cc
  select_pod-IsFirst [] (some f) s h = cc
  select_pod-IsFirst (p ∷ ps) port_err {e} s h = elim (select_pod-cons p ps port_err) [
    | inl (next, passed, unusable) ↦
        let ((q, m, named, u), low) = select_pod-IsFirst ps next s.1 (sym passed ∙ h) in
        (
          (q, Memᴰ.tail m, named, u),
          λ r port k v. elim (Memᴰ.cases_cons k) [
            | inl r_eq ↦ elim (unusable port (rw (sym r_eq) v)) [ ]
            | inr n ↦ low r port n v
          ],
        )
    | inr (port, u, found) ↦ IsFirst-head p ps port s.0 u (ground arith)
  ]

  pub select_pod_complete :
      (ps : List Pod) (port_err : Option Error) (q : Pod) (port : ℤ)
      → Memᴰ q ps
      → Usable port_of q port
      → is_ok (select_pod port_of port_err ps) ≡ true
  select_pod_complete [] port_err q port m u = elim m [ ]
  select_pod_complete (p ∷ ps) port_err q port m u = elim (select_pod-cons p ps port_err) [
    | inl (next, passed, unusable) ↦ rw passed (elim (Memᴰ.cases_cons m) [
      | inl e ↦ elim (unusable port (rw (sym e) u)) [ ]
      | inr n ↦ select_pod_complete ps next q port n u
    ])
    | inr (found, v, e) ↦ rw e
  ]

  IsFirst-same :
      (ps qs : List Pod) {e : Endpoint}
      → ((q : Pod) → Memᴰ q ps ↔ Memᴰ q qs)
      → IsFirst port_of ps e
      → IsFirst port_of qs e
  IsFirst-same ps qs same ((p, m, named, u), low) =
      ((p, (same p).0 m, named, u), λ q z k v. low q z ((same q).1 k) v)

  same_endpoint : {e f : Endpoint} → e.pod ≡ f.pod → e.endpoint_port ≡ f.endpoint_port → e ≡ f
  same_endpoint pods ports i = record { pod = pods i; endpoint_port = ports i }

  -- The first pod is unique where the names are.
  IsFirst-unique :
      (ps : List Pod) {e f : Endpoint}
      → ((p q : Pod) → Memᴰ p ps → Memᴰ q ps → p.name ≡ q.name → p ≡ q)
      → IsFirst port_of ps e
      → IsFirst port_of ps f
      → e ≡ f
  IsFirst-unique ps {e} {f} unique ((p, m, named, u), low) ((q, k, called, v), least) =
      let below : text_lt p.name q.name ≡ false = rw called (least p e.endpoint_port m u) in
      let above : text_lt q.name p.name ≡ false = rw named (low q f.endpoint_port k v) in
      let same = unique p q m k (text_le_antisymm p.name q.name below above) in
      let pods : e.pod ≡ f.pod = sym named ∙ ap (λ r. r.name) same ∙ called in
      let found : port_of q ≡ ok e.endpoint_port = ap port_of (sym same) ∙ u.1 in
      let ports : e.endpoint_port ≡ f.endpoint_port = cc in same_endpoint pods ports

-- A list of pods with the same members.
abbrev pub SameMembers : List Pod → List Pod → Type 0
SameMembers ps qs = (q : Pod) → Memᴰ q ps ↔ Memᴰ q qs

-- How the pods' ports are found for a service.
abbrev pub port_for : Service → ℤ → Pod → Result ℤ
port_for s target p = resolve_pod_port p target (find_service_port s.ports target)

nil_selector : (s : List (Text × Text)) → (is_nil s ≡ false) ↔ (s ≢ [])
unfolding is_nil
nil_selector [] = (λ h. cc, λ h. elim (h refl) [ ])
nil_selector (kv ∷ rest) = (λ h e. cc, λ h. refl)

-- With a selector and an answer, the pods are gone through.
resolve_endpoint-listed :
    (target : ℤ) (s : Service) (pods : List (Text × Text) → Result (List Pod)) (items : List Pod)
    → is_nil s.selector ≡ false
    → pods s.selector ≡ ok items
    → resolve_endpoint target (ok s) pods ≡ select_pod (port_for s target) none (sort_pods items)
unfolding resolve_endpoint
resolve_endpoint-listed target s pods items n h = rw (n, h)

resolve_endpoint-asks :
    (target : ℤ) (s : Service) (pods : List (Text × Text) → Result (List Pod)) {e : Endpoint}
    → resolve_endpoint target (ok s) pods ≡ ok e
    → (is_nil s.selector ≡ false) × (items : List Pod) × (pods s.selector ≡ ok items)
unfolding resolve_endpoint
resolve_endpoint-asks target s pods h = ground arith

-- When an endpoint is resolved, the service has a selector, and the endpoint names a ready pod that
-- was listed for that selector, with the port found for that pod; no listed pod with a smaller name
-- is ready and has its port found.
pub resolve_endpoint-IsFirst :
    (target : ℤ) (s : Service) (pods : List (Text × Text) → Result (List Pod)) {e : Endpoint}
    → resolve_endpoint target (ok s) pods ≡ ok e
    → (items : List Pod) × (pods s.selector ≡ ok items)
      × (s.selector ≢ [])
      × IsFirst (port_for s target) items e
resolve_endpoint-IsFirst target s pods h =
    let (n, items, listed) = resolve_endpoint-asks target s pods h in
    (
      items,
      listed,
      (nil_selector s.selector).0 n,
      IsFirst-same (port_for s target) (sort_pods items) items (mem-sort_pods items) (
          select_pod-IsFirst (port_for s target) (sort_pods items) none (sort_pods-IsSorted items)
            (sym (resolve_endpoint-listed target s pods items n listed) ∙ h)),
    )

-- An endpoint is resolved whenever the service has a selector and one of the listed pods is ready
-- and has its port found; no other pod prevents it.
pub resolve_endpoint_complete :
    (target : ℤ) (s : Service) (pods : List (Text × Text) → Result (List Pod)) (items : List Pod)
    (q : Pod) (port : ℤ)
    → s.selector ≢ []
    → pods s.selector ≡ ok items
    → Memᴰ q items
    → Usable (port_for s target) q port
    → is_ok (resolve_endpoint target (ok s) pods) ≡ true
resolve_endpoint_complete target s pods items q port n h m u =
    rw (resolve_endpoint-listed target s pods items ((nil_selector s.selector).1 n) h) (
      select_pod_complete (port_for s target) (sort_pods items) none q port
        ((mem-sort_pods items q).1 m) u)

is_ok_result : (r : Result Endpoint) → is_ok r ≡ true → (e : Endpoint) × (r ≡ ok e)
is_ok_result (err e) h = cc
is_ok_result (ok e) h = (e, refl)

-- The endpoint does not depend on the order in which the pods are listed, when no two pods of the
-- namespace have the same name.
pub resolve_endpoint-order :
    (target : ℤ) (s : Service) (pods other : List (Text × Text) → Result (List Pod))
    (ps qs : List Pod) {e : Endpoint}
    → pods s.selector ≡ ok ps
    → other s.selector ≡ ok qs
    → SameMembers ps qs
    → ((p q : Pod) → Memᴰ p ps → Memᴰ q ps → p.name ≡ q.name → p ≡ q)
    → resolve_endpoint target (ok s) pods ≡ ok e
    → resolve_endpoint target (ok s) other ≡ ok e
resolve_endpoint-order target s pods other ps qs {e} h k same unique r =
    let (items, listed, n, ((p, m, named, u), low)) = resolve_endpoint-IsFirst target s pods r in
    let items_eq : items ≡ ps = cc in
    let found =
      resolve_endpoint_complete target s other qs p e.endpoint_port n k
        ((same p).0 (rw (sym items_eq) m)) u in
    let (f, f_eq) = is_ok_result (resolve_endpoint target (ok s) other) found in
    let (others, listed_too, n_too, first) = resolve_endpoint-IsFirst target s other f_eq in
    let others_eq : others ≡ qs = cc in
    let of_e : IsFirst (port_for s target) ps e = rw (sym items_eq) ((p, m, named, u), low) in
    let of_f : IsFirst (port_for s target) ps f =
      IsFirst-same (port_for s target) qs ps (λ q. ((same q).1, (same q).0))
        (rw (sym others_eq) first) in
    f_eq ∙ ap ok (IsFirst-unique (port_for s target) ps unique of_f of_e)

-- A port from 1 to 65535 that the service does not expose is forwarded to unchanged.
pub resolve_pod_port-direct :
    (p : Pod) (port : ℕ) → port ≤ 65535 → resolve_pod_port p (pos port) none ≡ ok (pos port)
unfolding resolve_pod_port
resolve_pod_port-direct p port h = ground arith

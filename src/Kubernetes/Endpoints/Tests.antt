-- ===== src/Kubernetes/Endpoints/Tests.antt =====
-- The pods of internal/kubernetes/endpoints_test.go: web-a has no port named http, web-b has.
use mathlib.Core.List.{Memᴰ}
use terraform_provider_tunne.Base.{
  ◌≡◌, ◌≢◌, refl, sym, ap, ◌∙◌, true, false, none, List, [], ◌∷◌, arith, pos,
}
use terraform_provider_tunne.Errors.{Result, ok, is_ok}
use terraform_provider_tunne.GoText.{Text, lit}
use terraform_provider_tunne.Kubernetes.Endpoints.{
  Pod, Service, ContainerPort, Endpoint, named_port, pod_ready_type, condition_true, pod_running,
  sort_pods, pod_ready, find_service_port, resolve_pod_port, select_pod, resolve_endpoint,
  named_container_port,
}
use terraform_provider_tunne.Kubernetes.Endpoints.Selection.{
  IsFirst, Usable, port_for, resolve_endpoint-IsFirst, resolve_endpoint_complete,
  resolve_endpoint-order, resolve_pod_port-direct,
}

abbrev pod_with : Text → List (List ContainerPort) → Pod
pod_with name containers = record {
  name = name;
  deleting = false;
  phase = pod_running;
  conditions = (pod_ready_type, condition_true) ∷ [];
  containers = containers;
}

abbrev http : ContainerPort
http = record { container_port_name = lit "http"; container_port = pos 9090 }

abbrev web_a : Pod
web_a = pod_with (lit "web-a") []

abbrev web_b : Pod
web_b = pod_with (lit "web-b") ((http ∷ []) ∷ [])

abbrev web : Service
web = record {
  selector = (lit "app", lit "web") ∷ [];
  ports = record { port_name = lit "http"; port = pos 80; target = named_port (lit "http") } ∷ [];
}

abbrev listed : List (Text × Text) → Result (List Pod)
listed selector = ok (web_b ∷ web_a ∷ [])

abbrev listed_again : List (Text × Text) → Result (List Pod)
listed_again selector = ok (web_a ∷ web_b ∷ [])

abbrev chosen : Endpoint
chosen = record { pod = lit "web-b"; endpoint_port = pos 9090 }

resolved : resolve_endpoint (pos 80) (ok web) listed ≡ ok chosen
unfolding resolve_endpoint select_pod sort_pods pod_ready resolve_pod_port find_service_port
    named_container_port
resolved = refl

resolve_endpoint-IsFirst_example :
    (items : List Pod) × (listed web.selector ≡ ok items)
    × (web.selector ≢ [])
    × IsFirst (port_for web (pos 80)) items chosen
resolve_endpoint-IsFirst_example = resolve_endpoint-IsFirst (pos 80) web listed resolved

has_selector : web.selector ≢ []
has_selector e = cc

Usable-web_b : Usable (port_for web (pos 80)) web_b (pos 9090)
unfolding pod_ready resolve_pod_port find_service_port named_container_port
Usable-web_b = (refl, refl)

resolve_endpoint_complete_example : is_ok (resolve_endpoint (pos 80) (ok web) listed) ≡ true
resolve_endpoint_complete_example =
    resolve_endpoint_complete (pos 80) web listed (web_b ∷ web_a ∷ []) web_b (pos 9090) has_selector
      refl (Memᴰ.head refl) Usable-web_b

swapped : (q a b : Pod) → Memᴰ q (a ∷ b ∷ []) → Memᴰ q (b ∷ a ∷ [])
swapped q a b (Memᴰ.head e) = Memᴰ.tail (Memᴰ.head e)
swapped q a b (Memᴰ.tail (Memᴰ.head e)) = Memᴰ.head e
swapped q a b (Memᴰ.tail (Memᴰ.tail m)) = elim m [ ]

-- Names that differ tell the two pods apart.
named_once :
    (p q a b : Pod)
    → a.name ≢ b.name
    → Memᴰ p (a ∷ b ∷ [])
    → Memᴰ q (a ∷ b ∷ [])
    → p.name ≡ q.name
    → p ≡ q
named_once p q a b n (Memᴰ.head e) (Memᴰ.head f) h = e ∙ sym f
named_once p q a b n (Memᴰ.head e) (Memᴰ.tail (Memᴰ.head f)) h =
    elim (n (ap (λ r. r.name) (sym e) ∙ h ∙ ap (λ r. r.name) f)) [ ]
named_once p q a b n (Memᴰ.tail (Memᴰ.head e)) (Memᴰ.head f) h =
    elim (n (ap (λ r. r.name) (sym f) ∙ sym h ∙ ap (λ r. r.name) e)) [ ]
named_once p q a b n (Memᴰ.tail (Memᴰ.head e)) (Memᴰ.tail (Memᴰ.head f)) h = e ∙ sym f
named_once p q a b n (Memᴰ.tail (Memᴰ.tail m)) k h = elim m [ ]
named_once p q a b n (Memᴰ.head e) (Memᴰ.tail (Memᴰ.tail k)) h = elim k [ ]
named_once p q a b n (Memᴰ.tail (Memᴰ.head e)) (Memᴰ.tail (Memᴰ.tail k)) h = elim k [ ]

names_differ : web_b.name ≢ web_a.name
names_differ h = ground arith

resolve_endpoint-order_example : resolve_endpoint (pos 80) (ok web) listed_again ≡ ok chosen
resolve_endpoint-order_example =
    resolve_endpoint-order (pos 80) web listed listed_again (web_b ∷ web_a ∷ [])
      (web_a ∷ web_b ∷ []) refl refl (λ q. (swapped q web_b web_a, swapped q web_a web_b))
      (λ p q. named_once p q web_b web_a names_differ) resolved

resolve_pod_port-direct_example : resolve_pod_port web_a (pos 9153) none ≡ ok (pos 9153)
resolve_pod_port-direct_example = resolve_pod_port-direct web_a 9153 (omega arith)

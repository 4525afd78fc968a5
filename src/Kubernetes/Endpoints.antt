-- ===== src/Kubernetes/Endpoints.antt =====
-- internal/kubernetes/endpoints.go: one ready pod and its port. What the API server answers is an
-- argument; ports are int32, and `sort.Slice` is an insertion sort by name.
pub mod Selection
pub mod Order
mod Tests
use terraform_provider_tunne.Base.{
  ℕ, Bool, true, false, not, ◌&&◌, ◌||◌, Option, none, some, List, [], ◌∷◌, ◌++◌, ltb, ◌==◌,
  if◌then◌else◌, ℤ, pos, eqℤ, to_int32,
}
use terraform_provider_tunne.Errors.{
  Error, message, wrap, get_service, no_selector, list_pods, resolve_target_port, no_ready_pods,
  no_container_port, bad_target_port, Result, ok, err, wrap_err, fail_if, ◌>>=◌, ◌>>◌,
}
use terraform_provider_tunne.GoText.{Text, lit, text_eq, itoa, join}

-- intstr.IntOrString, and a value of neither type.
pub data TargetPort : Type 0 where
  int_port : ℤ → TargetPort
  named_port : Text → TargetPort
  other_port : TargetPort

pub record ServicePort : Type 0 where
  pub port_name : Text
  pub port : ℤ
  pub target : TargetPort

pub record Service : Type 0 where
  pub selector : List (Text × Text)
  pub ports : List ServicePort

pub record ContainerPort : Type 0 where
  pub container_port_name : Text
  pub container_port : ℤ

pub data ConditionType : Type 0 where
  pod_ready_type other_type : ConditionType

pub data ConditionStatus : Type 0 where
  condition_true condition_false condition_unknown : ConditionStatus

pub data PodPhase : Type 0 where
  pod_running other_phase : PodPhase

pub record Pod : Type 0 where
  pub name : Text
  pub deleting : Bool  -- DeletionTimestamp is set
  pub phase : PodPhase
  pub conditions : List (ConditionType × ConditionStatus)
  pub containers : List (List ContainerPort)

pub record Endpoint : Type 0 where
  pub pod : Text
  pub endpoint_port : ℤ

-- `Endpoint.String`
pub endpoint_text : Endpoint → Text
endpoint_text e = e.pod ++ (lit ":" ++ itoa e.endpoint_port)

-- `a < b` of Go's strings.
pub text_lt : Text → Text → Bool
text_lt s [] = false
text_lt [] (d ∷ t) = true
text_lt (c ∷ s) (d ∷ t) = ltb c d || (c == d && text_lt s t)

insert_pod : Pod → List Pod → List Pod
insert_pod p [] = p ∷ []
insert_pod p (q ∷ qs) = if text_lt q.name p.name then q ∷ insert_pod p qs else p ∷ q ∷ qs

unfoldable pub sort_pods : List Pod → List Pod
unfolding insert_pod text_lt
sort_pods [] = []
sort_pods (p ∷ ps) = insert_pod p (sort_pods ps)

ready_condition : List (ConditionType × ConditionStatus) → Bool
ready_condition [] = false
ready_condition ((pod_ready_type, condition_true) ∷ rest) = true
ready_condition ((pod_ready_type, condition_false) ∷ rest) = false
ready_condition ((pod_ready_type, condition_unknown) ∷ rest) = false
ready_condition ((other_type, status) ∷ rest) = ready_condition rest

is_running : PodPhase → Bool
is_running pod_running = true
is_running other_phase = false

unfoldable pub pod_ready : Pod → Bool
unfolding ready_condition is_running
pod_ready p = not p.deleting && is_running p.phase && ready_condition p.conditions

unfoldable pub find_service_port : List ServicePort → ℤ → Option ServicePort
find_service_port [] port = none
find_service_port (p ∷ ps) port = if eqℤ p.port port then some p else find_service_port ps port

port_in : Text → List ContainerPort → Option ℤ
port_in name [] = none
port_in name (p ∷ ps) =
    if text_eq p.container_port_name name then some p.container_port else port_in name ps

or_else : Option ℤ → Option ℤ → Option ℤ
or_else none next = next
or_else (some z) next = some z

pub named_container_port : Text → List (List ContainerPort) → Option ℤ
unfolding port_in or_else text_eq
named_container_port name [] = none
named_container_port name (c ∷ cs) = or_else (port_in name c) (named_container_port name cs)

found_port : Option ℤ → Result ℤ
found_port none = err (message no_container_port)
found_port (some z) = ok z

by_target : Pod → ServicePort → TargetPort → Result ℤ
unfolding found_port
by_target pod sp (int_port z) = ok (if eqℤ z (pos 0) then sp.port else z)
by_target pod sp (named_port name) = found_port (named_container_port name pod.containers)
by_target pod sp other_port = err (message bad_target_port)

unfoldable pub resolve_pod_port : Pod → ℤ → Option ServicePort → Result ℤ
unfolding by_target
resolve_pod_port pod configured none = ok (to_int32 configured)
resolve_pod_port pod configured (some sp) = by_target pod sp sp.target

no_endpoint : Option Error → Result Endpoint
no_endpoint none = err (message no_ready_pods)
no_endpoint (some e) = err (wrap resolve_target_port e)

-- The loop over the sorted pods; the first argument is `portErr`.
unfoldable pub select_pod : (Pod → Result ℤ) → Option Error → List Pod → Result Endpoint
unfolding no_endpoint
select_pod port_of port_err [] = no_endpoint port_err
select_pod port_of port_err (p ∷ ps) =
    let skip = select_pod port_of port_err ps in
    let failed = λ (e : Error). select_pod port_of (some e) ps in
    if pod_ready p
    then (elim (port_of p) [
      | err e ↦ failed e
      | ok port ↦ ok (record { pod = p.name; endpoint_port = port })
    ])
    else skip

is_nil : List (Text × Text) → Bool
is_nil [] = true
is_nil (x ∷ xs) = false

-- `resolveEndpoint`: what the service and the pods that match its selector are read as.
unfoldable pub resolve_endpoint :
    ℤ → Result Service → (List (Text × Text) → Result (List Pod)) → Result Endpoint
unfolding is_nil
resolve_endpoint target_port service pods = do
  s ← wrap_err get_service service
  fail_if (is_nil s.selector) no_selector
  items ← wrap_err list_pods (pods s.selector)
  let service_port = find_service_port s.ports target_port
  select_pod (λ p. resolve_pod_port p target_port service_port) none (sort_pods items)

describe_named : ℤ → Text → Text
describe_named port [] = itoa port
describe_named port (c ∷ name) = itoa port ++ (lit " (" ++ ((c ∷ name) ++ lit ")"))

describe_port : ServicePort → Text
describe_port p = describe_named p.port p.port_name

describe_all : List ServicePort → List Text
describe_all [] = []
describe_all (p ∷ ps) = describe_port p ∷ describe_all ps

-- `describeServicePorts`
pub describe_service_ports : List ServicePort → Text
unfolding describe_all describe_port
describe_service_ports [] = lit "none"
describe_service_ports (p ∷ ps) = join (lit ", ") (describe_all (p ∷ ps))

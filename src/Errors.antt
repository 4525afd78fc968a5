-- ===== src/Errors.antt =====
-- Go's `error` values. An error carries the message that its place in the source gives it; the
-- values that a message prints (paths, ports, names) are left out.
use terraform_provider_tunne.Base.{
  ℕ, ◌≡◌, refl, ◌⊎◌, inl, inr, Bool, true, false, Option, none, some,
}

-- One constructor for each text of an `errors.New` or `fmt.Errorf` in the source.
pub data Message : Type 0 where
  -- internal/libs
  process_died process_exited check_readiness wait_readiness not_ready : Message
  wait_port port_not_accepting signal_readiness accept_local check_log not_tcp_addr : Message
  -- internal/runner
  missing_configuration missing_parent_pid invalid_parent_pid unknown_tunnel_type : Message
  -- internal/ssh
  connect_bastion listen_on connect_target no_credentials read_key_file parse_encrypted_key :
      Message
  parse_key connect_agent agent_dropped_key : Message
  -- internal/ssm
  missing_session_parameters : Message
  -- internal/azurebastion
  not_bastion_host one_target target_resource_id target_name target_ip_invalid : Message
  target_port_range local_port_range ip_connect_port read_bastion unsupported_sku : Message
  tunneling_disabled ip_connect_disabled no_dns_endpoint credential_chain arm_client : Message
  listen_local invalid_endpoint connect_websocket acquire_credential create_token_request : Message
  send_token_request read_token_response token_status token_fields cleanup_request : Message
  send_cleanup cleanup_status : Message
  -- internal/kubernetes
  get_service no_selector list_pods resolve_target_port no_ready_pods no_container_port : Message
  bad_target_port start_port_forward port_forward_ended client_go_stopped : Message
  round_tripper port_forwarder load_kubeconfig create_client : Message

pub data Error : Type 0 where
  canceled deadline_exceeded : Error  -- context.Canceled, context.DeadlineExceeded
  net_closed : Error  -- net.ErrClosed
  not_exist : Error  -- os.ErrNotExist
  external : ℕ → Error  -- any other error that a library returns
  message : Message → Error  -- errors.New(m)
  wrap : Message → Error → Error  -- fmt.Errorf("m: %w", err)

-- `errors.Is(err, net.ErrClosed)` and `errors.Is(err, os.ErrNotExist)`, through the wrapping.
abbrev pub is_net_closed : Error → Bool
is_net_closed net_closed = true
is_net_closed (wrap m e) = is_net_closed e
is_net_closed canceled = false
is_net_closed deadline_exceeded = false
is_net_closed not_exist = false
is_net_closed (external n) = false
is_net_closed (message m) = false

abbrev pub is_not_exist : Error → Bool
is_not_exist not_exist = true
is_not_exist (wrap m e) = is_not_exist e
is_not_exist canceled = false
is_not_exist deadline_exceeded = false
is_not_exist net_closed = false
is_not_exist (external n) = false
is_not_exist (message m) = false

-- A Go function's `(T, error)`; a Go function's lone `error` is an `Option Error`.
pub data Result {ℓ} (T : Type ℓ) : Type ℓ where
  err : Error → Result T
  ok : T → Result T

-- The error that a result carries.
abbrev pub error_of {ℓ} : {T : Type ℓ} → Result T → Option Error
error_of (err e) = some e
error_of (ok t) = none

abbrev pub is_ok {ℓ} : {T : Type ℓ} → Result T → Bool
is_ok (err e) = false
is_ok (ok t) = true

-- To split on a computed result and keep the equation.
pub Result-cases {ℓ} :
    {T : Type ℓ} (r : Result T) → ((e : Error) × (r ≡ err e)) ⊎ ((t : T) × (r ≡ ok t))
Result-cases (err e) = inl (e, refl)
Result-cases (ok t) = inr (t, refl)

-- `if test { return …, errors.New(m) }`
abbrev pub fail_if : Bool → Message → Result (Unit {0})
fail_if true m = err (message m)
fail_if false m = ok tt

-- `if err != nil { return …, fmt.Errorf("m: %w", err) }`
abbrev pub wrap_err {ℓ} : {T : Type ℓ} → Message → Result T → Result T
wrap_err m (err e) = err (wrap m e)
wrap_err m (ok t) = ok t

-- `if err := f(); err != nil { return …, err }`
abbrev pub check : Option Error → Result (Unit {0})
check none = ok tt
check (some e) = err e

-- The chain of Go's early returns on an error.
infixl 5 ◌>>=◌ ◌>>◌
abbrev pub ◌>>=◌ {ℓ κ} : {T : Type ℓ} {U : Type κ} → Result T → (T → Result U) → Result U
r >>= next = elim r [ err e ↦ err e | ok t ↦ next t ]

abbrev pub ◌>>◌ {ℓ} : {U : Type ℓ} → Result (Unit {0}) → Result U → Result U
r >> next = elim r [ err e ↦ err e | ok done ↦ next ]

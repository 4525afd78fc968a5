-- ===== src/Provider.antt =====
-- internal/provider: what Terraform configures, and the tunnels that are opened for it. This file
-- has the attribute values and the diagnostics of terraform-plugin-framework.
pub mod Ssh
pub mod Ssm
pub mod AzureBastion
pub mod Kubernetes
pub mod Lifecycle
pub mod Schema
pub mod Registry
use terraform_provider_tunne.Base.{
  ◌≡◌, refl, ◌⊎◌, inl, inr, Bool, true, false, not, ◌||◌, Option, none, some, List, [], ◌∷◌,
  if◌then◌else◌, ℤ, pos, eqℤ,
}
use terraform_provider_tunne.Errors.{Error, Result, ok, err}
use terraform_provider_tunne.GoText.{Text, is_empty}

-- types.String, types.Int64 and types.Bool.
pub data Attr (A : Type 0) : Type 0 where
  null unknown : Attr A
  value : A → Attr A

abbrev pub is_null : {A : Type 0} → Attr A → Bool
is_null null = true
is_null unknown = false
is_null (value a) = false

-- `ValueString`, `ValueInt64` and `ValueBool`: the zero value where there is none.
abbrev pub value_string : Attr Text → Text
value_string null = []
value_string unknown = []
value_string (value s) = s

abbrev pub value_int64 : Attr ℤ → ℤ
value_int64 null = pos 0
value_int64 unknown = pos 0
value_int64 (value z) = z

abbrev pub value_bool : Attr Bool → Bool
value_bool null = false
value_bool unknown = false
value_bool (value b) = b

-- `a.IsNull() || a.ValueString() == ""`
abbrev pub unset : Attr Text → Bool
unset a = is_null a || is_empty (value_string a)

-- One constructor for each summary of a `diags.AddError`, and the diagnostics of the framework.
pub data Diagnostic : Type 0 where
  no_local_port invalid_bastion : Error → Diagnostic
  conflicting_target missing_target missing_target_host : Diagnostic
  no_current_user : Error → Diagnostic
  host_required port_required : Diagnostic
  aws_sdk : Error → Diagnostic
  bad_target_port bad_local_port : Diagnostic
  framework : Error → Diagnostic
  fork_failed : Error → Diagnostic
  bad_tunnel_pid terminate_failed : Error → Diagnostic

-- `(T, diag.Diagnostics)`: the diagnostics have an error, or they have none and there is a `T`.
pub data Outcome (T : Type 0) : Type 0 where
  failed : List Diagnostic → Outcome T
  done : T → Outcome T

-- To split on a computed outcome and keep the equation.
pub Outcome-cases :
    {T : Type 0} (o : Outcome T)
    → ((ds : List Diagnostic) × (o ≡ failed ds)) ⊎ ((t : T) × (o ≡ done t))
Outcome-cases (failed ds) = inl (ds, refl)
Outcome-cases (done t) = inr (t, refl)

infixl 5 ◌>>=◌
abbrev pub ◌>>=◌ : {T U : Type 0} → Outcome T → (T → Outcome U) → Outcome U
o >>= next = elim o [ failed ds ↦ failed ds | done t ↦ next t ]

-- `if err != nil { diags.AddError(…); return … }`
abbrev pub or_fail : {T : Type 0} → (Error → Diagnostic) → Result T → Outcome T
or_fail d (err e) = failed (d e ∷ [])
or_fail d (ok t) = done t

-- A configured local port, or a free one where it is 0; `free` is what GetFreePort answers.
abbrev pub local_port_or : Result ℤ → ℤ → Outcome ℤ
local_port_or free port = if eqℤ port (pos 0) then or_fail no_local_port free else done port

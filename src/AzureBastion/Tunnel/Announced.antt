-- ===== src/AzureBastion/Tunnel/Announced.antt =====
-- internal/azurebastion/tunnel.go: what has happened by the time at which readiness is signalled.
use terraform_provider_tunne.Base.{
  ℕ, zero, suc, ◌≡◌, refl, inl, inr, not, Option, none, some, List, [], ◌∷◌, take, arith,
}
use terraform_provider_tunne.Errors.{Error, Result, ok, Result-cases}
use terraform_provider_tunne.Effects.{Happened, not_in_part}
use terraform_provider_tunne.GoText.{
  Text, lit, is_empty, or_default, itoa, join_host_port, trim_space,
}
use terraform_provider_tunne.AzureBastion.Config.{
  TunnelConfig, TunnelPlan, BastionInfo, Library, Response, resolve, discover_bastion,
  validate_bastion,
}
use terraform_provider_tunne.AzureBastion.Config.Validation.{
  resolve-local_host, SupportsTunnel, validate_bastion_iff,
}
use terraform_provider_tunne.AzureBastion.Tunnel.{
  Effect, open_client, listen, signal_ready, close_client, Calls, listening, serving,
  start_remote_tunnel,
}

abbrev plan_addr : TunnelPlan → Text
plan_addr plan = join_host_port plan.plan_local_host (itoa plan.plan_local_port)

-- The session is there, and the local address of the plan is bound.
abbrev IsBound : TunnelPlan → List Effect → Type 0
IsBound plan es = Happened open_client es × Happened (listen (plan_addr plan)) es

IsBound-by_signal :
    (plan : TunnelPlan) (n : ℕ) (es : List Effect)
    → let all = open_client ∷ listen (plan_addr plan) ∷ es in
      Happened signal_ready (take n all) → IsBound plan (take n all)
IsBound-by_signal plan zero es h = elim h [ ]
IsBound-by_signal plan (suc zero) es h = ground arith
IsBound-by_signal plan (suc (suc n)) es h = (inl refl, inr (inl refl))

-- One clause for each call that may fail behind the tests of the configuration.
bound :
    (lib : Library) (cfg : TunnelConfig) (plan : TunnelPlan) (info : BastionInfo)
    (w d c s l r v : Option Error) (response : Result Response) (n : ℕ)
    → resolve lib cfg ≡ ok plan
    → discover_bastion response ≡ ok info
    → validate_bastion info (not (is_empty plan.hostname)) ≡ ok tt
    → let es =
        take n
          (start_remote_tunnel lib cfg (record {
            watch = w;
            credential = d;
            client = c;
            response = response;
            session = s;
            listen_error = l;
            signal_error = r;
            serve_error = v;
          })).0 in
      Happened signal_ready es → IsBound plan es
unfolding start_remote_tunnel listening serving
bound lib cfg plan info (some x) d c s l r v resp n e f g =
    rw e (λ h. elim (not_in_part signal_ready n [] (λ k. k) h) [ ])
bound lib cfg plan info none (some x) c s l r v resp n e f g =
    rw e (λ h. elim (not_in_part signal_ready n [] (λ k. k) h) [ ])
bound lib cfg plan info none none (some x) s l r v resp n e f g =
    rw e (λ h. elim (not_in_part signal_ready n [] (λ k. k) h) [ ])
bound lib cfg plan info none none none (some x) l r v resp n e f g =
    rw (e, f, g) (λ h. elim (not_in_part signal_ready n [] (λ k. k) h) [ ])
bound lib cfg plan info none none none none (some x) r v resp n e f g =
    rw (e, f, g)
      (λ h.
        elim (not_in_part signal_ready n (open_client ∷ close_client ∷ []) (λ k. ground arith)
          h) [ ])
bound lib cfg plan info none none none none none (some x) v resp n e f g =
    rw (e, f, g) (λ h. IsBound-by_signal plan n _ h)
bound lib cfg plan info none none none none none none (some x) resp n e f g =
    rw (e, f, g) (λ h. IsBound-by_signal plan n _ h)
bound lib cfg plan info none none none none none none none resp n e f g =
    rw (e, f, g) (λ h. IsBound-by_signal plan n _ h)

no_signal :
    (n : ℕ) (es : List Effect) {P : Type 0}
    → (Happened signal_ready es → ⊥)
    → Happened signal_ready (take n es)
    → P
no_signal n es x h = elim (not_in_part signal_ready n es x h) [ ]

-- The configuration of a tunnel that is up, with its plan and its Bastion host.
abbrev pub IsUp : Library → TunnelConfig → Calls → List Effect → Type 0
IsUp lib cfg c es =
    (plan : TunnelPlan) × (info : BastionInfo) × (resolve lib cfg ≡ ok plan)
    × (discover_bastion c.response ≡ ok info)
    × SupportsTunnel info (not (is_empty plan.hostname))
    × Happened open_client es
    × Happened
        (listen (
          join_host_port (or_default (trim_space cfg.local_host) (lit "localhost"))
            (itoa cfg.local_port)))
        es

plan_addr-eq :
    (lib : Library) (cfg : TunnelConfig) (plan : TunnelPlan)
    → resolve lib cfg ≡ ok plan
    → plan_addr plan
      ≡ join_host_port
          (or_default (trim_space cfg.local_host) (lit "localhost"))
          (itoa cfg.local_port)
plan_addr-eq lib cfg plan h =
    let (host, port) = resolve-local_host lib cfg h in
    (λ i. join_host_port (host i) (itoa (port i)))

-- At any time at which the child has signalled readiness, the Bastion host has been found to support
-- the tunnel, the session is there, and the local address of the configuration is bound.
pub signalled-IsUp :
    (lib : Library) (cfg : TunnelConfig) (c : Calls) (n : ℕ)
    → let es = take n (start_remote_tunnel lib cfg c).0 in
      Happened signal_ready es → IsUp lib cfg c es
unfolding start_remote_tunnel listening serving
signalled-IsUp lib cfg c n h = elim (Result-cases (resolve lib cfg)) [
  | inl (e, refused) ↦ no_signal n (start_remote_tunnel lib cfg c).0 (λ k. ground arith) h
  | inr (plan, resolved) ↦ elim (Result-cases (discover_bastion c.response)) [
    | inl (e, unread) ↦ no_signal n (start_remote_tunnel lib cfg c).0 (λ k. ground arith) h
    | inr (info, read) ↦
        elim (Result-cases (validate_bastion info (not (is_empty plan.hostname)))) [
          | inl (e, invalid) ↦ no_signal n (start_remote_tunnel lib cfg c).0 (λ k. ground arith) h
          | inr (done, valid) ↦
              let (session, address) =
                bound lib cfg plan info c.watch c.credential c.client c.session c.listen_error
                  c.signal_error c.serve_error c.response n resolved read valid h in
              let at_address = plan_addr-eq lib cfg plan resolved in
              let supported = (validate_bastion_iff info (not (is_empty plan.hostname))).0 valid in
              (plan, info, resolved, read, supported, session, rw at_address at address)
        ]
  ]
]

-- ===== src/AzureBastion/Config/Validation.antt =====
-- internal/azurebastion/tunnel.go: which configurations are accepted.
use terraform_provider_tunne.Base.{
  ◌≤◌, ◌≡◌, ◌↔◌, refl, ◌⊎◌, inl, inr, Bool, true, false, [], arith, ℤ, pos, negsuc,
}
use terraform_provider_tunne.Errors.{Result, ok, err, is_ok}
use terraform_provider_tunne.GoText.{Text, lit, is_empty, or_default, trim_space}
use terraform_provider_tunne.GoText.Equality.{text_eq_iff}
use terraform_provider_tunne.AzureBastion.Config.{
  TunnelConfig, ResourceId, TunnelPlan, Library, is_set, equal_fold, is_bastion,
  parse_bastion_host_id, check_ports, resolve, validate, BastionInfo, validate_bastion,
}

-- A TCP port.
abbrev pub IsPort : ℤ → Type 0
IsPort (pos n) = (1 ≤ n) × (n ≤ 65535)
IsPort (negsuc n) = ⊥

ports_sound :
    (b : Bool) (t l : ℤ)
    → check_ports b t l ≡ ok tt
    → IsPort t × IsPort l × (b ≡ true → (t ≡ pos 22) ⊎ (t ≡ pos 3389))
unfolding check_ports
ports_sound b (negsuc t) l h = cc
ports_sound b (pos t) (negsuc l) h = ground arith
ports_sound b (pos t) (pos l) h = ground arith

ports_complete :
    (b : Bool) (t l : ℤ)
    → IsPort t
    → IsPort l
    → (b ≡ false) ⊎ ((t ≡ pos 22) ⊎ (t ≡ pos 3389))
    → check_ports b t l ≡ ok tt
unfolding check_ports
ports_complete b (negsuc t) l p q h = elim p [ ]
ports_complete b (pos t) (negsuc l) p q h = elim q [ ]
ports_complete b (pos t) (pos l) p q h = ground arith

-- Exactly one of the two targets is set, and that one can be used.
abbrev pub TargetOk : Library → TunnelConfig → Type 0
TargetOk lib c =
    ((is_set c.target_resource_id_of ≡ true)
      × (is_set c.target_ip_address ≡ false)
      × ((r : ResourceId) × (lib.parse_resource_id c.target_resource_id_of ≡ ok r)
          × (is_empty r.name ≡ false)))
    ⊎ ((is_set c.target_resource_id_of ≡ false)
        × (is_set c.target_ip_address ≡ true)
        × (lib.is_ip c.target_ip_address ≡ true)
        × ((c.target_port ≡ pos 22) ⊎ (c.target_port ≡ pos 3389)))

-- The text is the ID of a resource with a subscription, a group and a name, and of the type of the
-- Bastion hosts, in capitals or not.
abbrev pub NamesBastion : Library → Text → ResourceId → Type 0
NamesBastion lib id r =
    (lib.parse_resource_id id ≡ ok r)
    × (is_empty r.subscription_id ≡ false)
    × (is_empty r.resource_group_name ≡ false)
    × (is_empty r.name ≡ false)
    × (equal_fold r.resource_type (lit "Microsoft.Network/bastionHosts") ≡ true)

pub parse_bastion_host_id-eq-ok_iff :
    (lib : Library) (id : Text) (r : ResourceId)
    → (parse_bastion_host_id lib id ≡ ok r) ↔ NamesBastion lib id r
unfolding parse_bastion_host_id is_bastion
parse_bastion_host_id-eq-ok_iff lib id r = (λ h. ground arith, λ h. ground arith)

-- What the documentation asks of a configuration.
pub record Acceptable (lib : Library) (c : TunnelConfig) : Type 0 where
  pub bastion_ok : (r : ResourceId) × NamesBastion lib c.bastion_host_id r
  pub target_ok : TargetOk lib c
  pub target_port_ok : IsPort c.target_port
  pub local_port_ok : IsPort c.local_port

module _ (lib : Library) (c : TunnelConfig) where
  -- The local address of a plan.
  pub resolve-local_host :
      {p : TunnelPlan}
      → resolve lib c ≡ ok p
      → (p.plan_local_host ≡ or_default (trim_space c.local_host) (lit "localhost"))
        × (p.plan_local_port ≡ c.local_port)
  unfolding resolve
  resolve-local_host h = ground arith

  resolve_ports :
      {p : TunnelPlan}
      → resolve lib c ≡ ok p
      → check_ports (is_set c.target_ip_address) c.target_port c.local_port ≡ ok tt
  unfolding resolve
  resolve_ports h = ground arith

  resolve_bastion :
      {p : TunnelPlan}
      → resolve lib c ≡ ok p
      → parse_bastion_host_id lib c.bastion_host_id ≡ ok p.bastion
  unfolding resolve
  resolve_bastion h = ground arith

  resolve_target :
      {p : TunnelPlan}
      → resolve lib c ≡ ok p
      → ((is_set c.target_resource_id_of ≡ true)
          × (is_set c.target_ip_address ≡ false)
          × ((r : ResourceId) × (lib.parse_resource_id c.target_resource_id_of ≡ ok r)
              × (is_empty r.name ≡ false)))
        ⊎ ((is_set c.target_resource_id_of ≡ false)
            × (is_set c.target_ip_address ≡ true)
            × (lib.is_ip c.target_ip_address ≡ true))
  unfolding resolve
  resolve_target h = ground arith

  resolve_sound : {p : TunnelPlan} → resolve lib c ≡ ok p → Acceptable lib c
  resolve_sound {p} h =
      let (t, l, q) = ports_sound _ _ _ (resolve_ports h) in
      record {
        bastion_ok = (
          p.bastion,
          (parse_bastion_host_id-eq-ok_iff lib c.bastion_host_id p.bastion).0 (resolve_bastion h),
        );
        target_ok = with_port q (resolve_target h);
        target_port_ok = t;
        local_port_ok = l;
      }
    where
      with_port :
          (is_set c.target_ip_address ≡ true
            → (c.target_port ≡ pos 22) ⊎ (c.target_port ≡ pos 3389))
          → ((is_set c.target_resource_id_of ≡ true)
              × (is_set c.target_ip_address ≡ false)
              × ((r : ResourceId) × (lib.parse_resource_id c.target_resource_id_of ≡ ok r)
                  × (is_empty r.name ≡ false)))
            ⊎ ((is_set c.target_resource_id_of ≡ false)
                × (is_set c.target_ip_address ≡ true)
                × (lib.is_ip c.target_ip_address ≡ true))
          → TargetOk lib c
      with_port q (inl h) = inl h
      with_port q (inr (a, b, i)) = inr (a, b, i, q b)

  resolve_complete : Acceptable lib c → is_ok (resolve lib c) ≡ true
  unfolding resolve
  resolve_complete v = by_target v.target_ok
    where
      by_target : TargetOk lib c → is_ok (resolve lib c) ≡ true
      by_target (inl (a, b, r)) = ground (
        arith,
        (parse_bastion_host_id-eq-ok_iff lib c.bastion_host_id v.bastion_ok.0).1 v.bastion_ok.1,
        ports_complete false c.target_port c.local_port v.target_port_ok v.local_port_ok (inl refl),
      )
      by_target (inr (a, b, i, q)) = ground (
        arith,
        (parse_bastion_host_id-eq-ok_iff lib c.bastion_host_id v.bastion_ok.0).1 v.bastion_ok.1,
        ports_complete true c.target_port c.local_port v.target_port_ok v.local_port_ok (inr q),
      )

  validated : {u : Unit {0}} → validate lib c ≡ ok u → is_ok (resolve lib c) ≡ true
  unfolding validate
  validated h = ground arith

  validate_of : is_ok (resolve lib c) ≡ true → validate lib c ≡ ok tt
  unfolding validate
  validate_of h = ground arith

  ok_plan : (r : Result TunnelPlan) → is_ok r ≡ true → (p : TunnelPlan) × (r ≡ ok p)
  ok_plan (err e) h = cc
  ok_plan (ok p) h = (p, refl)

  -- A valid configuration has a plan.
  pub validate-plan :
      {u : Unit {0}} → validate lib c ≡ ok u → (p : TunnelPlan) × (resolve lib c ≡ ok p)
  validate-plan h = ok_plan (resolve lib c) (validated h)

  -- A configuration is accepted exactly if its Bastion ID is that of a resource of the type
  -- Microsoft.Network/bastionHosts, in capitals or not, with a subscription, a group and a name; exactly
  -- one of the two targets is set and can be used, and both ports lie between 1 and 65535; with an IP address
  -- as the target the target port must also be 22 or 3389.
  pub validate-Acceptable : (validate lib c ≡ ok tt) ↔ Acceptable lib c
  validate-Acceptable = (
    λ h. resolve_sound (ok_plan (resolve lib c) (validated h)).1,
    λ v. validate_of (resolve_complete v),
  )

module _ (lib : Library) (c : TunnelConfig) where
  -- The plan of an accepted configuration carries the ports over; its host name is the IP address
  -- of the target if that is set, and is empty for a resource, whose ID is then the plan's target.
  pub resolve-eq-ok :
      {p : TunnelPlan}
      → resolve lib c ≡ ok p
      → (p.plan_target_port ≡ c.target_port)
        × (p.plan_local_port ≡ c.local_port)
        × (((is_set c.target_ip_address ≡ true) × (p.hostname ≡ c.target_ip_address))
            ⊎ ((is_set c.target_ip_address ≡ false)
                × (p.hostname ≡ [])
                × (p.plan_target ≡ c.target_resource_id_of)))
  unfolding resolve
  resolve-eq-ok h = ground arith

-- The SKU is Standard or Premium, tunneling is enabled, IP Connect is enabled where the tunnel uses it,
-- and there is a DNS name.
abbrev pub SupportsTunnel : BastionInfo → Bool → Type 0
SupportsTunnel info ip =
    ((info.sku ≡ lit "Standard") ⊎ (info.sku ≡ lit "Premium"))
    × (info.enable_tunneling ≡ true)
    × ((ip ≡ false) ⊎ (info.enable_ip_connect ≡ true))
    × (is_empty info.dns_name ≡ false)

-- A Bastion host is accepted exactly if its SKU is Standard or Premium, tunneling is enabled,
-- IP Connect is enabled where the tunnel uses it, and it has a DNS name.
pub validate_bastion_iff :
    (info : BastionInfo) (ip : Bool) → (validate_bastion info ip ≡ ok tt) ↔ SupportsTunnel info ip
unfolding validate_bastion
validate_bastion_iff info ip = (
  λ h. ground (arith, text_eq_iff info.sku (lit "Standard"), text_eq_iff info.sku (lit "Premium")),
  λ h. ground (arith, text_eq_iff info.sku (lit "Standard"), text_eq_iff info.sku (lit "Premium")),
)

-- ===== src/AzureBastion/Config.antt =====
-- internal/azurebastion/tunnel.go: the validation of a configuration and of the Bastion host.
-- `arm.ParseResourceID` of the Azure SDK is a parameter, and so is the test of net.ParseIP.
pub mod Validation
mod Tests
use terraform_provider_tunne.Base.{
  ℕ, ◌+◌, Bool, true, false, not, ◌&&◌, ◌||◌, Option, none, some, List, [], ◌∷◌, ◌++◌, map, leb,
  ◌==◌, if◌then◌else◌, ℤ, pos, ltℤ, eqℤ,
}
use terraform_provider_tunne.Errors.{
  Error, message, wrap, not_bastion_host, one_target, target_resource_id, target_name,
  target_ip_invalid, target_port_range, local_port_range, ip_connect_port, read_bastion,
  unsupported_sku, tunneling_disabled, ip_connect_disabled, no_dns_endpoint, Result, ok, err,
  wrap_err, fail_if, ◌>>=◌, ◌>>◌,
}
use terraform_provider_tunne.GoText.{Text, lit, is_empty, or_default, text_eq, trim_space}

pub record TunnelConfig : Type 0 where
  pub bastion_host_id : Text
  pub target_resource_id_of : Text
  pub target_ip_address : Text
  pub target_port : ℤ
  pub local_host : Text
  pub local_port : ℤ

-- What the source reads of an `arm.ResourceID`.
pub record ResourceId : Type 0 where
  pub subscription_id : Text
  pub resource_group_name : Text
  pub name : Text
  pub resource_type : Text

pub record TunnelPlan : Type 0 where
  pub bastion : ResourceId
  pub plan_target : Text
  pub hostname : Text
  pub plan_target_port : ℤ
  pub plan_local_host : Text
  pub plan_local_port : ℤ

-- Code that the source only calls.
pub record Library : Type 0 where
  pub parse_resource_id : Text → Result ResourceId
  pub is_ip : Text → Bool  -- net.ParseIP(s) != nil

-- The case folding of strings.EqualFold towards ASCII letters: besides the capital letters, the
-- Kelvin sign and the long s fold to one.
abbrev fold_char : ℕ → ℕ
fold_char c =
    if leb b'A' c && leb c b'Z'
    then c + 32
    else if c == 0x212a
    then b'k'
    else if c == 0x17f
    then b's'
    else c

-- `strings.EqualFold(s, t)`, for an ASCII text `t`.
unfoldable pub equal_fold : Text → Text → Bool
unfolding text_eq
equal_fold s t = text_eq (map fold_char s) (map fold_char t)

abbrev pub bastion_resource_type : Text
bastion_resource_type = lit "Microsoft.Network/bastionHosts"

is_bastion : ResourceId → Bool
is_bastion r =
    not (is_empty r.subscription_id)
    && not (is_empty r.resource_group_name)
    && not (is_empty r.name)
    && equal_fold r.resource_type bastion_resource_type

checked_bastion : Result ResourceId → Result ResourceId
unfolding is_bastion
checked_bastion (err e) = err (message not_bastion_host)
checked_bastion (ok r) = if is_bastion r then ok r else err (message not_bastion_host)

unfoldable pub is_set : Text → Bool
is_set s = not (is_empty (trim_space s))

-- `a == b` of two Booleans.
abbrev same : Bool → Bool → Bool
same true b = b
same false b = not b

abbrev out_of_ports : ℤ → Bool
out_of_ports p = ltℤ p (pos 1) || ltℤ (pos 65535) p

check_ports : Bool → ℤ → ℤ → Result (Unit {0})
check_ports has_ip target local = do
  fail_if (out_of_ports target) target_port_range
  fail_if (out_of_ports local) local_port_range
  fail_if (has_ip && not (eqℤ target (pos 22)) && not (eqℤ target (pos 3389))) ip_connect_port

module _ (lib : Library) where
  open lib use {parse_resource_id, is_ip}

  unfoldable pub parse_bastion_host_id : Text → Result ResourceId
  unfolding checked_bastion
  parse_bastion_host_id id = checked_bastion (parse_resource_id id)

  -- `target_resource_id` is set: the target is that resource.
  resource_target : Text → Result (Text × Text)
  resource_target id = do
    target ← wrap_err target_resource_id (parse_resource_id id)
    fail_if (is_empty target.name) target_name
    ok (id, [])

  -- `target_ip_address` is set: the synthetic ID of IP Connect, and the host name.
  ip_target : ResourceId → Text → Result (Text × Text)
  ip_target bastion ip = do
    fail_if (not (is_ip ip)) target_ip_invalid
    ok (
      lit "/subscriptions/"
          ++ (bastion.subscription_id
              ++ (lit "/resourceGroups/"
                  ++ (bastion.resource_group_name
                      ++ (lit "/providers/Microsoft.Network/bh-hostConnect/" ++ ip)))),
      ip,
    )

  unfoldable pub resolve : TunnelConfig → Result TunnelPlan
  unfolding resource_target ip_target check_ports
  resolve c = do
    bastion ← parse_bastion_host_id c.bastion_host_id
    let has_resource = is_set c.target_resource_id_of
    let has_ip = is_set c.target_ip_address
    fail_if (same has_resource has_ip) one_target
    target ←
        (if has_resource
          then resource_target c.target_resource_id_of
          else ip_target bastion c.target_ip_address)
    check_ports has_ip c.target_port c.local_port
    ok (record {
      bastion = bastion;
      plan_target = target.0;
      hostname = target.1;
      plan_target_port = c.target_port;
      plan_local_host = or_default (trim_space c.local_host) (lit "localhost");
      plan_local_port = c.local_port;
    })

  -- `Validate`
  unfoldable pub validate : TunnelConfig → Result (Unit {0})
  unfolding resolve
  validate c = do plan ← resolve c; ok tt

pub record BastionInfo : Type 0 where
  pub dns_name : Text
  pub sku : Text
  pub enable_tunneling : Bool
  pub enable_ip_connect : Bool

-- The optional parts of the ARM response.
pub record Properties : Type 0 where
  pub dns : Option Text
  pub tunneling : Option Bool
  pub ip_connect : Option Bool

pub record Response : Type 0 where
  pub sku_name : Option (Option Text)  -- `response.SKU`, and its `Name`
  pub properties : Option Properties

abbrev text_or : Option Text → Text
text_or none = []
text_or (some t) = t

abbrev bool_or : Option Bool → Bool
bool_or none = false
bool_or (some b) = b

sku_of : Option (Option Text) → Text
sku_of none = []
sku_of (some name) = text_or name

info_of : Text → Option Properties → BastionInfo
info_of sku none = record {
  dns_name = [];
  sku = sku;
  enable_tunneling = false;
  enable_ip_connect = false;
}
info_of sku (some p) = record {
  dns_name = text_or p.dns;
  sku = sku;
  enable_tunneling = bool_or p.tunneling;
  enable_ip_connect = bool_or p.ip_connect;
}

unfoldable pub discover_bastion : Result Response → Result BastionInfo
unfolding sku_of info_of
discover_bastion response = do
  r ← wrap_err read_bastion response
  ok (info_of (sku_of r.sku_name) r.properties)

unfoldable pub validate_bastion : BastionInfo → Bool → Result (Unit {0})
validate_bastion info uses_ip_connect = do
  fail_if (not (text_eq info.sku (lit "Standard")) && not (text_eq info.sku (lit "Premium")))
      unsupported_sku
  fail_if (not info.enable_tunneling) tunneling_disabled
  fail_if (uses_ip_connect && not info.enable_ip_connect) ip_connect_disabled
  fail_if (is_empty info.dns_name) no_dns_endpoint

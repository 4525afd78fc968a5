-- ===== src/Kubernetes/Request.antt =====
-- internal/kubernetes/forward.go: what newPortForward asks of the API server and of client-go.
use terraform_provider_tunne.Base.{List, [], ◌∷◌, ◌++◌}
use terraform_provider_tunne.GoText.{Text, lit, itoa}
use terraform_provider_tunne.Kubernetes.Config.{TunnelConfig}
use terraform_provider_tunne.Kubernetes.Endpoints.{Endpoint}

-- The URL of the request, by its parts, and the addresses and ports of NewOnAddresses.
pub record PortForwardRequest : Type 0 where
  pub resource : Text
  pub namespace : Text
  pub name : Text
  pub sub_resource : Text
  pub addresses : List Text
  pub ports : List Text

pub port_forward_request : TunnelConfig → Endpoint → PortForwardRequest
port_forward_request cfg ep = record {
  resource = lit "pods";
  namespace = cfg.namespace;
  name = ep.pod;
  sub_resource = lit "portforward";
  addresses = cfg.local_host ∷ [];
  ports = (itoa cfg.local_port ++ (lit ":" ++ itoa ep.endpoint_port)) ∷ [];
}

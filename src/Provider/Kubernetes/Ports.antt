-- ===== src/Provider/Kubernetes/Ports.antt =====
-- internal/provider/kubernetes.go: the ports of a configuration.
use terraform_provider_tunne.Base.{
  ℕ, ◌≤◌, ◌≡◌, refl, ◌∙◌, inl, inr, Bool, true, false, ◌||◌, Option, none, arith, if◌then◌else◌, ℤ,
  pos, ltℤ, negsuc,
}
use terraform_provider_tunne.Errors.{Result, ok}
use terraform_provider_tunne.GoText.{lit}
use terraform_provider_tunne.Kubernetes.Config.{TunnelConfig}
use terraform_provider_tunne.Kubernetes.Endpoints.{Pod, resolve_pod_port}
use terraform_provider_tunne.Kubernetes.Endpoints.Selection.{resolve_pod_port-direct}
use terraform_provider_tunne.Provider.{
  value, value_string, value_int64, unset, Outcome, failed, done, ◌>>=◌, bad_target_port,
  bad_local_port, Outcome-cases, local_port_or,
}
use terraform_provider_tunne.Provider.Kubernetes.{
  KubernetesModel, KubernetesConfigModel, kubernetes_config, with_block, base_config, configured,
  fail_when,
}

-- The block of client settings leaves the ports and the local host alone.
with_block-ports :
    (block : Option KubernetesConfigModel) (c cfg : TunnelConfig)
    → with_block block c ≡ done cfg
    → (cfg.target_port ≡ c.target_port)
      × (cfg.local_port ≡ c.local_port)
      × (cfg.local_host ≡ c.local_host)
unfolding with_block
with_block-ports block c cfg h = ground arith

configured-keeps :
    (m filled : KubernetesModel) (port : ℤ) (cfg : TunnelConfig)
    → configured m port ≡ done (filled, cfg)
    → (m.namespace ≡ filled.namespace)
      × (m.service_name ≡ filled.service_name)
      × (m.target_port ≡ filled.target_port)
      × (m.kubernetes ≡ filled.kubernetes)
unfolding configured
configured-keeps m filled port cfg h = ground arith

-- What holds of a number that passes the two tests of a port.
port_number :
    (z : ℤ)
    → (ltℤ z (pos 1) || ltℤ (pos 65535) z) ≡ false
    → (n : ℕ) × (z ≡ pos n) × (1 ≤ n) × (n ≤ 65535)
port_number (pos n) h = (n, refl, ground arith, ground arith)
port_number (negsuc n) h = cc

configured-fields :
    (m filled : KubernetesModel) (port : ℤ) (cfg : TunnelConfig)
    → configured m port ≡ done (filled, cfg)
    → (cfg.target_port ≡ value_int64 m.target_port)
      × (filled.local_port ≡ value cfg.local_port)
      × (value_string filled.local_host ≡ cfg.local_host)
unfolding configured base_config
configured-fields m filled port cfg h =
    let host = if unset m.local_host then value (lit "localhost") else m.local_host in
    let start = base_config m (value_int64 m.target_port) port (value_string host) in
    elim (Outcome-cases (with_block m.kubernetes start)) [
      | inl (ds, refused) ↦ ground arith
      | inr (c, built) ↦
          let (target, local, bound) = with_block-ports m.kubernetes start c built in ground arith
    ]

-- Behind the tests of the ports, the local port is there.
passed :
    (a b : Bool) (o : Outcome ℤ) (f : ℤ → Outcome (KubernetesModel × TunnelConfig))
    {r : KubernetesModel × TunnelConfig}
    → (do
      target_ok ← fail_when a bad_target_port
      local_ok ← fail_when b bad_local_port
      port ← o
      f port)
      ≡ done r
    → (a ≡ false) × (port : ℤ) × (f port ≡ done r)
passed true b o f h = cc
passed false true o f h = cc
passed false false (failed ds) f h = cc
passed false false (done port) f h = (refl, port, h)

kubernetes_config-built :
    (free : Result ℤ) (m filled : KubernetesModel) (cfg : TunnelConfig)
    → kubernetes_config free m ≡ done (filled, cfg)
    → ((ltℤ (value_int64 m.target_port) (pos 1) || ltℤ (pos 65535) (value_int64 m.target_port))
        ≡ false)
      × (port : ℤ) × (configured m port ≡ done (filled, cfg))
unfolding kubernetes_config
kubernetes_config-built free m filled cfg h =
    passed (ltℤ (value_int64 m.target_port) (pos 1) || ltℤ (pos 65535) (value_int64 m.target_port))
      (ltℤ (value_int64 m.local_port) (pos 0) || ltℤ (pos 65535) (value_int64 m.local_port))
      (local_port_or free (value_int64 m.local_port)) (configured m) h

-- A Kubernetes tunnel is configured only for a target port from 1 to 65535, the one that Terraform
-- gives, which is forwarded to unchanged where the service does not expose it; and Terraform records
-- the local address that the tunnel listens on.
pub kubernetes_config-ports :
    (free : Result ℤ) (m filled : KubernetesModel) (cfg : TunnelConfig)
    → kubernetes_config free m ≡ done (filled, cfg)
    → ((n : ℕ) × (cfg.target_port ≡ pos n) × (1 ≤ n) × (n ≤ 65535))
      × (cfg.target_port ≡ value_int64 m.target_port)
      × ((p : Pod) → resolve_pod_port p cfg.target_port none ≡ ok cfg.target_port)
      × (filled.local_port ≡ value cfg.local_port)
      × (value_string filled.local_host ≡ cfg.local_host)
kubernetes_config-ports free m filled cfg h =
    let (tested, chosen, made) = kubernetes_config-built free m filled cfg h in
    let (target, port, host) = configured-fields m filled chosen cfg made in
    let (n, n_eq, low, high) = port_number (value_int64 m.target_port) tested in
    let n_eq : cfg.target_port ≡ pos n = target ∙ n_eq in
    ((n, n_eq, low, high), target, λ p. rw n_eq (resolve_pod_port-direct p n high), port, host)

-- What kubernetesConfig leaves alone.
pub kubernetes_config-keeps :
    (free : Result ℤ) (m filled : KubernetesModel) (cfg : TunnelConfig)
    → kubernetes_config free m ≡ done (filled, cfg)
    → (m.namespace ≡ filled.namespace)
      × (m.service_name ≡ filled.service_name)
      × (m.target_port ≡ filled.target_port)
      × (m.kubernetes ≡ filled.kubernetes)
kubernetes_config-keeps free m filled cfg h =
    let (tested, chosen, made) = kubernetes_config-built free m filled cfg h in
    configured-keeps m filled chosen cfg made

with_block-service :
    (block : Option KubernetesConfigModel) (c cfg : TunnelConfig)
    → with_block block c ≡ done cfg
    → (cfg.namespace ≡ c.namespace) × (cfg.service_name ≡ c.service_name)
unfolding with_block
with_block-service block c cfg h = ground arith

configured-service :
    (m filled : KubernetesModel) (port : ℤ) (cfg : TunnelConfig)
    → configured m port ≡ done (filled, cfg)
    → (cfg.namespace ≡ value_string filled.namespace)
      × (cfg.service_name ≡ value_string filled.service_name)
unfolding configured base_config
configured-service m filled port cfg h =
    let host = if unset m.local_host then value (lit "localhost") else m.local_host in
    let start = base_config m (value_int64 m.target_port) port (value_string host) in
    elim (Outcome-cases (with_block m.kubernetes start)) [
      | inl (ds, refused) ↦ ground arith
      | inr (c, built) ↦
          let (space, service) = with_block-service m.kubernetes start c built in ground arith
    ]

-- The service is the one that Terraform names.
pub kubernetes_config-service :
    (free : Result ℤ) (m filled : KubernetesModel) (cfg : TunnelConfig)
    → kubernetes_config free m ≡ done (filled, cfg)
    → (cfg.namespace ≡ value_string filled.namespace)
      × (cfg.service_name ≡ value_string filled.service_name)
kubernetes_config-service free m filled cfg h =
    let (tested, chosen, made) = kubernetes_config-built free m filled cfg h in
    configured-service m filled chosen cfg made

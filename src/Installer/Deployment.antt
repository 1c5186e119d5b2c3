-- ===== src/Installer/Deployment.antt =====
-- The deployment of the gateway: `newClusterGatewayDeployment` of
-- pkg/addon/controllers/installer.go, with the fields that it sets.
use cluster_gateway.Base.{
  ℕ, ◌*◌, String, ◌⧺◌, Bool, true, false, List, [], ◌∷◌, ◌++◌, str_eq, if◌then◌else◌, Result, ok,
  ◌>>=◌, deref,
}
use cluster_gateway.Base.Decimal.{itoa}
use cluster_gateway.Base.Maps.{Map}
use cluster_gateway.Api.{addon_name}
use cluster_gateway.Configuration.{
  ProxyEgress, ConfigurationSpec, egress_cluster_proxy, ClusterGatewayConfiguration,
  ManagementAddon, label_addon_name, owned_by,
}
use cluster_gateway.Installer.Objects.{ObjectMeta}

abbrev pub label_generation : String
label_generation = "proxy.open-cluster-management.io/configuration-generation"

abbrev pub deployment_name : String
deployment_name = "gateway-deployment"

abbrev pub secret_name_tls_cert : String
secret_name_tls_cert = "cluster-gateway-tls-cert"

-- A volume of a secret, and where it is mounted
pub record Volume : Type 0 where
  pub name : String
  pub secret_name : String

pub record VolumeMount : Type 0 where
  pub name : String
  pub mount_path : String
  pub read_only : Bool

-- Requests and limits, in thousandths of a processor and in bytes
pub record Resources : Type 0 where
  pub cpu_request : ℕ
  pub memory_request : ℕ
  pub cpu_limit : ℕ
  pub memory_limit : ℕ

pub record Deployment : Type 0 where
  pub meta : ObjectMeta
  pub selector : Map String
  pub replicas : ℕ
  pub template_labels : Map String
  pub container_name : String
  pub image : String
  pub image_pull_policy : String
  pub args : List String
  pub volume_mounts : List VolumeMount
  pub resources : Resources
  pub service_account_name : String
  pub volumes : List Volume
  pub strategy : String
  pub max_unavailable : ℕ
  pub max_surge : ℕ

-- What the container is given, for each kind of egress.
pub record Parts : Type 0 where
  pub args : List String
  pub volumes : List Volume
  pub volume_mounts : List VolumeMount

abbrev pub server_parts : String → Parts
server_parts secret_namespace = record {
  args =
      "--secure-port=9443"
      ∷ ("--secret-namespace=" ⧺ secret_namespace)
      ∷ "--ocm-integration=true"
      ∷ "--tls-cert-file=/etc/server/tls.crt"
      ∷ "--tls-private-key-file=/etc/server/tls.key"
      ∷ "--feature-gates=HealthinessCheck=true,SecretCache=true"
      ∷ [];
  volumes = record { name = "server"; secret_name = secret_name_tls_cert } ∷ [];
  volume_mounts = record { name = "server"; mount_path = "/etc/server/"; read_only = true } ∷ [];
}

abbrev pub with_proxy : Parts → ProxyEgress → Parts
with_proxy parts proxy = record {
  args =
      parts.args
      ++ ("--proxy-host=" ⧺ proxy.proxy_server_host)
        ∷ ("--proxy-port=" ⧺ itoa proxy.proxy_server_port)
        ∷ "--proxy-ca-cert=/etc/ca/ca.crt"
        ∷ "--proxy-cert=/etc/tls/tls.crt"
        ∷ "--proxy-key=/etc/tls/tls.key"
        ∷ [];
  volumes =
      parts.volumes
      ++ record { name = "proxy-client-ca"; secret_name = "proxy-server-ca" }
        ∷ record { name = "proxy-client"; secret_name = "proxy-client" }
        ∷ [];
  volume_mounts =
      parts.volume_mounts
      ++ record { name = "proxy-client-ca"; mount_path = "/etc/ca/"; read_only = false }
        ∷ record { name = "proxy-client"; mount_path = "/etc/tls/"; read_only = false }
        ∷ [];
}

-- The proxy is dereferenced where the egress is of its type.
unfoldable pub parts_of : ConfigurationSpec → Result Parts
parts_of spec =
    if str_eq spec.egress.type egress_cluster_proxy
    then (do
      proxy ← deref spec.egress.cluster_proxy
      ok (with_proxy (server_parts spec.secret_namespace) proxy))
    else ok (server_parts spec.secret_namespace)

abbrev pub deployment : ManagementAddon → ClusterGatewayConfiguration → Parts → Deployment
deployment addon config parts = record {
  meta = record {
    namespace = config.spec.install_namespace;
    name = deployment_name;
    labels = (label_generation, itoa config.generation) ∷ [];
    owner_references = owned_by addon;
    resource_version = "";
  };
  selector = (label_addon_name, addon_name) ∷ [];
  replicas = 3;
  template_labels = (label_addon_name, addon_name) ∷ [];
  container_name = "apiserver";
  image = config.spec.image;
  image_pull_policy = "IfNotPresent";
  args = parts.args;
  volume_mounts = parts.volume_mounts;
  resources = record {
    cpu_request = 100;
    memory_request = 200 * 1024 * 1024;
    cpu_limit = 500;
    memory_limit = 600 * 1024 * 1024;
  };
  service_account_name = addon_name;
  volumes = parts.volumes;
  strategy = "RollingUpdate";
  max_unavailable = 1;
  max_surge = 1;
}

unfoldable pub new_cluster_gateway_deployment :
    ManagementAddon → ClusterGatewayConfiguration → Result Deployment
unfolding parts_of
new_cluster_gateway_deployment addon config = do
  parts ← parts_of config.spec
  ok (deployment addon config parts)

-- ===== src/Configuration.antt =====
-- The configuration of the addon, pkg/apis/proxy/v1alpha1/clustergatewayconfigurations.go, its
-- constants in pkg/common/constants.go, and the addons of the hub as far as the program reads them.
use cluster_gateway.Base.{String, Option, List, [], ◌∷◌}
use cluster_gateway.Base.Decimal.{ℤ}
use cluster_gateway.Api.{OwnerReference}

-- `ClusterGatewayTrafficEgressClusterProxyCredential`
pub record ProxyCredential : Type 0 where
  pub namespace : String
  pub proxy_client_secret_name : String
  pub proxy_client_ca_secret_name : String

-- `ClusterGatewayTrafficEgressClusterProxy`
pub record ProxyEgress : Type 0 where
  pub proxy_server_host : String
  pub proxy_server_port : ℤ
  pub credentials : ProxyCredential

-- `ClusterGatewayTrafficEgress`
pub record TrafficEgress : Type 0 where
  pub type : String
  pub cluster_proxy : Option ProxyEgress

abbrev pub egress_direct : String
egress_direct = "Direct"

abbrev pub egress_cluster_proxy : String
egress_cluster_proxy = "ClusterProxy"

-- `ClusterGatewaySecretManagement`, with the name of the managed service account
pub record SecretManagement : Type 0 where
  pub type : String
  pub managed_service_account : Option String

abbrev pub management_manual : String
management_manual = "Manual"

abbrev pub management_managed_service_account : String
management_managed_service_account = "ManagedServiceAccount"

pub record ConfigurationSpec : Type 0 where
  pub image : String
  pub secret_namespace : String
  pub install_namespace : String
  pub secret_management : SecretManagement
  pub egress : TrafficEgress

pub record ClusterGatewayConfiguration : Type 0 where
  pub name : String
  pub generation : ℤ
  pub spec : ConfigurationSpec

-- `ClusterManagementAddOn`, with the resource that configures it
pub record ManagementAddon : Type 0 where
  pub name : String
  pub uid : String
  pub crd_name : String
  pub cr_name : String

-- `ManagedClusterAddOn`: the addon in the namespace of a cluster
pub record ClusterAddon : Type 0 where
  pub namespace : String
  pub name : String
  pub uid : String
  pub install_namespace : String
  pub cr_name : String

abbrev pub configuration_crd_name : String
configuration_crd_name = "clustergatewayconfigurations.proxy.open-cluster-management.io"

abbrev pub label_addon_name : String
label_addon_name = "proxy.open-cluster-management.io/addon-name"

abbrev pub api_service_name : String
api_service_name = "v1alpha1.cluster.core.oam.dev"

-- `GroupVersion.String()` of the API of addons
abbrev pub addon_group_version : String
addon_group_version = "addon.open-cluster-management.io/v1alpha1"

-- The owner that the installer gives its objects.
abbrev pub owned_by : ManagementAddon → List OwnerReference
owned_by addon =
    record {
      api_version = addon_group_version;
      kind = "ClusterManagementAddOn";
      uid = addon.uid;
      name = addon.name;
    }
    ∷ []

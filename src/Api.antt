-- ===== src/Api.antt =====
-- The data of the gateway's API: pkg/apis/cluster/v1alpha1/clustergateway_types.go, the proxy
-- configuration of clustergateway_proxy_configuration.go, and the objects of the hub that it reads.
use cluster_gateway.Base.{ℕ, String, Bool, Option, none, some, List, str_eq}
use cluster_gateway.Base.Maps.{Map}

-- `[]byte`: nil, or a content
abbrev pub Bytes : Type 0
Bytes = Option String

-- `string(b)`; `len(b) == 0` is that it is empty
abbrev pub text : Bytes → String
text none = ""
text (some s) = s

abbrev pub is_blank : String → Bool
is_blank s = str_eq s ""

-- `m[k]` of a map of bytes
abbrev pub value : Option Bytes → Bytes
value none = none
value (some b) = b

-- `m[k]` of a map of texts
abbrev pub label : Option String → String
label none = ""
label (some s) = s

pub data ExchangeType : Type 0 where
  privileged static_mapping external : ExchangeType
  other_type : String → ExchangeType

pub record IdentityExchangerTarget : Type 0 where
  pub user : String
  pub groups : List String
  pub uid : String

pub record IdentityExchangerSource : Type 0 where
  pub user : Option String
  pub group : Option String
  pub uid : Option String
  pub cluster : Option String
  pub user_pattern : Option String
  pub group_pattern : Option String
  pub cluster_pattern : Option String

pub record ClientIdentityExchangeRule : Type 0 where
  pub name : String
  pub type : ExchangeType
  pub source : Option IdentityExchangerSource
  pub target : Option IdentityExchangerTarget

-- `Spec.Rules` of a ClusterGatewayProxyConfiguration
pub record ProxyConfiguration : Type 0 where
  pub rules : List ClientIdentityExchangeRule

pub record X509 : Type 0 where
  pub certificate : Bytes
  pub private_key : Bytes

pub record ClusterAccessCredential : Type 0 where
  pub type : String
  pub service_account_token : String
  pub x509 : Option X509

pub record ClusterEndpointConst : Type 0 where
  pub address : String
  pub ca_bundle : Bytes
  pub insecure : Option Bool
  pub proxy_url : Option String

pub record ClusterEndpoint : Type 0 where
  pub type : String
  pub const : Option ClusterEndpointConst

pub record ClusterAccess : Type 0 where
  pub endpoint : Option ClusterEndpoint
  pub credential : Option ClusterAccessCredential

pub record ClusterGatewaySpec : Type 0 where
  pub provider : String
  pub access : ClusterAccess
  pub proxy_config : Option ProxyConfiguration

pub record ClusterGatewayStatus : Type 0 where
  pub healthy : Bool
  pub healthy_reason : String

pub record ClusterGateway : Type 0 where
  pub name : String
  pub creation_timestamp : ℕ
  pub spec : ClusterGatewaySpec
  pub status : ClusterGatewayStatus

-- An owner, without the version of its API.
pub record OwnerReference : Type 0 where
  pub api_version : String
  pub kind : String
  pub uid : String
  pub name : String

-- A core/v1 Secret, as far as the program reads and writes it.
pub record Secret : Type 0 where
  pub namespace : String
  pub name : String
  pub creation_timestamp : ℕ
  pub labels : Map String
  pub annotations : Map String
  pub owner_references : List OwnerReference
  pub contents : Map Bytes

pub record ClientConfig : Type 0 where
  pub url : String
  pub ca_bundle : Bytes

-- A ManagedCluster of Open Cluster Management, as far as the program reads it.
pub record ManagedCluster : Type 0 where
  pub name : String
  pub creation_timestamp : ℕ
  pub labels : Map String
  pub annotations : Map String
  pub client_configs : List ClientConfig
  pub hub_accepts_client : Bool

-- pkg/apis/cluster/v1alpha1/clustergateway_types.go: the discriminators
abbrev pub type_const : String
type_const = "Const"

abbrev pub type_cluster_proxy : String
type_cluster_proxy = "ClusterProxy"

abbrev pub type_token : String
type_token = "ServiceAccountToken"

abbrev pub type_x509 : String
type_x509 = "X509Certificate"

abbrev pub type_dynamic : String
type_dynamic = "Dynamic"

-- pkg/config/meta.go and pkg/common/constants.go
abbrev pub api_group : String
api_group = "cluster.core.oam.dev"

abbrev pub api_version : String
api_version = "v1alpha1"

abbrev pub addon_name : String
addon_name = "cluster-gateway"

abbrev pub label_credential_type : String
label_credential_type = "cluster.core.oam.dev/cluster-credential-type"

abbrev pub label_endpoint_type : String
label_endpoint_type = "cluster.core.oam.dev/cluster-endpoint-type"

-- ===== src/Installer/Objects.antt =====
-- The objects that the installer creates: the `new…` functions and `buildManagedServiceAccount` of
-- pkg/addon/controllers/installer.go. An object has the fields that these functions set.
use cluster_gateway.Base.{ℕ, ◌*◌, String, Bool, true, List, [], ◌∷◌}
use cluster_gateway.Base.Maps.{Map}
use cluster_gateway.Api.{Bytes, OwnerReference, addon_name}
use cluster_gateway.Configuration.{
  ManagementAddon, ClusterAddon, label_addon_name, api_service_name, addon_group_version, owned_by,
}

pub record ObjectMeta : Type 0 where
  pub namespace : String
  pub name : String
  pub labels : Map String
  pub owner_references : List OwnerReference
  pub resource_version : String

-- An object that is not stored yet, and has no labels; the namespace of one of the whole cluster
-- is empty.
abbrev pub owned : List OwnerReference → String → String → ObjectMeta
owned owners namespace name = record {
  namespace = namespace;
  name = name;
  labels = [];
  owner_references = owners;
  resource_version = "";
}

pub record Service : Type 0 where
  pub meta : ObjectMeta
  pub type : String
  pub selector : Map String
  pub port_name : String
  pub port : ℕ

pub record ApiService : Type 0 where
  pub meta : ObjectMeta
  pub group : String
  pub version : String
  pub service_namespace : String
  pub service_name : String
  pub service_port : ℕ
  pub group_priority_minimum : ℕ
  pub version_priority : ℕ
  pub ca_bundle : Bytes

pub record PolicyRule : Type 0 where
  pub api_groups : List String
  pub resources : List String
  pub verbs : List String

pub record Role : Type 0 where
  pub meta : ObjectMeta
  pub rules : List PolicyRule

pub record Subject : Type 0 where
  pub kind : String
  pub namespace : String
  pub name : String

pub record RoleBinding : Type 0 where
  pub meta : ObjectMeta
  pub role_kind : String
  pub role_name : String
  pub subjects : List Subject

pub record ManagedServiceAccount : Type 0 where
  pub meta : ObjectMeta
  pub rotation_enabled : Bool
  pub validity_hours : ℕ

abbrev pub new_service_account : ManagementAddon → String → ObjectMeta
new_service_account addon namespace = owned (owned_by addon) namespace addon_name

abbrev pub new_cluster_gateway_service : ManagementAddon → String → Service
new_cluster_gateway_service addon namespace = record {
  meta = owned (owned_by addon) namespace addon_name;
  type = "ClusterIP";
  selector = (label_addon_name, addon_name) ∷ [];
  port_name = "https";
  port = 9443;
}

abbrev pub new_api_service : ManagementAddon → String → Bytes → ApiService
new_api_service addon namespace verifying_ca_bundle = record {
  meta = owned (owned_by addon) "" api_service_name;
  group = "cluster.core.oam.dev";
  version = "v1alpha1";
  service_namespace = namespace;
  service_name = addon_name;
  service_port = 9443;
  group_priority_minimum = 5000;
  version_priority = 10;
  ca_bundle = verifying_ca_bundle;
}

-- The account that the gateway runs under.
abbrev pub account : String → List Subject
account namespace =
    record { kind = "ServiceAccount"; namespace = namespace; name = addon_name } ∷ []

abbrev pub new_authentication_role : ManagementAddon → String → RoleBinding
new_authentication_role addon namespace = record {
  meta =
      owned (owned_by addon) "kube-system"
        "extension-apiserver-authentication-reader:cluster-gateway";
  role_kind = "Role";
  role_name = "extension-apiserver-authentication-reader";
  subjects = account namespace;
}

abbrev pub new_secret_role : ManagementAddon → String → Role
new_secret_role addon secret_namespace = record {
  meta = owned (owned_by addon) secret_namespace "cluster-gateway";
  rules =
      record {
        api_groups = "" ∷ [];
        resources = "secrets" ∷ [];
        verbs = "get" ∷ "list" ∷ "watch" ∷ "update" ∷ [];
      }
      ∷ [];
}

abbrev pub new_secret_role_binding : ManagementAddon → String → String → RoleBinding
new_secret_role_binding addon namespace secret_namespace = record {
  meta = owned (owned_by addon) secret_namespace "cluster-gateway";
  role_kind = "Role";
  role_name = "cluster-gateway";
  subjects = account namespace;
}

abbrev reading : String → List String → PolicyRule
reading group resources = record {
  api_groups = group ∷ [];
  resources = resources;
  verbs = "get" ∷ "list" ∷ "watch" ∷ [];
}

abbrev pub new_apf_cluster_role : ManagementAddon → Role
new_apf_cluster_role addon = record {
  meta = owned (owned_by addon) "" "apiserver-aggregation:cluster-gateway";
  rules =
      reading "cluster.open-cluster-management.io" ("managedclusters" ∷ [])
      ∷ reading "" ("namespaces" ∷ [])
      ∷ reading "admissionregistration.k8s.io" (
          "mutatingwebhookconfigurations" ∷ "validatingwebhookconfigurations"
          ∷ "validatingadmissionpolicies" ∷ "validatingadmissionpolicybindings" ∷ [])
      ∷ reading "flowcontrol.apiserver.k8s.io" ("prioritylevelconfigurations" ∷ "flowschemas" ∷ [])
      ∷ record {
        api_groups = "authorization.k8s.io" ∷ [];
        resources = "subjectaccessreviews" ∷ [];
        verbs = "*" ∷ [];
      }
      ∷ [];
}

abbrev pub new_apf_cluster_role_binding : ManagementAddon → String → RoleBinding
new_apf_cluster_role_binding addon namespace = record {
  meta = owned (owned_by addon) "" "apiserver-aggregation:cluster-gateway";
  role_kind = "ClusterRole";
  role_name = "apiserver-aggregation:cluster-gateway";
  subjects = account namespace;
}

abbrev pub build_managed_service_account : ClusterAddon → ManagedServiceAccount
build_managed_service_account addon = record {
  meta =
      owned
        (record {
          api_version = addon_group_version;
          kind = "ManagedClusterAddOn";
          uid = addon.uid;
          name = addon.name;
        }
          ∷ [])
        addon.namespace addon_name;
  rotation_enabled = true;
  validity_hours = 24 * 180;
}

-- ===== src/Virtual.antt =====
-- The resource VirtualCluster: pkg/apis/cluster/v1alpha1/virtualcluster_types.go and
-- virtualcluster_errors.go, and in the child Client the client of virtualcluster_client.go.
pub mod Resource
pub mod Client
pub mod Labels
mod Tests
use cluster_gateway.Base.{
  ℕ, String, Bool, true, false, not, Option, none, some, List, [], ◌∷◌, ◌⧺◌, map, str_eq, is_some,
  if◌then◌else◌, Error, other, empty_endpoint, empty_credential_type, invalid_managed_cluster,
  Result, ok, err, panic,
}
use cluster_gateway.Base.Text.{has_prefix, join}
use cluster_gateway.Base.Maps.{Map, lookup, insert}
use cluster_gateway.Api.{
  text, value, label, is_blank, Secret, ManagedCluster, api_group, label_credential_type,
  label_endpoint_type,
}
use cluster_gateway.Convert.{format_bool}

abbrev pub cluster_local_name : String
cluster_local_name = "local"

abbrev type_internal : String
type_internal = "Internal"

abbrev type_ocm_managed_cluster : String
type_ocm_managed_cluster = "ManagedCluster"

abbrev blank_endpoint : String
blank_endpoint = "-"

abbrev annotation_cluster_alias : String
annotation_cluster_alias = "cluster.core.oam.dev/cluster-alias"

abbrev pub label_control_plane : String
label_control_plane = "cluster.core.oam.dev/control-plane"

pub record VirtualCluster : Type 0 where
  pub name : String
  pub creation_timestamp : ℕ
  pub labels : Map String
  pub alias : String
  pub accepted : Bool
  pub endpoint : String
  pub credential_type : String

get_full_name : VirtualCluster → String
get_full_name c = if str_eq c.alias "" then c.name else c.name ⧺ " (" ⧺ c.alias ⧺ ")"

pub has_cluster : List VirtualCluster → String → Bool
has_cluster [] name = false
has_cluster (c ∷ items) name =
    let rest = has_cluster items name in if str_eq c.name name then true else rest

-- One row of `printClusterRow`, less the creation time: a row shows the labels in the map's order.
pair : String × String → String
pair (k, v) = k ⧺ "=" ⧺ v

print_cluster_row : VirtualCluster → List String
unfolding pair
print_cluster_row c =
    c.name
    ∷ c.alias
    ∷ c.credential_type
    ∷ c.endpoint
    ∷ format_bool c.accepted
    ∷ join "," (map pair c.labels)
    ∷ []

print_cluster_list : List VirtualCluster → List (List String)
print_cluster_list items = map print_cluster_row items

pub extract_labels : Map String → Map String
extract_labels [] = []
extract_labels ((k, v) ∷ labels) =
    let rest = extract_labels labels in if has_prefix k api_group then rest else (k, v) ∷ rest

-- `client.Object`, as far as `newVirtualCluster` reads it
pub record Object : Type 0 where
  pub name : String
  pub creation_timestamp : ℕ
  pub labels : Map String
  pub annotations : Map String

pub new_virtual_cluster : Option Object → VirtualCluster
new_virtual_cluster none = record {
  name = "";
  creation_timestamp = 0;
  labels = insert label_control_plane (format_bool true) [];
  alias = "";
  accepted = true;
  endpoint = blank_endpoint;
  credential_type = "";
}
new_virtual_cluster (some obj) = record {
  name = obj.name;
  creation_timestamp = obj.creation_timestamp;
  labels = insert label_control_plane (format_bool false) (extract_labels obj.labels);
  alias = label (lookup annotation_cluster_alias obj.annotations);
  accepted = true;
  endpoint = blank_endpoint;
  credential_type = "";
}

pub new_local_cluster : VirtualCluster
new_local_cluster = record (new_virtual_cluster none) {
  name = cluster_local_name;
  credential_type = type_internal;
}

abbrev secret_object : Secret → Object
secret_object s = record {
  name = s.name;
  creation_timestamp = s.creation_timestamp;
  labels = s.labels;
  annotations = s.annotations;
}

abbrev managed_cluster_object : ManagedCluster → Object
managed_cluster_object m = record {
  name = m.name;
  creation_timestamp = m.creation_timestamp;
  labels = m.labels;
  annotations = m.annotations;
}

-- The endpoint of a secret: its type where there is a label, and the address otherwise.
secret_endpoint : Secret → String
secret_endpoint s = elim (lookup label_endpoint_type s.labels) [
  | none ↦ text (value (lookup "endpoint" s.contents))
  | some type ↦ type
]

pub new_cluster_from_secret : Secret → Result VirtualCluster
new_cluster_from_secret s =
    if is_blank (secret_endpoint s)
    then err empty_endpoint
    else elim (lookup label_credential_type s.labels) [
      | none ↦ err empty_credential_type
      | some type ↦ ok (record (new_virtual_cluster (some (secret_object s))) {
        endpoint = secret_endpoint s;
        credential_type = type;
      })
    ]

pub new_cluster_from_managed_cluster : ManagedCluster → Result VirtualCluster
new_cluster_from_managed_cluster m = elim m.client_configs [
  | [] ↦ err invalid_managed_cluster
  | _ ∷ _ ↦ ok (record (new_virtual_cluster (some (managed_cluster_object m))) {
    accepted = m.hub_accepts_client;
    credential_type = type_ocm_managed_cluster;
  })
]

-- `Error()` of the errors of a conversion
error_text : Error → String
error_text empty_credential_type = "secret is not a valid cluster secret, no credential type found"
error_text empty_endpoint = "secret is not a valid cluster secret, no credential type found"
error_text invalid_managed_cluster = "managed cluster has no client config"
error_text (other t) = t
error_text _ = ""

-- `errors.As` looks behind wrappings.
is_invalid_cluster_secret_error : Error → Bool
is_invalid_cluster_secret_error empty_credential_type = true
is_invalid_cluster_secret_error empty_endpoint = true
is_invalid_cluster_secret_error (Error.wrapped t e) = is_invalid_cluster_secret_error e
is_invalid_cluster_secret_error _ = false

is_invalid_managed_cluster_error : Error → Bool
is_invalid_managed_cluster_error invalid_managed_cluster = true
is_invalid_managed_cluster_error (Error.wrapped t e) = is_invalid_managed_cluster_error e
is_invalid_managed_cluster_error _ = false

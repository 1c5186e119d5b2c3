-- ===== src/Virtual/Resource.antt =====
-- The resource of virtual clusters that the API server serves: `Get`, `List` and `ConvertToTable` of
-- pkg/apis/cluster/v1alpha1/virtualcluster_types.go, with the names that it is served under.
use cluster_gateway.Base.{
  String, Bool, false, ◌≡◌, refl, Option, none, some, List, [], ◌∷◌, other, Result, ok, err,
}
use cluster_gateway.Virtual.{VirtualCluster, print_cluster_row, print_cluster_list}
use cluster_gateway.Virtual.Client.{Requirements, Selector, Client, get, list}
use cluster_gateway.Startup.{Config}

abbrev short_names : List String
short_names = "vc" ∷ "vcluster" ∷ "vclusters" ∷ "virtual-cluster" ∷ "virtual-clusters" ∷ []

abbrev singular_name : String
singular_name = "virtualcluster"

abbrev resource_name : String
resource_name = "virtualclusters"

abbrev is_namespace_scoped : Bool
is_namespace_scoped = false

-- `virtualClusterDefinitions`, by name
abbrev columns : List String
columns =
    "Name" ∷ "Alias" ∷ "Credential_Type" ∷ "Endpoint" ∷ "Accepted" ∷ "Labels" ∷ "Creation_Timestamp"
    ∷ []

module _ (requirements : Requirements) (client : Client requirements) (config : Config) where
  storage_get : String → Result VirtualCluster
  storage_get name = get requirements client config.secret_namespace name

  -- The selector of the options, which may be nil, or else one that selects everything.
  selector_of : Option (Option (Selector requirements)) → Selector requirements
  selector_of none = []
  selector_of (some none) = []
  selector_of (some (some selector)) = selector

  storage_list :
      ((VirtualCluster → VirtualCluster → Bool) → List VirtualCluster → List VirtualCluster)
      → Option (Option (Selector requirements))
      → Result (List VirtualCluster)
  unfolding selector_of
  storage_list sort options =
      list requirements client config.secret_namespace sort (some (selector_of options))

-- `runtime.Object`, as the table tells it apart
data Printed : Type 0 where
  printed_cluster : VirtualCluster → Printed
  printed_list : List VirtualCluster → Printed
  printed_other : String → Printed

convert_to_table : Printed → Result (List (List String))
unfolding print_cluster_row print_cluster_list
convert_to_table (printed_cluster c) = ok (print_cluster_row c ∷ [])
convert_to_table (printed_list items) = ok (print_cluster_list items)
convert_to_table (printed_other type) = err (other type)

-- A list of one cluster is printed as the cluster is.
one_row :
    (c : VirtualCluster)
    → convert_to_table (printed_list (c ∷ [])) ≡ convert_to_table (printed_cluster c)
unfolding convert_to_table print_cluster_list
one_row c = refl

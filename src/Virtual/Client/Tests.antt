-- ===== src/Virtual/Client/Tests.antt =====
-- A hub with one secret of a cluster, and no managed clusters.
use cluster_gateway.Base.{
  ◌≤◌, String, ◌≡◌, ◌⊎◌, refl, Bool, true, none, List, [], ◌∷◌, count, is_some, str_eq,
  if◌then◌else◌, arith, not_found, no_match, ok, err, Bool-cases, inl, inr,
}
use cluster_gateway.Base.Maps.{lookup, insert}
use cluster_gateway.Base.Text.{has_prefix, has_prefix-append}
use cluster_gateway.Convert.{format_bool}
use cluster_gateway.Convert.Sample.{sample_secret}
use cluster_gateway.Virtual.{
  VirtualCluster, new_cluster_from_secret, new_virtual_cluster, new_local_cluster, extract_labels,
  secret_endpoint,
}
use cluster_gateway.Virtual.Client.{
  Requirements, Client, apply_to_list, get, attempt, converted, otherwise, list, append_secrets,
  appended, append_managed_clusters, listed_managed_clusters, is_missing_kind, selected,
}
use cluster_gateway.Virtual.Client.Lookup.{returned, from_secret, from_managed_cluster, get-source}
use cluster_gateway.Virtual.Client.Unique.{named, secret_named, list-count}

-- Requirements that a key exists.
abbrev requirements : Requirements
requirements = record {
  Requirement = String;
  key = λ k. k;
  matches = λ k labels. is_some (lookup k labels);
  exists = λ k. k;
}

abbrev client : Client requirements
client = record {
  with_control_plane = true;
  get_secret =
      λ namespace name. if str_eq name "prod" then ok sample_secret else err (not_found name);
  get_managed_cluster = λ namespace name. err no_match;
  list_secrets = λ namespace selector. ok (sample_secret ∷ []);
  list_managed_clusters = λ selector. err no_match;
}

abbrev sort : (VirtualCluster → VirtualCluster → Bool) → List VirtualCluster → List VirtualCluster
sort less items = items

permutes :
    (less : VirtualCluster → VirtualCluster → Bool) (items : List VirtualCluster)
    (p : VirtualCluster → Bool)
    → count p (sort less items) ≡ count p items
permutes less items p = refl

abbrev prod : VirtualCluster
prod = record {
  name = "prod";
  creation_timestamp = 7;
  labels = ("cluster.core.oam.dev/control-plane", "false") ∷ [];
  alias = "";
  accepted = true;
  endpoint = "https://prod:6443";
  credential_type = "ServiceAccountToken";
}

own_label : has_prefix "cluster.core.oam.dev/cluster-credential-type" "cluster.core.oam.dev" ≡ true
own_label = has_prefix-append "cluster.core.oam.dev" "/cluster-credential-type"

made : new_cluster_from_secret sample_secret ≡ ok prod
unfolding new_cluster_from_secret new_virtual_cluster extract_labels secret_endpoint lookup insert
    format_bool
made = rw own_label refl

gets : get requirements client "vela-system" "prod" ≡ ok prod
unfolding get attempt converted otherwise
gets = rw made refl

get-source_example :
    (from_secret requirements client "vela-system" "prod" ≡ ok prod)
    ⊎ ((returned (from_secret requirements client "vela-system" "prod") ≡ none)
        × (from_managed_cluster requirements client "vela-system" "prod" ≡ ok prod))
get-source_example = get-source requirements client "vela-system" "prod" prod refl gets

lists : list requirements client "vela-system" sort none ≡ ok (new_local_cluster ∷ prod ∷ [])
unfolding list append_secrets appended append_managed_clusters listed_managed_clusters
    is_missing_kind selected apply_to_list
lists = rw made refl

distinct : (n : String) → count (secret_named n) (sample_secret ∷ []) ≤ 1
distinct n = elim (Bool-cases (str_eq "prod" n)) [
  | inl same ↦ rw same (omega arith)
  | inr other ↦ rw other (omega arith)
]

list-count_example : count (named "prod") (new_local_cluster ∷ prod ∷ []) ≤ 1
list-count_example =
    list-count requirements client "vela-system" sort permutes none (sample_secret ∷ [])
      (new_local_cluster ∷ prod ∷ []) refl distinct refl lists "prod"

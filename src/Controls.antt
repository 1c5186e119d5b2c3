-- ===== src/Controls.antt =====
-- How the gateway reads secrets and managed clusters: the controls of pkg/util/cert/secret.go and
-- pkg/util/cluster/cluster.go, chosen by pkg/util/singleton/loopback.go.
mod Tests
pub mod Choice
use cluster_gateway.Base.{
  String, Bool, true, false, not, Option, none, some, List, [], ◌∷◌, ◌++◌, map, if◌then◌else◌,
  str_eq, Error, other, Result, ok, err, panic, ◌>>=◌,
}
use cluster_gateway.Api.{Secret, ManagedCluster, label_credential_type}

-- `cert.SecretControl`
pub record SecretControl : Type 0 where
  pub get : String → Result Secret
  pub list : Result (List Secret)

-- `clusterutil.OCMClusterControl`; a listed pointer may be nil
pub record OcmClusterControl : Type 0 where
  pub get : String → Result ManagedCluster
  pub list : Result (List (Option ManagedCluster))

-- A Kubernetes client or lister of secrets: by namespace and name, or by namespace and a label
-- that must exist.
pub record SecretReader : Type 0 where
  pub get : String → String → Result Secret
  pub list : String → String → Result (List Secret)

-- A client or lister of managed clusters.
pub record ManagedClusterReader : Type 0 where
  pub get : String → Result ManagedCluster
  pub list : Result (List ManagedCluster)

-- `directApiSecretControl`, over the API
abbrev pub new_direct_api_secret_control : String → SecretReader → SecretControl
new_direct_api_secret_control namespace api = record {
  get = λ name. api.get namespace name;
  list = api.list namespace label_credential_type;
}

-- `cachedSecretControl`, over the informer's lister
abbrev new_cached_secret_control : String → SecretReader → SecretControl
new_cached_secret_control namespace lister = record {
  get = λ name. lister.get namespace name;
  list = lister.list namespace label_credential_type;
}

-- `make([]*clusterv1.ManagedCluster, len(items))`
make : List ManagedCluster → List (Option ManagedCluster)
make [] = []
make (item ∷ items) = none ∷ make items

-- `for _, item := range over { clusters = append(clusters, item) }`
append_each :
    List (Option ManagedCluster) → List (Option ManagedCluster) → List (Option ManagedCluster)
append_each clusters [] = clusters
append_each clusters (item ∷ over) = append_each (clusters ++ item ∷ []) over

-- `directOCMClusterControl.List`: the loop ranges over the slice that it has just made.
pub direct_list : Result (List ManagedCluster) → Result (List (Option ManagedCluster))
unfolding make append_each
direct_list listed = do items ← listed; ok (append_each (make items) (make items))

abbrev pub new_direct_ocm_cluster_control : ManagedClusterReader → OcmClusterControl
new_direct_ocm_cluster_control api = record { get = api.get; list = direct_list api.list }

pub cached_list : Result (List ManagedCluster) → Result (List (Option ManagedCluster))
cached_list listed = do items ← listed; ok (map some items)

abbrev pub new_cache_ocm_cluster_control : ManagedClusterReader → OcmClusterControl
new_cache_ocm_cluster_control lister = record { get = lister.get; list = cached_list lister.list }

-- The resources that discovery reports: a group, and the kinds in it.
pub record ApiResources : Type 0 where
  pub group : String
  pub kinds : List String

has_kind : String → List String → Bool
has_kind kind [] = false
has_kind kind (k ∷ ks) = if str_eq k kind then true else has_kind kind ks

has_managed_cluster : List ApiResources → Bool
unfolding has_kind
has_managed_cluster [] = false
has_managed_cluster (r ∷ rs) =
    let rest = has_managed_cluster rs in
    if str_eq r.group "cluster.open-cluster-management.io"
    then (if has_kind "ManagedCluster" r.kinds then true else rest)
    else rest

pub is_ocm_managed_cluster_installed : Result (List ApiResources) → Result Bool
unfolding has_managed_cluster
is_ocm_managed_cluster_installed (ok resources) = ok (has_managed_cluster resources)
is_ocm_managed_cluster_installed (err e) = err (other "unable to get api-resources")
is_ocm_managed_cluster_installed panic = panic

-- What `InitLoopbackClient` is given: the feature gates, the clients, and the informers once they
-- have synced (`err` where one does not).
pub record Loopback : Type 0 where
  pub secret_cache : Bool
  pub ocm_cluster_cache : Bool
  pub secret_namespace : String
  pub secret_api : SecretReader
  pub secret_informer : Result SecretReader
  pub discovery : Result (List ApiResources)
  pub cluster_api : ManagedClusterReader
  pub cluster_informer : Result ManagedClusterReader

pub record Singleton : Type 0 where
  pub secret_control : Option SecretControl
  pub cluster_control : Option OcmClusterControl

-- A lister that was never set: every call of it dereferences nil.
abbrev nil_lister : ManagedClusterReader
nil_lister = record { get = λ name. panic; list = panic }

-- `if secretControl == nil { … }` and the cache before it
init_secret_control : Loopback → Option SecretControl → Result SecretControl
init_secret_control l (some control) =
    if l.secret_cache
    then (do lister ← l.secret_informer; ok (new_cached_secret_control l.secret_namespace lister))
    else ok control
init_secret_control l none =
    if l.secret_cache
    then (do lister ← l.secret_informer; ok (new_cached_secret_control l.secret_namespace lister))
    else ok (new_direct_api_secret_control l.secret_namespace l.secret_api)

-- The lister of managed clusters: an error of discovery is only logged, and without the CRD no
-- informer is started.
cluster_lister : Loopback → Result ManagedClusterReader
cluster_lister l = elim (is_ocm_managed_cluster_installed l.discovery) [
  | ok installed ↦ if installed then l.cluster_informer else ok nil_lister
  | err e ↦ ok nil_lister
  | panic ↦ panic
]

init_cluster_control : Loopback → Option OcmClusterControl → Result OcmClusterControl
init_cluster_control l (some control) =
    if l.ocm_cluster_cache
    then (do lister ← cluster_lister l; ok (new_cache_ocm_cluster_control lister))
    else ok control
init_cluster_control l none =
    if l.ocm_cluster_cache
    then (do lister ← cluster_lister l; ok (new_cache_ocm_cluster_control lister))
    else ok (new_direct_ocm_cluster_control l.cluster_api)

pub init_loopback_client : Loopback → Singleton → Result Singleton
init_loopback_client l before = do
  secrets ← init_secret_control l before.secret_control
  clusters ← init_cluster_control l before.cluster_control
  ok (record { secret_control = some secrets; cluster_control = some clusters })

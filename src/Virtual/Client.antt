-- ===== src/Virtual/Client.antt =====
-- pkg/apis/cluster/v1alpha1/virtualcluster_client.go
pub mod Lookup
pub mod Unique
mod Tests
use cluster_gateway.Base.{
  ℕ, String, Bool, true, false, not, ◌⊎◌, inl, inr, Option, none, some, List, [], ◌∷◌, ◌++◌, str_eq,
  ltb, is_some, if◌then◌else◌, Error, not_found, no_match, not_registered, aggregate, Result, ok,
  err, panic, ◌>>=◌,
}
use cluster_gateway.Base.Maps.{Map}
use cluster_gateway.Api.{Secret, ManagedCluster, label_credential_type}
use cluster_gateway.Cert.{is_not_found}
use cluster_gateway.Virtual.{
  VirtualCluster, cluster_local_name, label_control_plane, has_cluster, new_local_cluster,
  new_cluster_from_secret, new_cluster_from_managed_cluster,
}

-- What apimachinery's package labels gives: requirements with a key, which a set of labels meets
-- or not, and the requirement that a key exists.
pub record Requirements : Type 1 where
  pub Requirement : Type 0
  pub key : Requirement → String
  pub matches : Requirement → Map String → Bool
  pub exists : String → Requirement

module _ (requirements : Requirements) where
  open requirements use {Requirement, key, matches, exists}

  -- `labels.Selector`
  abbrev pub Selector : Type 0
  Selector = List Requirement

  matches_all : Selector → Map String → Bool
  matches_all [] labels = true
  matches_all (r ∷ selector) labels =
      let rest = matches_all selector labels in if matches r labels then rest else false

  -- `virtualClusterSelector.ApplyToList`: the requirements of `m.selector` on other keys than the
  -- control plane's
  carried : Selector → Selector
  carried [] = []
  carried (r ∷ selector) =
      let rest = carried selector in if str_eq label_control_plane (key r) then rest else r ∷ rest

  pub apply_to_list : Option Selector → Bool → Selector
  unfolding carried
  apply_to_list selector require_credential_type =
      elim selector [ none ↦ [] | some s ↦ carried s ]
      ++ (if require_credential_type then exists label_credential_type ∷ [] else [])

  -- controller-runtime's client: by namespace and name, or by namespace and selector. Managed
  -- clusters have no namespace. `with_control_plane` is the field of `virtualClusterClient`, which
  -- no method reads.
  pub record Client : Type 0 where
    pub with_control_plane : Bool
    pub get_secret : String → String → Result Secret
    pub get_managed_cluster : String → String → Result ManagedCluster
    pub list_secrets : String → Selector → Result (List Secret)
    pub list_managed_clusters : Selector → Result (List ManagedCluster)

  -- `meta.IsNoMatchError(err) || runtime.IsNotRegisteredError(err)`
  pub is_missing_kind : Error → Bool
  is_missing_kind no_match = true
  is_missing_kind not_registered = true
  is_missing_kind _ = false

  pub is_absent : Error → Bool
  unfolding is_not_found is_missing_kind
  is_absent e = if is_not_found e then true else is_missing_kind e

  converted : Result VirtualCluster → Result (VirtualCluster ⊎ Option Error)
  converted (ok cluster) = ok (inl cluster)
  converted (err e) = ok (inr (some e))
  converted panic = panic

  -- One of the two reads of `Get`: a cluster, or the error that is kept of it.
  pub attempt :
      {A : Type 0}
      → (Error → Bool)
      → Result A
      → (A → Result VirtualCluster)
      → Result (VirtualCluster ⊎ Option Error)
  unfolding converted
  attempt ignored (ok a) convert = converted (convert a)
  attempt ignored (err e) convert = ok (inr (if ignored e then none else some e))
  attempt ignored panic convert = panic

  -- `utilerrors.NewAggregate`, which leaves nils out, and the returns after it
  pub reported : String → Option Error → Option Error → Error
  reported name none none = not_found name
  reported name (some e) none = e
  reported name none (some e) = e
  reported name (some e) (some e') = aggregate e e'

  otherwise :
      VirtualCluster ⊎ Option Error → (Option Error → Result VirtualCluster) → Result VirtualCluster
  otherwise (inl cluster) f = ok cluster
  otherwise (inr e) f = f e

  module _ (client : Client) (namespace : String) where
    -- the second half of `Get`
    get_managed : String → Option Error → Result VirtualCluster
    unfolding otherwise
    get_managed name secret_err = do
      m ←
          attempt is_absent (client.get_managed_cluster namespace name)
            new_cluster_from_managed_cluster
      otherwise m (λ managed_cluster_err. err (reported name secret_err managed_cluster_err))

    pub get : String → Result VirtualCluster
    unfolding otherwise get_managed
    get name = if str_eq name cluster_local_name then ok new_local_cluster else (do
      s ← attempt is_not_found (client.get_secret namespace name) new_cluster_from_secret
      otherwise s (get_managed name))

    -- `if cluster, err := …; err == nil { clusters.Items = append(clusters.Items, *cluster) }`
    appended : List VirtualCluster → Result VirtualCluster → Result (List VirtualCluster)
    appended items (ok cluster) = ok (items ++ cluster ∷ [])
    appended items (err e) = ok items
    appended items panic = panic

    -- the first loop of `List`
    append_secrets : List VirtualCluster → List Secret → Result (List VirtualCluster)
    unfolding appended
    append_secrets items [] = ok items
    append_secrets items (secret ∷ secrets) = do
      items' ← appended items (new_cluster_from_secret secret)
      append_secrets items' secrets

    -- a round of the second loop
    admitted : List VirtualCluster → ManagedCluster → Result (List VirtualCluster)
    unfolding appended
    admitted items m =
        if not (has_cluster items m.name)
        then appended items (new_cluster_from_managed_cluster m)
        else ok items

    append_managed_clusters :
        List VirtualCluster → List ManagedCluster → Result (List VirtualCluster)
    append_managed_clusters items [] = ok items
    append_managed_clusters items (m ∷ ms) = do
      items' ← admitted items m
      append_managed_clusters items' ms

    -- Without the kind ManagedCluster there are none.
    listed_managed_clusters : Option Selector → Result (List ManagedCluster)
    listed_managed_clusters selector =
        elim (client.list_managed_clusters (apply_to_list selector false)) [
          | ok ms ↦ ok ms
          | err e ↦ if is_missing_kind e then ok [] else err e
          | panic ↦ panic
        ]

    -- the last loop of `List`
    selected : Option Selector → List VirtualCluster → List VirtualCluster
    selected selector [] = []
    selected selector (c ∷ items) =
        let rest = selected selector items in
        if elim selector [ none ↦ true | some s ↦ matches_all s c.labels ] then c ∷ rest else rest

    -- The order that `List` sorts by: the local cluster first, later ones before earlier ones.
    pub before : VirtualCluster → VirtualCluster → Bool
    before a b =
        if str_eq a.name cluster_local_name
        then true
        else if str_eq b.name cluster_local_name
        then false
        else ltb b.creation_timestamp a.creation_timestamp

    -- `List`, for `sort` that is `sort.Slice`
    pub list :
        ((VirtualCluster → VirtualCluster → Bool) → List VirtualCluster → List VirtualCluster)
        → Option Selector
        → Result (List VirtualCluster)
    list sort selector = do
      secrets ← client.list_secrets namespace (apply_to_list selector true)
      clusters ← append_secrets (new_local_cluster ∷ []) secrets
      managed ← listed_managed_clusters selector
      all ← append_managed_clusters clusters managed
      ok (sort before (selected selector all))

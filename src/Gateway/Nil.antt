-- ===== src/Gateway/Nil.antt =====
-- Nil in the listing: which clusters panic, and that the table never does.
use cluster_gateway.Base.{
  Bool, suc, ◌<◌, String, ◌≡◌, refl, ap, ◌∙◌, true, false, Option, none, some, List, [], ◌∷◌, arith,
  ok, panic, All, length,
}
use cluster_gateway.Base.Maps.{Map}
use cluster_gateway.Api.{ClusterGateway, Secret, ManagedCluster}
use cluster_gateway.Exec.{Cache}
use cluster_gateway.Convert.{Env}
use cluster_gateway.Convert.Complete.{IsComplete}
use cluster_gateway.Controls.{
  Singleton, ManagedClusterReader, new_direct_ocm_cluster_control, direct_list,
}
use cluster_gateway.Controls.Choice.{IsNil, direct_list-IsNil}
use cluster_gateway.Gateway.{
  index_clusters, list, list_secrets, list_managed, by_names, print_cluster_gateway_row,
  print_cluster_gateway_list, endpoint_cell, row,
}
use cluster_gateway.Gateway.Listing.{Picks, nothing, skip, pick}

index_clusters-IsNil :
    (clusters : List (Option ManagedCluster)) (m : Map ManagedCluster)
    → All IsNil clusters
    → 0 < length clusters
    → index_clusters clusters m ≡ panic
unfolding index_clusters
index_clusters-IsNil [] m h n = absurd (omega arith)
index_clusters-IsNil (none ∷ cs) m h n = refl
index_clusters-IsNil (some c ∷ cs) m h n = cc (h.0)

module _ (env : Env) (singleton : Singleton) (cache : Cache) where
  list_managed-direct :
      (reader : ManagedClusterReader)
      → singleton.cluster_control ≡ some (new_direct_ocm_cluster_control reader)
      → list_managed env true singleton ≡ direct_list reader.list
  unfolding list_managed
  list_managed-direct reader direct = rw (direct, list_managed)

  by_names-panic :
      (reader : ManagedClusterReader) (items : List ManagedCluster)
      → singleton.cluster_control ≡ some (new_direct_ocm_cluster_control reader)
      → reader.list ≡ ok items
      → 0 < length items
      → by_names env true singleton ≡ panic
  unfolding by_names
  by_names-panic reader items direct listed n =
      let (clusters, e, nils, twice) = direct_list-IsNil items in
      rw (list_managed-direct reader direct ∙ ap direct_list listed ∙ e)
        (index_clusters-IsNil clusters [] nils (omega arith))

  -- With OCM integration and no cluster cache, a listing panics as soon as there is one managed
  -- cluster: the direct control returns nil pointers, and the listing reads their names.
  pub list_direct-panic :
      (reader : ManagedClusterReader) (items : List ManagedCluster) (secrets : List Secret)
      → list_secrets env true singleton ≡ ok secrets
      → singleton.cluster_control ≡ some (new_direct_ocm_cluster_control reader)
      → reader.list ≡ ok items
      → 0 < length items
      → list env true singleton false cache ≡ (panic, cache)
  unfolding list
  list_direct-panic reader items secrets have direct listed n =
      rw (have, by_names-panic reader items direct listed n)

print_row :
    (gw : ClusterGateway)
    → IsComplete gw
    → (cells : List String) × (print_cluster_gateway_row gw ≡ ok cells)
unfolding print_cluster_gateway_row endpoint_cell
print_row gw h = (row gw h.endpoint.type, simp (h.endpoint_given))

-- The table of a listing has a row for each item, and is made without a panic.
pub print_cluster_gateway_list-total :
    {env : Env} {ocm : Bool} {singleton : Singleton} {by_name : Map ManagedCluster} {cache : Cache}
    {secrets : List Secret} {items : List ClusterGateway}
    → Picks env ocm singleton by_name cache secrets items
    → (rows : List (List String)) × (print_cluster_gateway_list items ≡ ok rows)
      × (length rows ≡ length items)
unfolding print_cluster_gateway_list
print_cluster_gateway_list-total nothing = ([], refl, refl)
print_cluster_gateway_list-total (skip _ p) = print_cluster_gateway_list-total p
print_cluster_gateway_list-total (pick {g = g} _ named complete p) =
    let (rows, e, n) = print_cluster_gateway_list-total p in
    let (cells, c) = print_row g complete in (cells ∷ rows, rw (c, e), ap suc n)

-- ===== src/Gateway/Listing.antt =====
-- What `List` returns.
use cluster_gateway.Base.{◌≡◌, Bool, Option, none, some, List, [], ◌∷◌, Error, ok, err}
use cluster_gateway.Base.Maps.{Map, lookup}
use cluster_gateway.Api.{ClusterGateway, Secret, ManagedCluster}
use cluster_gateway.Exec.{Cache}
use cluster_gateway.Convert.{Env}
use cluster_gateway.Convert.Complete.{
  IsComplete, convert_from_secret-IsComplete, convert_from_managed_cluster_and_secret-IsComplete,
}
use cluster_gateway.Controls.{Singleton}
use cluster_gateway.Gateway.{convert_with}

module _ (env : Env) (ocm : Bool) (singleton : Singleton) where
  -- `Picks by_name cache secrets items`: the items are the conversions of the secrets with the
  -- managed clusters of their names, from this cache on and in their order; a secret gives none
  -- just where its conversion fails.
  pub data Picks : Map ManagedCluster → Cache → List Secret → List ClusterGateway → Type 0 where
    nothing : {m : Map ManagedCluster} {c : Cache} → Picks m c [] []
    skip :
        {m : Map ManagedCluster} {c : Cache} {s : Secret} {ss : List Secret}
        {gs : List ClusterGateway} {e : Error}
        → (convert_with env ocm singleton (lookup s.name m) s c).0 ≡ err e
        → Picks m (convert_with env ocm singleton (lookup s.name m) s c).1 ss gs
        → Picks m c (s ∷ ss) gs
    pick :
        {m : Map ManagedCluster} {c : Cache} {s : Secret} {ss : List Secret} {g : ClusterGateway}
        {gs : List ClusterGateway}
        → (convert_with env ocm singleton (lookup s.name m) s c).0 ≡ ok g
        → g.name ≡ s.name
        → IsComplete g
        → Picks m (convert_with env ocm singleton (lookup s.name m) s c).1 ss gs
        → Picks m c (s ∷ ss) (g ∷ gs)

  pub convert_with-IsComplete :
      (cluster : Option ManagedCluster) (secret : Secret) (cache : Cache) (gw : ClusterGateway)
      → (convert_with env ocm singleton cluster secret cache).0 ≡ ok gw
      → (gw.name ≡ secret.name) × IsComplete gw
  unfolding convert_with
  convert_with-IsComplete (some cluster) secret cache gw h =
      convert_from_managed_cluster_and_secret-IsComplete env cluster secret cache gw h
  convert_with-IsComplete none secret cache gw h =
      let (named, complete, _) = convert_from_secret-IsComplete env secret cache gw h in
      (named, complete)

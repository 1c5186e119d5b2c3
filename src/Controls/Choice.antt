-- ===== src/Controls/Choice.antt =====
-- What the controls list, and which of them the loopback clients get.
use mathlib.Core.List.{append-nil, append_assoc}
use cluster_gateway.Base.{
  String, ap, ◌+◌, ◌≡◌, refl, true, false, Option, none, some, List, [], ◌∷◌, ◌++◌, arith, ok,
  panic, All, All-append, length, ◌∙◌, sym, >>=-eq-ok,
}
use cluster_gateway.Api.{ManagedCluster}
use cluster_gateway.Controls.{
  OcmClusterControl, Loopback, Singleton, make, append_each, direct_list, cached_list, nil_lister,
  cluster_lister, init_cluster_control, init_secret_control, init_loopback_client,
  new_cache_ocm_cluster_control, is_ocm_managed_cluster_installed, ApiResources,
}

abbrev pub IsNil : Option ManagedCluster → Type 0
IsNil o = o ≡ none

make-IsNil : (items : List ManagedCluster) → All IsNil (make items)
unfolding make
make-IsNil [] = tt
make-IsNil (item ∷ items) = (refl, make-IsNil items)

length-make : (items : List ManagedCluster) → length (make items) ≡ length items
unfolding make
length-make [] = refl
length-make (item ∷ items) = omega (arith, length-make items)

append_each-append :
    (clusters over : List (Option ManagedCluster)) → append_each clusters over ≡ clusters ++ over
unfolding append_each
append_each-append clusters [] = sym (append-nil _)
append_each-append clusters (item ∷ over) =
    append_each-append (clusters ++ item ∷ []) over ∙ append_assoc clusters (item ∷ []) over

length-append {ℓ} : {A : Type ℓ} (xs ys : List A) → length (xs ++ ys) ≡ length xs + length ys
length-append [] ys = omega arith
length-append (x ∷ xs) ys = omega (arith, length-append xs ys)

-- The direct control lists no managed cluster at all: for n clusters it returns 2 n pointers, and
-- every one of them is nil.
pub direct_list-IsNil :
    (items : List ManagedCluster)
    → (clusters : List (Option ManagedCluster)) × (direct_list (ok items) ≡ ok clusters)
      × All IsNil clusters
      × (length clusters ≡ length items + length items)
unfolding direct_list
direct_list-IsNil items = (
  make items ++ make items,
  rw (append_each-append (make items) (make items)),
  All-append IsNil _ _ (make-IsNil items) (make-IsNil items),
  omega (arith, length-append (make items) (make items), length-make items),
)

module _ (l : Loopback) (resources : List ApiResources) where
  cluster_lister-missing :
      l.discovery ≡ ok resources
      → is_ocm_managed_cluster_installed (ok resources) ≡ ok false
      → cluster_lister l ≡ ok nil_lister
  unfolding cluster_lister
  cluster_lister-missing found missing =
      let installed : is_ocm_managed_cluster_installed l.discovery ≡ ok false =
        ap is_ocm_managed_cluster_installed found ∙ missing in
      rw (installed, cluster_lister)

  init_cluster_control-missing :
      (before : Option OcmClusterControl)
      → l.ocm_cluster_cache ≡ true
      → cluster_lister l ≡ ok nil_lister
      → init_cluster_control l before ≡ ok (new_cache_ocm_cluster_control nil_lister)
  unfolding init_cluster_control
  init_cluster_control-missing none on lister = simp (on, lister)
  init_cluster_control-missing (some c) on lister = simp (on, lister)

  -- With the cluster cache enabled and no CRD of managed clusters in the hub, the initialisation
  -- leaves a control over a lister that was never set: each of its reads dereferences nil.
  pub init_loopback_client-nil_lister :
      (before s : Singleton)
      → l.ocm_cluster_cache ≡ true
      → l.discovery ≡ ok resources
      → is_ocm_managed_cluster_installed (ok resources) ≡ ok false
      → init_loopback_client l before ≡ ok s
      → (control : OcmClusterControl) × (s.cluster_control ≡ some control)
        × (control.list ≡ panic)
        × ((name : String) → control.get name ≡ panic)
  unfolding init_loopback_client cached_list
  init_loopback_client-nil_lister before s on found missing e =
      let (secrets, e1, h1) = >>=-eq-ok (init_secret_control l before.secret_control) _ e in
      let (clusters, e2, h2) = >>=-eq-ok (init_cluster_control l before.cluster_control) _ h1 in
      let built : clusters ≡ new_cache_ocm_cluster_control nil_lister = cc (
        init_cluster_control-missing before.cluster_control on
          (cluster_lister-missing found missing)) in
      let got : some clusters ≡ s.cluster_control = cc h2 in
      (new_cache_ocm_cluster_control nil_lister, sym got ∙ ap some built, refl, λ name. refl)

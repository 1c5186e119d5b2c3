-- ===== src/Virtual/Client/Unique.antt =====
-- The names in a list of virtual clusters.
use cluster_gateway.Base.{
  ◌+◌, ◌≤◌, String, ◌≡◌, refl, sym, ap, ◌∙◌, inl, inr, ◌⊎◌, Bool, true, false, Option, List, [],
  ◌∷◌, ◌++◌, arith, eq_iff, str_eq, if◌then◌else◌, Bool-cases, count, count-append, Result, ok, err,
  panic, >>=-eq-ok, ok-injective,
}
use cluster_gateway.Api.{Secret, ManagedCluster}
use cluster_gateway.Virtual.{
  VirtualCluster, new_cluster_from_secret, new_cluster_from_managed_cluster, new_local_cluster,
  new_virtual_cluster, has_cluster,
}
use cluster_gateway.Virtual.Client.{
  Requirements, Selector, Client, appended, append_secrets, admitted, append_managed_clusters,
  selected, list, apply_to_list, listed_managed_clusters, before,
}

abbrev pub named : String → VirtualCluster → Bool
named n c = str_eq c.name n

abbrev pub secret_named : String → Secret → Bool
secret_named n s = str_eq s.name n

new_cluster_from_secret-name :
    (s : Secret) (c : VirtualCluster) → new_cluster_from_secret s ≡ ok c → c.name ≡ s.name
unfolding new_cluster_from_secret new_virtual_cluster
new_cluster_from_secret-name s c h = ground arith

new_cluster_from_managed_cluster-name :
    (m : ManagedCluster) (c : VirtualCluster)
    → new_cluster_from_managed_cluster m ≡ ok c
    → c.name ≡ m.name
unfolding new_cluster_from_managed_cluster new_virtual_cluster
new_cluster_from_managed_cluster-name m c h = ground arith

has_cluster-count :
    (items : List VirtualCluster) (n : String)
    → has_cluster items n ≡ false
    → count (named n) items ≡ 0
unfolding has_cluster
has_cluster-count [] n h = refl
has_cluster-count (c ∷ items) n h = elim (Bool-cases (str_eq c.name n)) [
  | inl same ↦ cc (rw same at h)
  | inr differs ↦ rw differs (omega (arith, has_cluster-count items n (rw differs at h)))
]

count-snoc :
    (n : String) (items : List VirtualCluster) (c : VirtualCluster)
    → count (named n) (items ++ c ∷ []) ≡ count (named n) items + (if str_eq c.name n then 1 else 0)
count-snoc n items c = count-append (named n) items (c ∷ []) ∙ ground arith

module _ (requirements : Requirements) (client : Client requirements) (namespace : String) where
  -- What a round makes of the count of a name.
  appended-count :
      (n : String) (items : List VirtualCluster) (r : Result VirtualCluster)
      {items' : List VirtualCluster}
      → appended requirements client namespace items r ≡ ok items'
      → (count (named n) items ≡ count (named n) items')
        ⊎ ((c : VirtualCluster) × (r ≡ ok c)
            × (count (named n) items' ≡ count (named n) items + (if str_eq c.name n then 1 else 0)))
  unfolding appended
  appended-count n items (ok c) h =
      inr (c, refl, ap (count (named n)) (sym (ok-injective h)) ∙ count-snoc n items c)
  appended-count n items (err e) h = inl (ap (count (named n)) (ok-injective h))
  appended-count n items panic h = cc h

  append_secrets-count :
      (n : String) (items : List VirtualCluster) (secrets : List Secret)
      (items' : List VirtualCluster)
      → append_secrets requirements client namespace items secrets ≡ ok items'
      → (count (named n) items' ≤ count (named n) items + count (secret_named n) secrets)
        × (count (named n) items ≤ count (named n) items')
  unfolding append_secrets
  append_secrets-count n items [] items' h =
      let same : items ≡ items' = ok-injective h in rw (← same) (omega arith, omega arith)
  append_secrets-count n items (s ∷ secrets) items' h =
      let (items1, h1, h2) =
        >>=-eq-ok (appended requirements client namespace items (new_cluster_from_secret s)) _ h in
      let (upper, lower) = append_secrets-count n items1 secrets items' h2 in
      elim (appended-count n items (new_cluster_from_secret s) h1) [
        | inl same ↦ (omega (arith, upper, same), omega (arith, lower, same))
        | inr (c, e, more) ↦
            let counted : count (named n) items1
                ≡ count (named n) items + (if str_eq s.name n then 1 else 0) =
              simp (new_cluster_from_secret-name s c e) at more in
            (omega (arith, upper, counted), omega (arith, lower, counted))
      ]

  admitted-count :
      (n : String) (items : List VirtualCluster) (m : ManagedCluster) (items' : List VirtualCluster)
      → admitted requirements client namespace items m ≡ ok items'
      → count (named n) items ≤ 1
      → (count (named n) items' ≤ 1) × (count (named n) items ≤ count (named n) items')
  unfolding admitted
  admitted-count n items m items' h bound = elim (Bool-cases (has_cluster items m.name)) [
    | inl known ↦
        let same : items ≡ items' = ok-injective (rw known at h) in rw (← same) (bound, omega arith)
    | inr unknown ↦
        elim (appended-count n items (new_cluster_from_managed_cluster m) (rw unknown at h)) [
          | inl same ↦ (omega (arith, bound, same), omega (arith, same))
          | inr (c, e, more) ↦ elim (Bool-cases (str_eq c.name n)) [
            | inl hit ↦
                let name : n ≡ m.name =
                  sym ((eq_iff c.name n).0 hit) ∙ new_cluster_from_managed_cluster-name m c e in
                let fresh : count (named n) items ≡ 0 =
                  has_cluster-count items n (ap (has_cluster items) name ∙ unknown) in
                let counted = rw hit at more in
                (omega (arith, fresh, counted), omega (arith, counted))
            | inr miss ↦
                let counted = rw miss at more in
                (omega (arith, bound, counted), omega (arith, counted))
          ]
        ]
  ]

  append_managed_clusters-count :
      (n : String) (items : List VirtualCluster) (ms : List ManagedCluster)
      (items' : List VirtualCluster)
      → append_managed_clusters requirements client namespace items ms ≡ ok items'
      → count (named n) items ≤ 1
      → (count (named n) items' ≤ 1) × (count (named n) items ≤ count (named n) items')
  unfolding append_managed_clusters
  append_managed_clusters-count n items [] items' h bound =
      let same : items ≡ items' = ok-injective h in rw (← same) (bound, omega arith)
  append_managed_clusters-count n items (m ∷ ms) items' h bound =
      let (items1, h1, h2) = >>=-eq-ok (admitted requirements client namespace items m) _ h in
      let (bound1, more1) = admitted-count n items m items1 h1 bound in
      let (bound2, more2) = append_managed_clusters-count n items1 ms items' h2 bound1 in
      (bound2, omega (arith, more1, more2))

  selected-count :
      (n : String) (selector : Option (Selector requirements)) (items : List VirtualCluster)
      → count (named n) (selected requirements client namespace selector items)
        ≤ count (named n) items
  unfolding selected
  selected-count n selector [] = omega arith
  selected-count n selector (c ∷ items) =
      let rest = selected-count n selector items in ground (arith, rest)

  local-count :
      (n : String) → count (named n) (new_local_cluster ∷ []) ≡ (if str_eq "local" n then 1 else 0)
  unfolding new_local_cluster
  local-count n = ground arith

  -- The clusters before the selection and the sorting.
  collected-count :
      (n : String) (secrets : List Secret) (clusters : List VirtualCluster)
      → append_secrets requirements client namespace (new_local_cluster ∷ []) secrets ≡ ok clusters
      → count (secret_named n) secrets ≤ 1
      → count (secret_named "local") secrets ≡ 0
      → count (named n) clusters ≤ 1
  collected-count n secrets clusters h distinct plain =
      let (upper, _) = append_secrets-count n (new_local_cluster ∷ []) secrets clusters h in
      let first = local-count n in
      elim (Bool-cases (str_eq "local" n)) [
        | inl hub ↦
            let same : "local" ≡ n = (eq_iff "local" n).0 hub in
            let none_listed : count (secret_named n) secrets ≡ 0 =
              ap (λ k. count (secret_named k) secrets) (sym same) ∙ plain in
            let one = rw hub at first in omega (arith, upper, one, none_listed)
        | inr other ↦
            let zero_first = rw other at first in omega (arith, upper, zero_first, distinct)
      ]

  module _
      (sort : (VirtualCluster → VirtualCluster → Bool) → List VirtualCluster → List VirtualCluster)
      (permutes : (less : VirtualCluster → VirtualCluster → Bool) (items : List VirtualCluster)
          (p : VirtualCluster → Bool)
        → count p (sort less items) ≡ count p items) where
    -- A list of virtual clusters has no two of one name, where sorting permutes, the secrets that
    -- the client lists have distinct names, and none of them is named as the hub.
    pub list-count :
        (selector : Option (Selector requirements)) (secrets : List Secret)
        (items : List VirtualCluster)
        → client.list_secrets namespace (apply_to_list requirements selector true) ≡ ok secrets
        → ((n : String) → count (secret_named n) secrets ≤ 1)
        → count (secret_named "local") secrets ≡ 0
        → list requirements client namespace sort selector ≡ ok items
        → (n : String) → count (named n) items ≤ 1
    unfolding list
    list-count selector secrets items listed distinct plain h n =
        let (clusters, h1, h2) =
          >>=-eq-ok (append_secrets requirements client namespace (new_local_cluster ∷ []) secrets)
            _ (rw listed at h) in
        let (ms, _, h3) =
          >>=-eq-ok (listed_managed_clusters requirements client namespace selector) _ h2 in
        let (all, h4, h5) =
          >>=-eq-ok (append_managed_clusters requirements client namespace clusters ms) _ h3 in
        let kept = selected requirements client namespace selector all in
        let bound = collected-count n secrets clusters h1 (distinct n) plain in
        let (bound_all, _) = append_managed_clusters-count n clusters ms all h4 bound in
        let fewer = selected-count n selector all in
        let sorted = permutes (before requirements client namespace) kept (named n) in
        let same = ap (count (named n)) (ok-injective h5) in
        omega (arith, bound_all, fewer, sorted, same)

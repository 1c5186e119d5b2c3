-- ===== src/Virtual/Client/Lookup.antt =====
-- Where `Get` takes a virtual cluster from.
use cluster_gateway.Base.{
  String, ◌≡◌, refl, ap, ◌∙◌, ◌⊎◌, inl, inr, Bool, false, Option, none, some, arith, str_eq, Error,
  Result, ◌>>=◌, ok, err, panic, >>=-eq-ok, ok-injective,
}
use cluster_gateway.Virtual.{
  VirtualCluster, new_cluster_from_secret, new_cluster_from_managed_cluster,
}
use cluster_gateway.Cert.{is_not_found}
use cluster_gateway.Virtual.Client.{
  Requirements, Client, converted, attempt, otherwise, reported, is_absent, get_managed, get,
}

-- The value of a result that has one.
abbrev pub returned : {A : Type 0} → Result A → Option A
returned (ok a) = some a
returned (err e) = none
returned panic = none

module _ (requirements : Requirements) where
  converted-inl :
      (r : Result VirtualCluster) {c : VirtualCluster}
      → converted requirements r ≡ ok (inl c)
      → r ≡ ok c
  unfolding converted
  converted-inl (ok v) h = ground (arith, h)
  converted-inl (err e) h = cc h
  converted-inl panic h = cc h

  attempt-inl :
      {A : Type 0} (ignored : Error → Bool) (r : Result A) (convert : A → Result VirtualCluster)
      {c : VirtualCluster}
      → attempt requirements ignored r convert ≡ ok (inl c)
      → (r >>= convert) ≡ ok c
  unfolding attempt
  attempt-inl ignored (ok a) convert h = converted-inl (convert a) h
  attempt-inl ignored (err e) convert h = cc h
  attempt-inl ignored panic convert h = cc h

  converted-inr :
      (r : Result VirtualCluster) {x : Option Error}
      → converted requirements r ≡ ok (inr x)
      → returned r ≡ none
  unfolding converted
  converted-inr (ok v) h = cc h
  converted-inr (err e) h = refl
  converted-inr panic h = cc

  -- A kept error means that there was nothing to convert.
  attempt-inr :
      {A : Type 0} (ignored : Error → Bool) (r : Result A) (convert : A → Result VirtualCluster)
      {x : Option Error}
      → attempt requirements ignored r convert ≡ ok (inr x)
      → returned (r >>= convert) ≡ none
  unfolding attempt
  attempt-inr ignored (ok a) convert h = converted-inr (convert a) h
  attempt-inr ignored (err e) convert h = refl
  attempt-inr ignored panic convert h = cc

  module _ (client : Client requirements) (namespace : String) where
    -- The cluster that the secret of a name stands for, and that of the managed cluster.
    abbrev pub from_secret : String → Result VirtualCluster
    from_secret name = client.get_secret namespace name >>= new_cluster_from_secret

    abbrev pub from_managed_cluster : String → Result VirtualCluster
    from_managed_cluster name =
        client.get_managed_cluster namespace name >>= new_cluster_from_managed_cluster

    get_managed-from_managed_cluster :
        (name : String) (e : Option Error) (c : VirtualCluster)
        → get_managed requirements client namespace name e ≡ ok c
        → from_managed_cluster name ≡ ok c
    unfolding get_managed otherwise
    get_managed-from_managed_cluster name e c h =
        let read = client.get_managed_cluster namespace name in
        let (x, hx, h1) =
          >>=-eq-ok
            (attempt requirements (is_absent requirements) read new_cluster_from_managed_cluster) _
            h in
        go x hx h1
      where
        go :
            (x : VirtualCluster ⊎ Option Error)
            → attempt requirements
                (is_absent requirements)
                (client.get_managed_cluster namespace name)
                new_cluster_from_managed_cluster
              ≡ ok x
            → otherwise requirements x (λ e'. err (reported requirements name e e')) ≡ ok c
            → from_managed_cluster name ≡ ok c
        go (inl v) hx h1 = attempt-inl _ _ _ (hx ∙ ap (λ w. ok (inl w)) (ok-injective h1))
        go (inr e') hx h1 = cc h1

    -- `Get` of another name than the hub's takes the cluster from the secret of that name, or, only
    -- where no secret of that name makes a cluster, from the managed cluster of that name.
    pub get-source :
        (name : String) (c : VirtualCluster)
        → str_eq name "local" ≡ false
        → get requirements client namespace name ≡ ok c
        → (from_secret name ≡ ok c)
          ⊎ ((returned (from_secret name) ≡ none) × (from_managed_cluster name ≡ ok c))
    unfolding get otherwise
    get-source name c remote h =
        let read = client.get_secret namespace name in
        let (x, hx, h1) =
          >>=-eq-ok (attempt requirements is_not_found read new_cluster_from_secret) _
            (rw remote at h) in
        go x hx h1
      where
        go :
            (x : VirtualCluster ⊎ Option Error)
            → attempt requirements is_not_found
                (client.get_secret namespace name)
                new_cluster_from_secret
              ≡ ok x
            → otherwise requirements x (get_managed requirements client namespace name) ≡ ok c
            → (from_secret name ≡ ok c)
              ⊎ ((returned (from_secret name) ≡ none) × (from_managed_cluster name ≡ ok c))
        go (inl v) hx h1 = inl (attempt-inl _ _ _ (hx ∙ ap (λ w. ok (inl w)) (ok-injective h1)))
        go (inr e) hx h1 = inr (attempt-inr _ _ _ hx, get_managed-from_managed_cluster name e c h1)

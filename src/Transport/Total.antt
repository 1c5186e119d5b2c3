-- ===== src/Transport/Total.antt =====
-- No nil is dereferenced for a gateway that the conversion of a secret gives.
use cluster_gateway.Base.{
  String, ◌≡◌, refl, ◌≢◌, inl, inr, Bool, Option, none, some, arith, eq_iff, Bool-cases, Result, ok,
  err, panic, ◌>>=◌, str_eq,
}
use cluster_gateway.Api.{
  ClusterAccessCredential, ClusterEndpoint, ClusterEndpointConst, ClusterGateway, Secret,
  type_const, type_cluster_proxy, Bytes,
}
use cluster_gateway.Exec.{Cache}
use cluster_gateway.Convert.{Env, convert}
use cluster_gateway.Convert.Complete.{IsComplete, IsReachable, IsHeld, convert-IsComplete}
use cluster_gateway.Transport.{
  Net, Url, Config, new_config, parsed, host_name, proxy_of, set_const, set_endpoint,
  set_credential, new_config_from_cluster, url_of, get_endpoint_url,
}

module _ {ℓ κ} {A : Type ℓ} {B : Type κ} where
  bind-ne-panic :
      (m : Result A) (f : A → Result B) → m ≢ panic → ((a : A) → f a ≢ panic) → (m >>= f) ≢ panic
  bind-ne-panic (ok a) f hm hf = hf a
  bind-ne-panic (err e) f hm hf = λ p. cc
  bind-ne-panic panic f hm hf = absurd (hm refl)

module _ (net : Net) where
  open net use {Dialer, parse, split_host_port, get_dialer}

  parsed-ne-panic : (address : String) → parsed net address ≢ panic
  parsed-ne-panic address = ground arith

  host_name-ne-panic : (u : Url) → host_name net u ≢ panic
  unfolding host_name
  host_name-ne-panic u = ground arith

  proxy_of-ne-panic : (url : Option String) → proxy_of net url ≢ panic
  unfolding proxy_of
  proxy_of-ne-panic none = λ p. cc
  proxy_of-ne-panic (some url) = ground arith

  set_const-ne-panic : (c : ClusterEndpointConst) (cfg : Config net) → set_const net c cfg ≢ panic
  unfolding set_const
  set_const-ne-panic c cfg = bind-ne-panic _ _ (parsed-ne-panic c.address) λ u.
      bind-ne-panic _ _ (host_name-ne-panic u)
        λ host. bind-ne-panic _ _ (proxy_of-ne-panic c.proxy_url) λ proxy p. cc

  module _ (dials : get_dialer ≢ panic) where
    set_endpoint-ne-panic :
        (name : String) (e : ClusterEndpoint) (cfg : Config net)
        → IsReachable e
        → set_endpoint net name e cfg ≢ panic
    unfolding set_endpoint
    set_endpoint-ne-panic name e cfg (inl (proxied, _)) =
        rw proxied (bind-ne-panic _ _ dials (λ dial p. cc))
    set_endpoint-ne-panic name e cfg (inr (direct, (c, given, _))) =
        elim (Bool-cases (str_eq e.type type_const)) [
          | inl t ↦ rw (t, given) (set_const-ne-panic c cfg)
          | inr nt ↦ ground (arith, eq_iff e.type type_cluster_proxy)
        ]

    set_credential-ne-panic :
        (c : ClusterAccessCredential) (cfg : Config net)
        → IsHeld c
        → set_credential net c cfg ≢ panic
    unfolding set_credential
    set_credential-ne-panic c cfg (inl t) = rw t (λ p. cc)
    set_credential-ne-panic c cfg (inr (inl (t, (x, given)))) = rw (t, given) (λ p. cc)
    set_credential-ne-panic c cfg (inr (inr (t, _))) = rw t (λ p. cc)

    new_config-ne-panic :
        (gw : ClusterGateway) → IsComplete gw → new_config_from_cluster net gw ≢ panic
    unfolding new_config_from_cluster
    new_config-ne-panic gw h = rw (h.endpoint_given) (
        bind-ne-panic _ _ (set_endpoint-ne-panic gw.name h.endpoint (new_config net) h.reachable)
          λ cfg. rw (h.credential_given) (set_credential-ne-panic h.credential cfg h.held))

    url_of-ne-panic :
        (name : String) (e : ClusterEndpoint) → IsReachable e → url_of net name e ≢ panic
    unfolding url_of
    url_of-ne-panic name e (inl (proxied, _)) = rw proxied (λ p. cc)
    url_of-ne-panic name e (inr (direct, (c, given, _))) =
        elim (Bool-cases (str_eq e.type type_const)) [
          | inl t ↦ rw (t, given) (parsed-ne-panic c.address)
          | inr nt ↦ ground (arith, eq_iff e.type type_cluster_proxy)
        ]

    -- For a gateway that was converted from a secret, building the client configuration and the
    -- endpoint's URL dereferences no nil, if the dialer's construction does not panic.
    pub convert-new_config-ne-panic :
        (env : Env) (ca : Bytes) (address : String) (insecure : Bool) (secret : Secret)
        (cache : Cache) (gw : ClusterGateway)
        → (convert env ca address insecure secret cache).0 ≡ ok gw
        → (new_config_from_cluster net gw ≢ panic) × (get_endpoint_url net gw ≢ panic)
    unfolding get_endpoint_url
    convert-new_config-ne-panic env ca address insecure secret cache gw e =
        let h = (convert-IsComplete env ca address insecure secret cache gw e).1 in
        (
          new_config-ne-panic gw h,
          rw (h.endpoint_given) (url_of-ne-panic gw.name h.endpoint h.reachable),
        )

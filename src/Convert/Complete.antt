-- ===== src/Convert/Complete.antt =====
-- A converted gateway has what the proxy needs of it: an endpoint and a credential.
use mathlib.Core.Path.{subst}
use cluster_gateway.Base.{
  String, ◌≡◌, refl, ◌≢◌, ◌⊎◌, inl, inr, Bool, none, some, arith, eq_iff, Bool-cases, Option-cases,
  ok, str_eq, Ensures, Ensures-ok, Ensures-err,
}
use cluster_gateway.Base.Maps.{lookup}
use cluster_gateway.Base.Effects.{>>=-eq-ok, lift}
use cluster_gateway.Api.{
  Bytes, is_blank, X509, ClusterAccessCredential, ClusterEndpointConst, ClusterEndpoint,
  ClusterGateway, Secret, ManagedCluster, type_cluster_proxy, type_token, type_x509, type_dynamic,
  label_credential_type,
}
use cluster_gateway.Exec.{Cache}
use cluster_gateway.Convert.Credential.{
  IsDynamic, issue_failure-Holds, build-Holds, IsSecretCredential,
  convert_credential-IsSecretCredential,
}
use cluster_gateway.Convert.{
  Env, endpoint_type, convert_endpoint, convert_credential, convert, convert_from_secret,
  convert_from_managed_cluster_and_secret, gateway, convert_status, convert_proxy_config,
}

-- A cluster proxy needs no address; any other endpoint has one.
abbrev pub IsReachable : ClusterEndpoint → Type 0
IsReachable e =
    ((e.type ≡ type_cluster_proxy) × (e.const ≡ none))
    ⊎ ((e.type ≢ type_cluster_proxy)
        × ((c : ClusterEndpointConst) × (e.const ≡ some c) × (c.address ≢ "")))

-- The credential is of a known type, with a pair where its type is X509Certificate, and with a token
-- or a whole pair where it is Dynamic.
abbrev pub IsHeld : ClusterAccessCredential → Type 0
IsHeld c =
    (c.type ≡ type_token) ⊎ ((c.type ≡ type_x509) × ((x : X509) × (c.x509 ≡ some x))) ⊎ IsDynamic c

pub record IsComplete (gw : ClusterGateway) : Type 0 where
  pub endpoint : ClusterEndpoint
  pub endpoint_given : gw.spec.access.endpoint ≡ some endpoint
  pub reachable : IsReachable endpoint
  pub credential : ClusterAccessCredential
  pub credential_given : gw.spec.access.credential ≡ some credential
  pub held : IsHeld credential

convert_endpoint-IsReachable :
    (ca : Bytes) (address : String) (insecure : Bool) (secret : Secret)
    → Ensures IsReachable (convert_endpoint ca address insecure secret)
unfolding convert_endpoint
convert_endpoint-IsReachable ca address insecure secret =
    elim (Bool-cases (str_eq (endpoint_type secret) type_cluster_proxy)) [
      | inl proxied ↦ rw proxied (Ensures-ok _ (inl ((eq_iff _ _).0 proxied, refl)))
      | inr direct ↦ rw direct (elim (Bool-cases (is_blank address)) [
        | inl blank ↦ rw blank (Ensures-err _)
        | inr given ↦ rw given (
            Ensures-ok _ (
              inr (
                λ e. ground (arith, eq_iff (endpoint_type secret) type_cluster_proxy),
                (_, refl, λ e. ground (arith, eq_iff address "")),
              )))
      ])
    ]

module _ (env : Env) where
  convert_credential-IsHeld :
      (secret : Secret) (cache : Cache) → Ensures IsHeld (convert_credential env secret cache).0
  unfolding convert_credential
  convert_credential-IsHeld secret cache =
      elim (Option-cases (lookup label_credential_type secret.labels)) [
        | inl e ↦ rw (e, convert_credential) (Ensures-err _)
        | inr (type, e) ↦
            rw (e, convert_credential)
              (elim (Bool-cases (str_eq type type_x509)) [
                | inl x ↦ rw x (Ensures-ok _ (inr (inl (refl, (_, refl)))))
                | inr nx ↦ rw nx (elim (Bool-cases (str_eq type type_token)) [
                  | inl t ↦ rw t (Ensures-ok _ (inl refl))
                  | inr nt ↦ rw nt (elim (Bool-cases (str_eq type type_dynamic)) [
                    | inl d ↦ rw d (record {
                      at = λ c h.
                          inr (inr ((issue_failure-Holds _ (build-Holds env secret cache)).at c h));
                    })
                    | inr nd ↦ rw nd (Ensures-err _)
                  ])
                ])
              ])
      ]

  -- A conversion that succeeds keeps the secret's name and gives a complete gateway.
  pub convert-IsComplete :
      (ca : Bytes) (address : String) (insecure : Bool) (secret : Secret) (cache : Cache)
      (gw : ClusterGateway)
      → (convert env ca address insecure secret cache).0 ≡ ok gw
      → (gw.name ≡ secret.name) × IsComplete gw
  unfolding convert
  convert-IsComplete ca address insecure secret cache gw h =
      let (e, he, h1) =
        >>=-eq-ok (lift {S = Cache} (convert_endpoint ca address insecure secret)) _ cache h in
      let (c, hc, h2) = >>=-eq-ok (convert_credential env secret) _ cache h1 in
      let (st, hs, h3) = >>=-eq-ok (lift {S = Cache} (convert_status env secret)) _ _ h2 in
      let (pc, hp, h4) = >>=-eq-ok (lift {S = Cache} (convert_proxy_config env secret)) _ _ h3 in
      let same : gateway secret e c st pc ≡ gw = cc h4 in
      subst (λ g. (g.name ≡ secret.name) × IsComplete g) same
        (
          refl,
          record {
            endpoint = e;
            endpoint_given = refl;
            reachable = (convert_endpoint-IsReachable ca address insecure secret).at e he;
            credential = c;
            credential_given = refl;
            held = (convert_credential-IsHeld secret cache).at c hc;
          },
        )

  -- The gateway's credential is the secret's.
  abbrev pub HasSecretCredential : Secret → Cache → ClusterGateway → Type 0
  HasSecretCredential secret cache gw =
      (c : ClusterAccessCredential) × (gw.spec.access.credential ≡ some c)
      × IsSecretCredential env secret cache c

  pub convert_from_managed_cluster_and_secret-IsComplete :
      (cluster : ManagedCluster) (secret : Secret) (cache : Cache) (gw : ClusterGateway)
      → (convert_from_managed_cluster_and_secret env cluster secret cache).0 ≡ ok gw
      → (gw.name ≡ secret.name) × IsComplete gw
  unfolding convert_from_managed_cluster_and_secret
  convert_from_managed_cluster_and_secret-IsComplete cluster secret cache gw h =
      convert-IsComplete _ _ _ secret cache gw h

  convert-HasSecretCredential :
      (ca : Bytes) (address : String) (insecure : Bool) (secret : Secret) (cache : Cache)
      (gw : ClusterGateway)
      → (convert env ca address insecure secret cache).0 ≡ ok gw
      → HasSecretCredential secret cache gw
  unfolding convert
  convert-HasSecretCredential ca address insecure secret cache gw h =
      let (e, he, h1) =
        >>=-eq-ok (lift {S = Cache} (convert_endpoint ca address insecure secret)) _ cache h in
      let (c, hc, h2) = >>=-eq-ok (convert_credential env secret) _ cache h1 in
      let (st, hs, h3) = >>=-eq-ok (lift {S = Cache} (convert_status env secret)) _ _ h2 in
      let (pc, hp, h4) = >>=-eq-ok (lift {S = Cache} (convert_proxy_config env secret)) _ _ h3 in
      let same : gateway secret e c st pc ≡ gw = cc h4 in
      subst (HasSecretCredential secret cache) same
        (c, refl, convert_credential-IsSecretCredential env secret cache c hc)

  pub convert_from_secret-IsComplete :
      (secret : Secret) (cache : Cache) (gw : ClusterGateway)
      → (convert_from_secret env secret cache).0 ≡ ok gw
      → (gw.name ≡ secret.name) × IsComplete gw × HasSecretCredential secret cache gw
  unfolding convert_from_secret
  convert_from_secret-IsComplete secret cache gw h =
      let (named, complete) = convert-IsComplete _ _ _ secret cache gw h in
      (named, complete, convert-HasSecretCredential _ _ _ secret cache gw h)

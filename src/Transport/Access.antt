-- ===== src/Transport/Access.antt =====
-- What a client configuration lets through: when certificates go unverified, and which credential
-- is presented.
use mathlib.Core.Path.{subst}
use cluster_gateway.Base.{
  String, ◌≡◌, refl, sym, ◌∙◌, ◌≢◌, ◌⊎◌, inl, inr, Bool, true, false, Option, none, some, arith,
  eq_iff, Bool-cases, Option-cases, if◌then◌else◌, ok, >>=-eq-ok, str_eq, deref, Ensures,
  Ensures-ok, Ensures-panic, Ensures-bind,
}
use cluster_gateway.Api.{
  ClusterAccessCredential, ClusterEndpoint, ClusterEndpointConst, ClusterGateway, Bytes, text,
  type_const, type_cluster_proxy, type_token, type_x509, type_dynamic, X509, is_blank,
}
use cluster_gateway.Convert.Complete.{IsComplete, IsHeld}
use cluster_gateway.Transport.{
  Net, Config, new_config, is_set, parsed, host_name, proxy_of, set_const, set_endpoint, set_pair,
  set_credential, new_config_from_cluster, with_pair,
}

-- The endpoints for which certificates are not verified.
abbrev pub SkipsVerification : ClusterEndpoint → Type 0
SkipsVerification e =
    (e.type ≡ type_cluster_proxy)
    ⊎ ((e.type ≡ type_const)
        × ((c : ClusterEndpointConst) × (e.const ≡ some c) × (c.insecure ≡ some true)))

no_ca : {b : Bool} (ca : Bytes) → b ≡ true → (if b then none else ca) ≡ none
no_ca ca h = rw h

module _ (net : Net) where
  -- A configuration that skips verification does so for such an endpoint, and has no CA data.
  abbrev Guarded : ClusterEndpoint → Config net → Type 0
  Guarded e cfg = cfg.insecure ≡ true → SkipsVerification e × (cfg.ca_data ≡ none)

  is_set-eq : (o : Option Bool) → is_set net o ≡ true → o ≡ some true
  unfolding is_set
  is_set-eq none h = cc
  is_set-eq (some b) h = cc

  set_const-Guarded :
      (e : ClusterEndpoint) (c : ClusterEndpointConst) (cfg : Config net)
      → e.type ≡ type_const
      → e.const ≡ some c
      → Ensures (Guarded e) (set_const net c cfg)
  unfolding set_const
  set_const-Guarded e c cfg t given = Ensures-bind (parsed net c.address) _ λ u.
      Ensures-bind (host_name net u) _ λ host. Ensures-bind (proxy_of net c.proxy_url) _ λ proxy.
        Ensures-ok _
          λ skips. (inr (t, (c, given, is_set-eq c.insecure skips)), no_ca c.ca_bundle skips)

  set_endpoint-Guarded :
      (name : String) (e : ClusterEndpoint)
      → Ensures (Guarded e) (set_endpoint net name e (new_config net))
  unfolding set_endpoint
  set_endpoint-Guarded name e = elim (Bool-cases (str_eq e.type type_const)) [
    | inl t ↦ rw t (elim (Option-cases e.const) [
      | inl missing ↦ simp missing Ensures-panic
      | inr (c, given) ↦ simp given (set_const-Guarded e c _ ((eq_iff _ _).0 t) given)
    ])
    | inr nt ↦ rw nt (elim (Bool-cases (str_eq e.type type_cluster_proxy)) [
      | inl p ↦ rw p (Ensures-bind _ _ (λ dial. Ensures-ok _ (λ _. (inl ((eq_iff _ _).0 p), refl))))
      | inr np ↦ rw np (Ensures-ok _ (λ h. cc))
    ])
  ]

  -- The credential's part of the configuration.
  abbrev pub Presents : ClusterAccessCredential → Config net → Type 0
  Presents c cfg =
      ((c.type ≡ type_token) × (cfg.bearer_token ≡ c.service_account_token))
      ⊎ ((c.type ≡ type_x509)
          × ((x : X509) × (c.x509 ≡ some x)
              × (cfg.cert_data ≡ x.certificate)
              × (cfg.key_data ≡ x.private_key)))
      ⊎ ((c.type ≡ type_dynamic)
          × (((c.service_account_token ≢ "") × (cfg.bearer_token ≡ c.service_account_token))
              ⊎ ((x : X509) × (c.x509 ≡ some x)
                  × (text x.certificate ≢ "")
                  × (text x.private_key ≢ "")
                  × (cfg.cert_data ≡ x.certificate)
                  × (cfg.key_data ≡ x.private_key))))

  blank_of : (s : String) → s ≢ "" → is_blank s ≡ false
  blank_of s h = ground (arith, eq_iff s "")

  bearer-set_pair :
      (x : Option X509) (cfg : Config net) → (set_pair net x cfg).bearer_token ≡ cfg.bearer_token
  unfolding set_pair with_pair
  bearer-set_pair none cfg = refl
  bearer-set_pair (some x) cfg = ground arith

  set_pair-given :
      (o : Option X509) (x : X509) (cfg : Config net)
      → o ≡ some x
      → text x.certificate ≢ ""
      → text x.private_key ≢ ""
      → set_pair net o cfg ≡ with_pair net x cfg
  unfolding set_pair
  set_pair-given none x cfg e p q = cc
  set_pair-given (some y) x cfg e p q =
      let same : y ≡ x = cc e in rw same (rw (blank_of _ p, blank_of _ q) refl)

  set_credential-Presents :
      (c : ClusterAccessCredential) (cfg : Config net)
      → IsHeld c
      → Ensures (Presents c) (set_credential net c cfg)
  unfolding set_credential with_pair
  set_credential-Presents c cfg (inl t) = simp t (Ensures-ok _ (inl (t, refl)))
  set_credential-Presents c cfg (inr (inl (t, (x, given)))) =
      simp (t, given) (Ensures-ok _ (inr (inl (t, (x, given, refl, refl)))))
  set_credential-Presents c cfg (inr (inr (t, inl token))) =
      simp (t, blank_of c.service_account_token token)
        (Ensures-ok _ (inr (inr (t, inl (token, bearer-set_pair c.x509 _)))))
  set_credential-Presents c cfg (inr (inr (t, inr (x, given, p, q)))) = simp t (
      simp (set_pair-given c.x509 x _ given p q)
        (Ensures-ok _ (inr (inr (t, inr (x, given, p, q, refl, refl))))))

  -- The credential's part leaves the verification of certificates alone.
  abbrev SameTls : Config net → Config net → Type 0
  SameTls a b = (b.insecure ≡ a.insecure) × (b.ca_data ≡ a.ca_data)

  set_pair-SameTls : (x : Option X509) (cfg : Config net) → SameTls cfg (set_pair net x cfg)
  unfolding set_pair with_pair
  set_pair-SameTls none cfg = (refl, refl)
  set_pair-SameTls (some x) cfg = ground arith

  set_credential-SameTls :
      (c : ClusterAccessCredential) (cfg : Config net)
      → Ensures (SameTls cfg) (set_credential net c cfg)
  unfolding set_credential with_pair
  set_credential-SameTls c cfg = elim (Bool-cases (str_eq c.type type_dynamic)) [
    | inl d ↦ rw d (Ensures-ok _ (pair_after (is_blank c.service_account_token)))
    | inr nd ↦ rw nd (elim (Bool-cases (str_eq c.type type_token)) [
      | inl t ↦ rw t (Ensures-ok _ (refl, refl))
      | inr nt ↦ rw nt (elim (Bool-cases (str_eq c.type type_x509)) [
        | inl x ↦ rw x (Ensures-bind _ _ (λ x. Ensures-ok _ (refl, refl)))
        | inr nx ↦ rw nx (Ensures-ok _ (refl, refl))
      ])
    ])
  ]
    where
      pair_after :
          (b : Bool)
          → SameTls cfg (
              set_pair net c.x509
                (if b then cfg else record cfg { bearer_token = c.service_account_token }))
      pair_after true = set_pair-SameTls c.x509 cfg
      pair_after false =
          set_pair-SameTls c.x509 (record cfg { bearer_token = c.service_account_token })

  -- Certificates go unverified only through a cluster proxy or for a constant endpoint that is
  -- marked insecure, and a configuration that does not verify them carries no CA data.
  pub new_config-insecure :
      (gw : ClusterGateway) (e : ClusterEndpoint) (cfg : Config net)
      → gw.spec.access.endpoint ≡ some e
      → new_config_from_cluster net gw ≡ ok cfg
      → cfg.insecure ≡ true
      → SkipsVerification e × (cfg.ca_data ≡ none)
  unfolding new_config_from_cluster
  new_config-insecure gw e cfg given h skips =
      let (e', he, h1) = >>=-eq-ok (deref gw.spec.access.endpoint) _ h in
      let (cfg1, hc, h2) = >>=-eq-ok (set_endpoint net gw.name e' (new_config net)) _ h1 in
      let (cred, hd, h3) = >>=-eq-ok (deref gw.spec.access.credential) _ h2 in
      let tls = (set_credential-SameTls cred cfg1).at cfg h3 in
      let same : e' ≡ e = ground arith in
      let guarded = (set_endpoint-Guarded gw.name e').at cfg1 hc (sym tls.0 ∙ skips) in
      (subst SkipsVerification same guarded.0, tls.1 ∙ guarded.1)

  -- The configuration of a complete gateway presents its credential: the token, the certificate
  -- and key, or, of a dynamic credential, its token where that is not empty, or else its pair of
  -- certificate and key, neither of which is empty then.
  pub new_config-Presents :
      (gw : ClusterGateway) (c : IsComplete gw) (cfg : Config net)
      → new_config_from_cluster net gw ≡ ok cfg
      → Presents c.credential cfg
  unfolding new_config_from_cluster
  new_config-Presents gw c cfg h =
      let (e', he, h1) = >>=-eq-ok (deref gw.spec.access.endpoint) _ h in
      let (cfg1, hc, h2) = >>=-eq-ok (set_endpoint net gw.name e' (new_config net)) _ h1 in
      let (cred, hd, h3) = >>=-eq-ok (deref gw.spec.access.credential) _ h2 in
      let same : cred ≡ c.credential = ground (arith, c.credential_given) in
      subst (λ k. Presents k cfg) same
        ((set_credential-Presents cred cfg1 (subst IsHeld (sym same) c.held)).at cfg h3)

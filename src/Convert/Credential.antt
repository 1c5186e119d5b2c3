-- ===== src/Convert/Credential.antt =====
-- Where the credential of a converted gateway comes from.
use cluster_gateway.Base.{
  String, ◌≡◌, refl, sym, ap, ◌∙◌, ok-injective, ◌≢◌, ◌⊎◌, inl, inr, false, none, some, arith,
  eq_iff, Bool-cases, Option-cases, Result, ok, err, panic, str_eq, Ensures, Ensures-ok,
  Ensures-err, Ensures-panic,
}
use cluster_gateway.Base.Maps.{lookup}
use cluster_gateway.Base.Effects.{Action, continue}
use cluster_gateway.Api.{
  text, value, is_blank, X509, ClusterAccessCredential, Secret, type_token, type_x509, type_dynamic,
  label_credential_type,
}
use cluster_gateway.Exec.{Cache, ExecCredential}
use cluster_gateway.Convert.{
  Env, dynamic_credential, build_credential_from_exec_config, convert_credential, issue_failure,
}

-- A dynamic credential has a token, or a whole pair of certificate and key.
abbrev pub IsDynamic : ClusterAccessCredential → Type 0
IsDynamic c =
    (c.type ≡ type_dynamic)
    × ((c.service_account_token ≢ "")
        ⊎ ((x : X509) × (c.x509 ≡ some x) × (text x.certificate ≢ "") × (text x.private_key ≢ "")))

pub not_blank : (s : String) → is_blank s ≡ false → s ≢ ""
not_blank s h e = ground (arith, eq_iff s "")

dynamic_credential-IsDynamic : (cred : ExecCredential) → Ensures IsDynamic (dynamic_credential cred)
unfolding dynamic_credential
dynamic_credential-IsDynamic cred = elim (Option-cases cred.status) [
  | inl e ↦ rw e Ensures-panic
  | inr (s, e) ↦ rw e (elim (Bool-cases (is_blank s.token)) [
    | inr given ↦ rw given (Ensures-ok _ (refl, inl (not_blank _ given)))
    | inl blank ↦ rw blank (elim (Bool-cases (is_blank s.client_certificate_data)) [
      | inl no_cert ↦ rw no_cert (Ensures-err _)
      | inr cert ↦ rw cert (elim (Bool-cases (is_blank s.client_key_data)) [
        | inl no_key ↦ rw no_key (Ensures-err _)
        | inr key ↦ rw key (Ensures-ok _ (refl, inr (_, refl, not_blank _ cert, not_blank _ key)))
      ])
    ])
  ])
]

-- The credential of an action.
abbrev pub Holds : Result ClusterAccessCredential × Cache → Type 0
Holds r = Ensures IsDynamic r.0

pub issue_failure-Holds :
    (r : Result ClusterAccessCredential × Cache) → Holds r → Holds (issue_failure r)
unfolding issue_failure
issue_failure-Holds (ok c, cache) h = h
issue_failure-Holds (err e, cache) h = Ensures-err _
issue_failure-Holds (panic, cache) h = h

continue-Holds :
    {A : Type 0} (r : Result A) (f : A → Action Cache ClusterAccessCredential) (cache : Cache)
    → ((a : A) (s : Cache) → Holds (f a s))
    → Holds (continue r f cache)
continue-Holds (ok a) f cache h = h a cache
continue-Holds (err e) f cache h = Ensures-err e
continue-Holds panic f cache h = Ensures-panic

module _ (env : Env) where
  pub build-Holds :
      (secret : Secret) (cache : Cache) → Holds (build_credential_from_exec_config env secret cache)
  unfolding build_credential_from_exec_config
  build-Holds secret cache =
      elim (Bool-cases (is_blank (text (value (lookup "exec" secret.contents))))) [
        | inl blank ↦ rw blank (Ensures-err _)
        | inr given ↦
            rw given
              (elim (Option-cases
                (env.decode_exec (text (value (lookup "exec" secret.contents))))) [
                  | inl bad ↦ rw bad (Ensures-err _)
                  | inr (ec, good) ↦
                      rw good (continue-Holds _ _ _ (λ cred s. dynamic_credential-IsDynamic cred))
                ])
      ]

  -- The credential is the secret's: its token, its pair of certificate and key, or what its command
  -- issues, a token or a whole pair.
  abbrev pub IsSecretCredential : Secret → Cache → ClusterAccessCredential → Type 0
  IsSecretCredential secret cache c =
      ((lookup label_credential_type secret.labels ≡ some type_token)
        × (c ≡ record {
          type = type_token;
          service_account_token = text (value (lookup "token" secret.contents));
          x509 = none;
        }))
      ⊎ ((lookup label_credential_type secret.labels ≡ some type_x509)
          × (c ≡ record {
            type = type_x509;
            service_account_token = "";
            x509 = some (record {
              certificate = value (lookup "tls.crt" secret.contents);
              private_key = value (lookup "tls.key" secret.contents);
            });
          }))
      ⊎ ((lookup label_credential_type secret.labels ≡ some type_dynamic)
          × ((build_credential_from_exec_config env secret cache).0 ≡ ok c)
          × IsDynamic c)

  issue_failure-eq-ok :
      (r : Result ClusterAccessCredential × Cache) (c : ClusterAccessCredential)
      → (issue_failure r).0 ≡ ok c
      → r.0 ≡ ok c
  unfolding issue_failure
  issue_failure-eq-ok (ok a, cache) c h = h
  issue_failure-eq-ok (err e, cache) c h = cc h
  issue_failure-eq-ok (panic, cache) c h = h

  pub convert_credential-IsSecretCredential :
      (secret : Secret) (cache : Cache) (c : ClusterAccessCredential)
      → (convert_credential env secret cache).0 ≡ ok c
      → IsSecretCredential secret cache c
  unfolding convert_credential
  convert_credential-IsSecretCredential secret cache c h =
      elim (Option-cases (lookup label_credential_type secret.labels)) [
        | inl e ↦ cc (rw (e, convert_credential) at h)
        | inr (type, e) ↦
            let h0 = rw (e, convert_credential) at h in
            elim (Bool-cases (str_eq type type_x509)) [
              | inl x ↦ inr (inl (e ∙ ap some ((eq_iff _ _).0 x), sym (ok-injective (rw x at h0))))
              | inr nx ↦ elim (Bool-cases (str_eq type type_token)) [
                | inl t ↦
                    inl (e ∙ ap some ((eq_iff _ _).0 t), sym (ok-injective (rw (nx, t) at h0)))
                | inr nt ↦ elim (Bool-cases (str_eq type type_dynamic)) [
                  | inl d ↦
                      let built = issue_failure-eq-ok _ c (rw (nx, nt, d) at h0) in
                      inr (
                        inr (
                          e ∙ ap some ((eq_iff _ _).0 d),
                          built,
                          (build-Holds secret cache).at c built,
                        ))
                  | inr nd ↦ cc (rw (nx, nt, nd) at h0)
                ]
              ]
            ]
      ]

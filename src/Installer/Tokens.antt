-- ===== src/Installer/Tokens.antt =====
-- The token of a cluster's secret after a copy.
use cluster_gateway.Base.{
  String, ◌≡◌, refl, sym, ap, ◌∙◌, inl, inr, some, [], ◌∷◌, eq_iff, str_eq, Bool-cases, Result, ok,
  err, panic, ok-injective, >>=-eq-ok,
}
use cluster_gateway.Base.Maps.{Map, lookup, insert, lookup-insert}
use cluster_gateway.Api.{Bytes, text, value, Secret}
use cluster_gateway.Configuration.{ConfigurationSpec, ManagementAddon, owned_by}
use cluster_gateway.Cert.{SecretApi, is_not_found}
use cluster_gateway.Cert.Copy.{SecretLaws}
use cluster_gateway.Installer.{
  token_key, root_ca_key, assigned, new_cluster_secret, with_token, failing, store, write_token,
  copy_token, copy_named, copy_secret_for_managed_service_account,
}

abbrev pub token_of : Secret → String
token_of s = text (value (lookup token_key s.contents))

assigned-token :
    (source : Secret) (contents updated : Map Bytes)
    → assigned source contents ≡ ok updated
    → lookup token_key updated ≡ some (value (lookup token_key source.contents))
unfolding assigned
assigned-token source [] updated h = cc h
assigned-token source (e ∷ es) updated h =
    let same = ok-injective h in
    ap (lookup token_key) (sym same)
    ∙ lookup-insert token_key token_key (value (lookup token_key source.contents))
        (insert root_ca_key (value (lookup root_ca_key source.contents)) (e ∷ es))

pub with_token-token_of :
    (source current updated : Secret)
    → with_token source current ≡ ok updated
    → (current.name ≡ updated.name) × (token_of updated ≡ token_of source)
unfolding with_token
with_token-token_of source current updated h =
    let (contents, given, e) = >>=-eq-ok (assigned source current.contents) _ h in
    let same = ok-injective e in
    (
      ap Secret.name same,
      ap token_of (sym same)
          ∙ ap (λ o. text (value o)) (assigned-token source current.contents contents given),
    )

pub failing-ok : (m : String) (r : Result (Unit {0})) → failing m r ≡ ok tt → r ≡ ok tt
unfolding failing
failing-ok m (ok u) h = refl
failing-ok m (err e) h = cc h
failing-ok m panic h = cc h

new_cluster_secret-token :
    (addon : ManagementAddon) (spec : ConfigurationSpec) (cluster : String) (source : Secret)
    → token_of (new_cluster_secret addon spec cluster source) ≡ token_of source
unfolding new_cluster_secret lookup
new_cluster_secret-token addon spec cluster source = refl

pub new_cluster_secret-owner_references :
    (addon : ManagementAddon) (spec : ConfigurationSpec) (cluster : String) (source : Secret)
    → (new_cluster_secret addon spec cluster source).owner_references ≡ owned_by addon
unfolding new_cluster_secret
new_cluster_secret-owner_references addon spec cluster source = refl

module _ {S : Type 0} (api : SecretApi S) (secrets : String → String → S → Result Secret) where
  module _ (laws : SecretLaws api) (addon : ManagementAddon) (spec : ConfigurationSpec)
      (cluster : String) (source : Secret) where
    -- The cluster's secret has the token of the source.
    abbrev pub HasToken : S → Type 0
    HasToken s =
        (t : Secret) × (api.get spec.secret_namespace cluster s ≡ ok t)
        × (token_of t ≡ token_of source)

    store-HasToken :
        (current : Secret) (r : Result Secret) (s : S)
        → with_token source current ≡ r
        → current.name ≡ cluster
        → (store api secrets spec.secret_namespace r s).0 ≡ ok tt
        → HasToken (store api secrets spec.secret_namespace r s).1
    unfolding store
    store-HasToken current (ok updated) s e named h =
        let (name, token) = with_token-token_of source current updated e in
        let stored = laws.get-update spec.secret_namespace updated s (failing-ok _ _ h) in
        (updated, simp (sym name ∙ named) at stored, token)
    store-HasToken current (err x) s e named h = cc h
    store-HasToken current panic s e named h = cc h

    write_token-HasToken :
        (r : Result Secret) (s : S)
        → api.get spec.secret_namespace cluster s ≡ r
        → (write_token api secrets addon spec cluster source r s).0 ≡ ok tt
        → HasToken (write_token api secrets addon spec cluster source r s).1
    unfolding write_token
    write_token-HasToken (ok current) s e h =
        elim (Bool-cases (str_eq (token_of source) (token_of current))) [
          | inl same ↦
              rw same (current, e, sym ((eq_iff (token_of source) (token_of current)).0 same))
          | inr differs ↦ rw differs (
              store-HasToken current (with_token source current) s refl
                (laws.get-name spec.secret_namespace cluster s current e) (rw differs at h))
        ]
    write_token-HasToken (err x) s e h = elim (Bool-cases (is_not_found x)) [
      | inl absent ↦
          let fresh = new_cluster_secret addon spec cluster source in
          rw absent (
            fresh,
            laws.get-create spec.secret_namespace fresh s (failing-ok _ _ (rw absent at h)),
            new_cluster_secret-token addon spec cluster source,
          )
      | inr other ↦ cc (rw other at h)
    ]
    write_token-HasToken panic s e h = cc h

  -- A copy that reports success leaves the cluster's secret with the token of the managed service
  -- account's secret, where the account is configured, the lister has its secret and agrees with
  -- the API on the cluster's.
  pub copy_secret_for_managed_service_account-HasToken :
      (laws : SecretLaws api) (addon : ManagementAddon) (spec : ConfigurationSpec)
      (cluster name : String) (source : Secret) (s : S)
      → spec.secret_management.managed_service_account ≡ some name
      → secrets cluster name s ≡ ok source
      → secrets spec.secret_namespace cluster s ≡ api.get spec.secret_namespace cluster s
      → (copy_secret_for_managed_service_account api secrets addon spec cluster s).0 ≡ ok tt
      → HasToken laws addon spec cluster source
          (copy_secret_for_managed_service_account api secrets addon spec cluster s).1
  unfolding copy_secret_for_managed_service_account copy_named copy_token
  copy_secret_for_managed_service_account-HasToken laws addon spec cluster name source s named found
        current h =
      rw (named, found)
        (write_token-HasToken laws addon spec cluster source
          (secrets spec.secret_namespace cluster s) s (sym current) (rw (named, found) at h))

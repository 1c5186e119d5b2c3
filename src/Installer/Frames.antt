-- ===== src/Installer/Frames.antt =====
-- What the copy of a token leaves as it was.
use cluster_gateway.Base.{
  String, ◌≡◌, refl, sym, ◌∙◌, inl, inr, Option, none, some, str_eq, Bool-cases, Result, ok, err,
  panic,
}
use cluster_gateway.Api.{Secret}
use cluster_gateway.Configuration.{ConfigurationSpec, ManagementAddon}
use cluster_gateway.Cert.{SecretApi, is_not_found}
use cluster_gateway.Cert.Copy.{SecretLaws}
use cluster_gateway.Installer.{
  new_cluster_secret, with_token, store, write_token, copy_token, copy_named,
  copy_secret_for_managed_service_account,
}
use cluster_gateway.Installer.Tokens.{token_of, with_token-token_of}

-- A write of one secret leaves every other as it was.
pub record SecretFrames {S : Type 0} (api : SecretApi S) : Type 0 where
  pub get-update_other :
      (namespace namespace' name' : String) (t : Secret) (s : S)
      → (namespace' ≡ namespace → name' ≡ t.name → ⊥)
      → api.get namespace' name' (api.update namespace t s).1 ≡ api.get namespace' name' s
  pub get-create_other :
      (namespace namespace' name' : String) (t : Secret) (s : S)
      → (namespace' ≡ namespace → name' ≡ t.name → ⊥)
      → api.get namespace' name' (api.create namespace t s).1 ≡ api.get namespace' name' s

module _ {S : Type 0} (api : SecretApi S) (laws : SecretLaws api) (frames : SecretFrames api)
    (addon : ManagementAddon) (spec : ConfigurationSpec) (cluster : String)
    (namespace' name' : String)
    (apart : namespace' ≡ spec.secret_namespace → name' ≡ cluster → ⊥) where
  store-frame :
      (source current : Secret) (r : Result Secret) (s : S)
      → with_token source current ≡ r
      → current.name ≡ cluster
      → api.get namespace' name' (store api api.get spec.secret_namespace r s).1
        ≡ api.get namespace' name' s
  unfolding store
  store-frame source current (ok updated) s e named =
      frames.get-update_other spec.secret_namespace namespace' name' updated s
        λ same_namespace same_name.
          apart same_namespace
            (same_name ∙ sym (with_token-token_of source current updated e).0 ∙ named)
  store-frame source current (err x) s e named = refl
  store-frame source current panic s e named = refl

  fresh_name : (source : Secret) → (new_cluster_secret addon spec cluster source).name ≡ cluster
  unfolding new_cluster_secret
  fresh_name source = refl

  write_token-frame :
      (source : Secret) (r : Result Secret) (s : S)
      → api.get spec.secret_namespace cluster s ≡ r
      → api.get namespace' name' (write_token api api.get addon spec cluster source r s).1
        ≡ api.get namespace' name' s
  unfolding write_token
  write_token-frame source (ok current) s e =
      elim (Bool-cases (str_eq (token_of source) (token_of current))) [
        | inl same ↦ rw same refl
        | inr differs ↦ rw differs (
            store-frame source current (with_token source current) s refl
              (laws.get-name spec.secret_namespace cluster s current e))
      ]
  write_token-frame source (err x) s e = elim (Bool-cases (is_not_found x)) [
    | inl absent ↦ rw absent (
        frames.get-create_other spec.secret_namespace namespace' name'
          (new_cluster_secret addon spec cluster source) s
          λ same_namespace same_name. apart same_namespace (same_name ∙ fresh_name source))
    | inr other ↦ rw other refl
  ]
  write_token-frame source panic s e = refl

  copy_token-frame :
      (r : Result Secret) (s : S)
      → api.get namespace' name' (copy_token api api.get addon spec cluster r s).1
        ≡ api.get namespace' name' s
  unfolding copy_token
  copy_token-frame (ok source) s =
      write_token-frame source (api.get spec.secret_namespace cluster s) s refl
  copy_token-frame (err e) s = elim (Bool-cases (is_not_found e)) [
    | inl absent ↦ rw absent refl
    | inr other ↦ rw other refl
  ]
  copy_token-frame panic s = refl

  copy_named-frame :
      (name : Option String) (s : S)
      → api.get namespace' name' (copy_named api api.get addon spec cluster name s).1
        ≡ api.get namespace' name' s
  unfolding copy_named
  copy_named-frame none s = refl
  copy_named-frame (some name) s = copy_token-frame (api.get cluster name s) s

  -- The copy of a cluster's token changes no secret but the cluster's.
  pub copy_secret_for_managed_service_account-frame :
      (s : S)
      → api.get namespace' name'
          (copy_secret_for_managed_service_account api api.get addon spec cluster s).1
        ≡ api.get namespace' name' s
  unfolding copy_secret_for_managed_service_account
  copy_secret_for_managed_service_account-frame s =
      copy_named-frame spec.secret_management.managed_service_account s

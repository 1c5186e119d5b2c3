-- ===== src/Installer/Steps/Managed.antt =====
-- The tokens of all clusters after the management of secrets.
mod Tests
use cluster_gateway.Base.{
  String, ◌≡◌, ◌≢◌, refl, sym, ap, ◌∙◌, ◌⊎◌, inl, inr, Bool, true, false, ◌&&◌, ◌||◌, Option, none,
  some, List, [], ◌∷◌, str_eq, eq_iff, arith, Bool-cases, if◌then◌else◌, Error, Result, ok, err,
  panic,
}
use cluster_gateway.Api.{Secret, addon_name}
use cluster_gateway.Configuration.{
  ConfigurationSpec, management_managed_service_account, ManagementAddon, ClusterAddon,
}
use cluster_gateway.Cert.Copy.{SecretLaws}
use cluster_gateway.Installer.{copy_secret_for_managed_service_account}
use cluster_gateway.Installer.Objects.{ManagedServiceAccount, build_managed_service_account}
use cluster_gateway.Installer.Tokens.{
  token_of, HasToken, copy_secret_for_managed_service_account-HasToken,
}
use cluster_gateway.Installer.Frames.{SecretFrames, copy_secret_for_managed_service_account-frame}
use cluster_gateway.Installer.Steps.{
  managed_service_account_object, InstallerApi, tolerating, next, naming, gateway_addons,
  manage_cluster, manage_clusters, manage_listed, manage_found, ensure_secret_management,
}
use cluster_gateway.Installer.Steps.Laws.{next-ok, naming-ok, next-naming-ok}

-- The addon of the gateway is listed for a cluster.
pub is_listed : String → List ClusterAddon → Bool
is_listed cluster [] = false
is_listed cluster (a ∷ addons) =
    let rest = is_listed cluster addons in
    if str_eq a.name addon_name && str_eq a.namespace cluster then true else rest

module _ {S : Type 0} (api : InstallerApi S) where
  -- What the clients rely on here: the lister is up to date, writes of secrets are read back and
  -- leave other secrets alone, and so does the creation of an account.
  pub record ManagementLaws : Type 0 where
    pub up_to_date : api.secret_lister ≡ api.secrets.get
    pub secret_laws : SecretLaws api.secrets
    pub frames : SecretFrames api.secrets
    pub create_account-secret :
        (m : ManagedServiceAccount) (namespace name : String) (s : S)
        → api.secrets.get namespace name (api.create (managed_service_account_object m) s).1
          ≡ api.secrets.get namespace name s

  module _ (laws : ManagementLaws) (addon : ManagementAddon) (spec : ConfigurationSpec)
      (account : String) (named : spec.secret_management.managed_service_account ≡ some account)
      (cluster : String) (outside : cluster ≢ spec.secret_namespace) (source : Secret) where
    -- The token of the cluster is there, as its source is.
    Issued : S → Type 0
    Issued s = api.secrets.get cluster account s ≡ ok source

    Copied : S → Type 0
    Copied s = HasToken api.secrets api.secrets.get laws.secret_laws addon spec cluster source s

    tolerating-state : (p : Result (Unit {0}) × S) → (tolerating p).1 ≡ p.1
    unfolding tolerating
    tolerating-state (r, s) = refl

    -- The state in which the token of one cluster is copied, and the copy there.
    manage_cluster-copy :
        (a : ClusterAddon) (s : S)
        → (manage_cluster api addon spec a s).0 ≡ ok tt
        → (s1 : S) × ((namespace name : String)
            → api.secrets.get namespace name s1 ≡ api.secrets.get namespace name s)
          × ((copy_secret_for_managed_service_account api.secrets api.secrets.get addon spec
                a.namespace s1).0
              ≡ ok tt)
          × ((manage_cluster api addon spec a s).1
              ≡ (copy_secret_for_managed_service_account api.secrets api.secrets.get addon spec
                  a.namespace s1).1)
    unfolding manage_cluster naming tolerating
    manage_cluster-copy a s h =
        let m = build_managed_service_account a in
        let s1 = (api.create (managed_service_account_object m) s).1 in
        let (first, second, same) =
          next-naming-ok "failed to create managed serviceaccount"
            (tolerating (api.create (managed_service_account_object m) s)) _ h in
        let copy =
          copy_secret_for_managed_service_account api.secrets api.secret_lister addon spec
            a.namespace s1 in
        let copied = naming-ok "failed to copy secret from managed serviceaccount" copy second in
        (
          s1,
          λ namespace name. laws.create_account-secret m namespace name s,
          rw laws.up_to_date at copied,
          ap (λ p. p.1) same ∙ rw laws.up_to_date refl,
        )

    manage_cluster-Issued :
        (a : ClusterAddon) (s : S)
        → Issued s
        → (manage_cluster api addon spec a s).0 ≡ ok tt
        → Issued (manage_cluster api addon spec a s).1
    unfolding Issued
    manage_cluster-Issued a s issued h =
        let (s1, kept, copied, same) = manage_cluster-copy a s h in
        ap (api.secrets.get cluster account) same
        ∙ copy_secret_for_managed_service_account-frame api.secrets laws.secret_laws laws.frames
            addon spec a.namespace cluster account (λ e _. outside e) s1
        ∙ kept cluster account
        ∙ issued

    -- The cluster's own addon, and that of another cluster.
    manage_cluster-Copied :
        (a : ClusterAddon) (s : S)
        → Issued s
        → a.namespace ≡ cluster
        → (manage_cluster api addon spec a s).0 ≡ ok tt
        → Copied (manage_cluster api addon spec a s).1
    unfolding Issued Copied
    manage_cluster-Copied a s issued here h =
        let (s1, kept, copied, same) = manage_cluster-copy a s h in
        rw same (
          rw here (
            copy_secret_for_managed_service_account-HasToken api.secrets api.secrets.get
              laws.secret_laws addon spec cluster account source s1 named
              (kept cluster account ∙ issued) refl (rw here at copied)))

    manage_cluster-other :
        (a : ClusterAddon) (s : S)
        → Copied s
        → a.namespace ≢ cluster
        → (manage_cluster api addon spec a s).0 ≡ ok tt
        → Copied (manage_cluster api addon spec a s).1
    unfolding Copied
    manage_cluster-other a s (t, stored, token) elsewhere h =
        let (s1, kept, copied, same) = manage_cluster-copy a s h in
        (
          t,
          ap (api.secrets.get spec.secret_namespace cluster) same
              ∙ copy_secret_for_managed_service_account-frame api.secrets laws.secret_laws
                  laws.frames addon spec a.namespace spec.secret_namespace cluster
                  (λ _ e. elsewhere (sym e)) s1
              ∙ kept spec.secret_namespace cluster
              ∙ stored,
          token,
        )

    listed_later :
        (a : ClusterAddon) (addons : List ClusterAddon)
        → (str_eq a.name addon_name && str_eq a.namespace cluster) ≡ false
        → is_listed cluster (a ∷ addons) ≡ true
        → is_listed cluster addons ≡ true
    unfolding is_listed
    listed_later a addons other h = rw other at h

    -- What stands before a cluster's addon, and at it.
    manage_cluster-is_listed :
        (a : ClusterAddon) (addons : List ClusterAddon) (s : S)
        → a.name ≡ addon_name
        → Issued s
        → Copied s ⊎ (is_listed cluster (a ∷ addons) ≡ true)
        → (manage_cluster api addon spec a s).0 ≡ ok tt
        → Copied (manage_cluster api addon spec a s).1 ⊎ (is_listed cluster addons ≡ true)
    manage_cluster-is_listed a addons s gateway issued before h =
        elim (Bool-cases (str_eq a.namespace cluster)) [
          | inl same ↦
              inl (manage_cluster-Copied a s issued ((eq_iff a.namespace cluster).0 same) h)
          | inr differs ↦ elim before [
            | inl copied ↦ inl (
                manage_cluster-other a s copied
                  (λ e. cc (differs, (eq_iff a.namespace cluster).1 e)) h)
            | inr listed ↦
                inr
                  (listed_later a addons (rw ((eq_iff a.name addon_name).1 gateway) differs) listed)
          ]
        ]

    manage_clusters-Copied :
        (addons : List ClusterAddon) (s : S)
        → Issued s
        → Copied s ⊎ (is_listed cluster addons ≡ true)
        → (manage_clusters api addon spec (gateway_addons api addons) s).0 ≡ ok tt
        → Copied (manage_clusters api addon spec (gateway_addons api addons) s).1
    unfolding manage_clusters gateway_addons is_listed
    manage_clusters-Copied [] s issued (inl copied) h = copied
    manage_clusters-Copied [] s issued (inr listed) h = cc listed
    manage_clusters-Copied (a ∷ addons) s issued before h =
        elim (Bool-cases (str_eq a.name addon_name)) [
          | inl gateway ↦
              let (first, second, same) =
                next-ok (manage_cluster api addon spec a s)
                  (manage_clusters api addon spec (gateway_addons api addons)) (rw gateway at h) in
              rw gateway (
                rw same (
                  manage_clusters-Copied addons (manage_cluster api addon spec a s).1
                    (manage_cluster-Issued a s issued first)
                    (manage_cluster-is_listed a addons s ((eq_iff a.name addon_name).0 gateway)
                      issued before first)
                    second))
          | inr other ↦
              let later : Copied s ⊎ (is_listed cluster addons ≡ true) = elim before [
                | inl copied ↦ inl copied
                | inr listed ↦ inr (listed_later a addons (rw other refl) listed)
              ] in
              rw other (manage_clusters-Copied addons s issued later (rw other at h))
        ]

  -- The management of secrets, where it is by service accounts, the hub has their resource and the
  -- list of addons has the gateway's for a cluster, leaves the cluster's secret with the token that
  -- has been issued for it, if it reports success: whatever other addons stand in the list. The
  -- cluster is not the namespace of the secrets, and the lister is up to date.
  pub ensure_secret_management-HasToken :
      (laws : ManagementLaws) (addon : ManagementAddon) (spec : ConfigurationSpec)
      (account : String) (addons : List ClusterAddon) (cluster : String) (source : Secret) (s : S)
      → spec.secret_management.type ≡ management_managed_service_account
      → spec.secret_management.managed_service_account ≡ some account
      → api.find_managed_service_accounts s ≡ ok tt
      → api.list_addons s ≡ ok addons
      → is_listed cluster addons ≡ true
      → cluster ≢ spec.secret_namespace
      → api.secrets.get cluster account s ≡ ok source
      → (ensure_secret_management api addon spec s).0 ≡ ok tt
      → HasToken api.secrets api.secrets.get laws.secret_laws addon spec cluster source
          (ensure_secret_management api addon spec s).1
  unfolding ensure_secret_management manage_found manage_listed Copied Issued
  ensure_secret_management-HasToken laws addon spec account addons cluster source s managed named
        found listed there outside issued h =
      let is_managed =
        (eq_iff spec.secret_management.type management_managed_service_account).1 managed in
      rw (is_managed, found, listed)
        (manage_clusters-Copied laws addon spec account named cluster outside source addons s issued
          (inr there) (rw (is_managed, found, listed) at h))

-- ===== src/Installer/Steps/Managed/Tests.antt =====
-- Two clusters, and the token of one of them.
use cluster_gateway.Base.{
  String, ◌≡◌, ◌≢◌, refl, ap, inl, inr, true, ◌&&◌, Option, none, some, List, [], ◌∷◌, str_eq,
  eq_iff, if◌then◌else◌, not_found, ok, err, Bool-cases,
}
use cluster_gateway.Api.{Secret}
use cluster_gateway.Configuration.{ClusterAddon}
use cluster_gateway.Convert.Sample.{sample_secret}
use cluster_gateway.Cert.{SecretApi, is_not_found}
use cluster_gateway.Cert.Copy.{SecretLaws}
use cluster_gateway.Cert.Sample.{read, read-name, same_text}
use cluster_gateway.Installer.{
  failing, write_token, copy_token, copy_named, copy_secret_for_managed_service_account,
}
use cluster_gateway.Installer.Frames.{SecretFrames}
use cluster_gateway.Installer.Tokens.{HasToken}
use cluster_gateway.Installer.Steps.{
  InstallerApi, tolerated, next, naming, tolerating, gateway_addons, manage_cluster,
  manage_clusters, manage_listed, manage_found, ensure_secret_management,
}
use cluster_gateway.Installer.Steps.Sample.{sample_addon, sample_config, sample_cluster_addon}
use cluster_gateway.Installer.Steps.Managed.{
  is_listed, ManagementLaws, ensure_secret_management-HasToken,
}

-- The secrets of a hub, by namespace and name.
abbrev Secrets : Type 0
Secrets = String → String → Option Secret

abbrev put : String → Secret → Secrets → Secrets
put namespace t s n m = if str_eq n namespace && str_eq m t.name then some t else s n m

abbrev secrets : SecretApi Secrets
secrets = record {
  get = λ namespace name s. read name (s namespace name);
  create = λ namespace t s. (ok tt, put namespace t s);
  update = λ namespace t s. (ok tt, put namespace t s);
}

put-same :
    (namespace : String) (t : Secret) (s : Secrets)
    → read t.name (put namespace t s namespace t.name) ≡ ok t
put-same namespace t s = rw (same_text namespace, same_text t.name) (rw (same_text t.name) refl)

put-other :
    (namespace namespace' name' : String) (t : Secret) (s : Secrets)
    → (namespace' ≡ namespace → name' ≡ t.name → ⊥)
    → put namespace t s namespace' name' ≡ s namespace' name'
put-other namespace namespace' name' t s apart = elim (Bool-cases (str_eq namespace' namespace)) [
  | inl same ↦ elim (Bool-cases (str_eq name' t.name)) [
    | inl same' ↦
        absurd (apart ((eq_iff namespace' namespace).0 same) ((eq_iff name' t.name).0 same'))
    | inr other ↦ rw (same, other) refl
  ]
  | inr other ↦ rw other refl
]

secret_laws : SecretLaws secrets
secret_laws = record {
  get-name = λ namespace name s t h. read-name name (s namespace name) t h;
  get-update = λ namespace t s h. put-same namespace t s;
  get-create = λ namespace t s h. put-same namespace t s;
  create-fresh = λ namespace t s e e' missing absent h. cc h;
}

frames : SecretFrames secrets
frames = record {
  get-update_other = λ namespace namespace' name' t s apart.
      ap (read name') (put-other namespace namespace' name' t s apart);
  get-create_other = λ namespace namespace' name' t s apart.
      ap (read name') (put-other namespace namespace' name' t s apart);
}

abbrev west : ClusterAddon
west = record sample_cluster_addon { namespace = "west" }

abbrev addons : List ClusterAddon
addons = west ∷ sample_cluster_addon ∷ record west { name = "other" } ∷ []

abbrev api : InstallerApi Secrets
api = record {
  secrets = secrets;
  secret_lister = secrets.get;
  get_addon = λ name s. ok sample_addon;
  get_configuration = λ name s. ok sample_config;
  create_namespace = λ name s. (ok tt, s);
  find_managed_service_accounts = λ s. ok tt;
  list_addons = λ s. ok addons;
  create = λ o s. (ok tt, s);
  update = λ o s. (ok tt, s);
  get_deployment = λ namespace name s. err (not_found name);
  get_api_service = λ name s. err (not_found name);
  rotate = λ namespace name hosts hours s. (ok tt, s);
  ca_pem = ok "CA";
}

laws : ManagementLaws api
laws = record {
  up_to_date = refl;
  secret_laws = secret_laws;
  frames = frames;
  create_account-secret = λ m namespace name s. refl;
}

-- The account of the east is issued a token; that of the west is not yet.
abbrev issued : Secrets
issued = put "east" sample_secret λ namespace name. none

there : is_listed "east" addons ≡ true
unfolding is_listed
there = refl

outside : "east" ≢ sample_config.spec.secret_namespace
outside e = cc ((eq_iff "east" sample_config.spec.secret_namespace).1 e)

managed : (ensure_secret_management api sample_addon sample_config.spec issued).0 ≡ ok tt
unfolding ensure_secret_management manage_found manage_listed manage_clusters manage_cluster
    gateway_addons next naming tolerating tolerated failing copy_secret_for_managed_service_account
    copy_named copy_token write_token is_not_found
managed = refl

ensure_secret_management-HasToken_example :
    HasToken secrets secrets.get secret_laws sample_addon sample_config.spec "east" sample_secret
      (ensure_secret_management api sample_addon sample_config.spec issued).1
ensure_secret_management-HasToken_example =
    ensure_secret_management-HasToken api laws sample_addon sample_config.spec "prod" addons "east"
      sample_secret issued refl refl refl refl there outside refl managed

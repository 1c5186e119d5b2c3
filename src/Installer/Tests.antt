-- ===== src/Installer/Tests.antt =====
-- The first copy of a token.
use cluster_gateway.Base.{◌≡◌, ◌≢◌, refl, true, some, none, [], ◌∷◌, not_found, ok, err, eq_iff}
use cluster_gateway.Base.Maps.{lookup}
use cluster_gateway.Configuration.{
  ConfigurationSpec, ManagementAddon, configuration_crd_name, egress_direct, egress_cluster_proxy,
  management_managed_service_account,
}
use cluster_gateway.Api.{ClientConfig, ManagedCluster, Secret, type_const, type_cluster_proxy}
use cluster_gateway.Convert.{convert_from_secret, convert_from_managed_cluster_and_secret}
use cluster_gateway.Convert.Token.{token_gateway}
use cluster_gateway.Convert.Sample.{sample_env, sample_secret}
use cluster_gateway.Cert.{is_not_found}
use cluster_gateway.Cert.Sample.{Store, api, laws}
use cluster_gateway.Installer.{
  failing, write_token, copy_token, copy_named, copy_secret_for_managed_service_account,
}
use cluster_gateway.Installer.Convertible.{
  copy_secret-converts_proxied, copy_secret-converts_direct,
}
use cluster_gateway.Installer.Tokens.{token_of}

abbrev addon : ManagementAddon
addon = record {
  name = "cluster-gateway";
  uid = "1";
  crd_name = configuration_crd_name;
  cr_name = "cluster-gateway";
}

abbrev spec : ConfigurationSpec
spec = record {
  image = "gateway:v1";
  secret_namespace = "vela-system";
  install_namespace = "gateway-system";
  secret_management = record {
    type = management_managed_service_account;
    managed_service_account = some "prod";
  };
  egress = record { type = egress_cluster_proxy; cluster_proxy = none };
}

abbrev issued : Store
issued = ("east/prod", sample_secret) ∷ []

found : api.get "east" "prod" issued ≡ ok sample_secret
unfolding lookup
found = refl

copied : (copy_secret_for_managed_service_account api api.get addon spec "east" issued).0 ≡ ok tt
unfolding copy_secret_for_managed_service_account copy_named copy_token write_token failing
    is_not_found lookup
copied = refl

missing : api.get "vela-system" "east" issued ≡ err (not_found "east")
unfolding lookup
missing = refl

is_absent : is_not_found (not_found "east") ≡ true
unfolding is_not_found
is_absent = refl

copy_secret-converts_proxied_example :
    (t : Secret) × (api.get "vela-system" "east"
        (copy_secret_for_managed_service_account api api.get addon spec "east" issued).1
      ≡ ok t)
    × (t.name ≡ "east")
    × (token_of t ≡ token_of sample_secret)
    × (convert_from_secret sample_env t []
        ≡ (ok (token_gateway t (record { type = type_cluster_proxy; const = none })), []))
copy_secret-converts_proxied_example =
    copy_secret-converts_proxied api api.get laws addon spec "east" "prod" sample_secret issued
      (not_found "east") refl found missing is_absent copied sample_env [] refl

abbrev direct_spec : ConfigurationSpec
direct_spec = record spec { egress = record { type = egress_direct; cluster_proxy = none } }

is_direct : direct_spec.egress.type ≢ egress_cluster_proxy
is_direct e = cc ((eq_iff egress_direct egress_cluster_proxy).1 e)

copied_directly :
    (copy_secret_for_managed_service_account api api.get addon direct_spec "east" issued).0 ≡ ok tt
unfolding copy_secret_for_managed_service_account copy_named copy_token write_token failing
    is_not_found lookup
copied_directly = refl

abbrev east_config : ClientConfig
east_config = record { url = "https://east:6443"; ca_bundle = some "CA" }

abbrev east : ManagedCluster
east = record {
  name = "east";
  creation_timestamp = 1;
  labels = [];
  annotations = [];
  client_configs = east_config ∷ [];
  hub_accepts_client = true;
}

has_url : east_config.url ≢ ""
has_url e = cc e

copy_secret-converts_direct_example :
    (t : Secret) × (api.get "vela-system" "east"
        (copy_secret_for_managed_service_account api api.get addon direct_spec "east" issued).1
      ≡ ok t)
    × (t.name ≡ "east")
    × (token_of t ≡ token_of sample_secret)
    × (convert_from_managed_cluster_and_secret sample_env east t [] ≡ (
      ok (
          token_gateway t (record {
            type = type_const;
            const = some (record {
              address = "https://east:6443";
              ca_bundle = some "CA";
              insecure = none;
              proxy_url = none;
            });
          })),
      [],
    ))
copy_secret-converts_direct_example =
    copy_secret-converts_direct api api.get laws addon direct_spec "east" "prod" sample_secret
      issued (not_found "east") refl found missing is_absent copied_directly sample_env [] east
      east_config [] is_direct refl has_url

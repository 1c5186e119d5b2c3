-- ===== src/Installer/Steps/Sample.antt =====
-- A hub with one deployment and one APIService, for tests.
use cluster_gateway.Base.{
  String, refl, Option, none, some, [], ◌∷◌, not_found, already_exists, Result, ok, err,
}
use cluster_gateway.Base.Decimal.{pos}
use cluster_gateway.Base.Effects.{Action}
use cluster_gateway.Convert.Sample.{sample_secret}
use cluster_gateway.Configuration.{
  egress_direct, management_managed_service_account, ClusterGatewayConfiguration, ManagementAddon,
  ClusterAddon, configuration_crd_name,
}
use cluster_gateway.Cert.Sample.{Store, api as store_api}
use cluster_gateway.Installer.Objects.{ApiService}
use cluster_gateway.Installer.Deployment.{Deployment}
use cluster_gateway.Installer.Steps.{Object, api_service_object, deployment_object, InstallerApi}
use cluster_gateway.Installer.Steps.Laws.{InstallerLaws}

pub record Hub : Type 0 where
  pub secrets : Store
  pub deployment : Option Deployment
  pub api_service : Option ApiService

abbrev pub sample_addon : ManagementAddon
sample_addon = record {
  name = "cluster-gateway";
  uid = "1";
  crd_name = configuration_crd_name;
  cr_name = "cluster-gateway";
}

abbrev pub sample_config : ClusterGatewayConfiguration
sample_config = record {
  name = "cluster-gateway";
  generation = pos 3;
  spec = record {
    image = "gateway:v1";
    secret_namespace = "vela-system";
    install_namespace = "gateway-system";
    secret_management = record {
      type = management_managed_service_account;
      managed_service_account = some "prod";
    };
    egress = record { type = egress_direct; cluster_proxy = none };
  };
}

abbrev pub sample_cluster_addon : ClusterAddon
sample_cluster_addon = record {
  namespace = "east";
  name = "cluster-gateway";
  uid = "2";
  install_namespace = "agents";
  cr_name = "cluster-gateway";
}

abbrev present : {A : Type 0} → String → Option A → Result A
present name none = err (not_found name)
present name (some a) = ok a

-- Only the secrets of the hub change.
abbrev on_secrets : Action Store (Unit {0}) → Action Hub (Unit {0})
on_secrets action s = let (r, secrets) = action s.secrets in (r, record s { secrets = secrets })

abbrev create_api_service : ApiService → Option ApiService → Action Hub (Unit {0})
create_api_service a none s = (ok tt, record s { api_service = some a })
create_api_service a (some _) s = (err (already_exists a.meta.name), s)

abbrev create_object : Object → Action Hub (Unit {0})
create_object (deployment_object d) s = (ok tt, record s { deployment = some d })
create_object (api_service_object a) s = create_api_service a s.api_service s
create_object _ s = (ok tt, s)

abbrev update_object : Object → Action Hub (Unit {0})
update_object (deployment_object d) s = (ok tt, record s { deployment = some d })
update_object (api_service_object a) s = (ok tt, record s { api_service = some a })
update_object _ s = (ok tt, s)

abbrev pub sample_api : InstallerApi Hub
sample_api = record {
  secrets = record {
    get = λ namespace name s. store_api.get namespace name s.secrets;
    create = λ namespace t. on_secrets (store_api.create namespace t);
    update = λ namespace t. on_secrets (store_api.update namespace t);
  };
  secret_lister = λ namespace name s. store_api.get namespace name s.secrets;
  get_addon = λ name s. ok sample_addon;
  get_configuration = λ name s. ok sample_config;
  create_namespace = λ name s. (err (already_exists name), s);
  find_managed_service_accounts = λ s. ok tt;
  list_addons = λ s. ok (sample_cluster_addon ∷ []);
  create = create_object;
  update = update_object;
  get_deployment = λ namespace name s. present name s.deployment;
  get_api_service = λ name s. present name s.api_service;
  rotate = λ namespace name hosts hours s. (ok tt, s);
  ca_pem = ok "CA";
}

pub sample_laws : InstallerLaws sample_api
sample_laws = record {
  get-create = λ d s h. (d, refl, refl);
  get-update = λ d s h. (d, refl, refl);
  get-update_api_service = λ a s h. (a, refl, refl);
  update_api_service-deployment = λ a namespace name s. refl;
}

-- The token of one cluster has been issued, and nothing is installed.
abbrev pub sample_hub : Hub
sample_hub = record {
  secrets = ("east/prod", sample_secret) ∷ [];
  deployment = none;
  api_service = none;
}

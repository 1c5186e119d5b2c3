-- ===== src/Events/Watches/Tests.antt =====
-- Events of what the installer makes for a sample configuration.
use cluster_gateway.Base.{
  ◌≡◌, refl, some, List, [], ◌∷◌, str_eq, if◌then◌else◌, ok, eq_iff, Bool-cases, inl, inr,
}
use cluster_gateway.Api.{OwnerReference, Secret}
use cluster_gateway.Convert.Sample.{sample_secret}
use cluster_gateway.Installer.{new_cluster_secret}
use cluster_gateway.Installer.Objects.{ApiService, new_api_service}
use cluster_gateway.Installer.Deployment.{
  Deployment, server_parts, deployment, parts_of, new_cluster_gateway_deployment,
}
use cluster_gateway.Installer.Steps.Sample.{sample_addon, sample_config}
use cluster_gateway.Events.{
  Request, create_event, delete_event, update_event, object, addon_request,
}
use cluster_gateway.Events.Watches.{
  Handlers, deployment_event, secret_event, api_service_event, installer_requests, HandlerLaws,
  installer_requests-installed,
}

owner_requests : List OwnerReference → List Request
owner_requests [] = []
owner_requests (ref ∷ refs) =
    let rest = owner_requests refs in
    if str_eq ref.kind "ClusterManagementAddOn"
    then record { namespace = ""; name = ref.name } ∷ rest
    else rest

abbrev handlers : Handlers
handlers = record {
  for_object = λ e. record { namespace = ""; name = (object e).name } ∷ [];
  for_owner = owner_requests;
}

laws : HandlerLaws handlers
unfolding owner_requests
laws = record {
  for_owner-same = λ owner version kind. rw ((eq_iff owner.kind _).1 kind) refl;
  for_owner-other = λ owner kind. elim (Bool-cases (str_eq owner.kind "ClusterManagementAddOn")) [
    | inl same ↦ absurd (kind ((eq_iff owner.kind _).0 same))
    | inr differs ↦ rw differs refl
  ];
}

abbrev built : Deployment
built = deployment sample_addon sample_config (server_parts "vela-system")

built_deployment : new_cluster_gateway_deployment sample_addon sample_config ≡ ok built
unfolding new_cluster_gateway_deployment parts_of
built_deployment = refl

abbrev fresh : Secret
fresh = new_cluster_secret sample_addon sample_config.spec "east" sample_secret

abbrev service : ApiService
service = new_api_service sample_addon "gateway-system" (some "CA")

installer_requests-installed_example :
    (installer_requests handlers (ok []) (deployment_event (delete_event built))
      ≡ addon_request ∷ [])
    × (installer_requests handlers (ok []) (secret_event (create_event fresh)) ≡ addon_request ∷ [])
    × (installer_requests handlers (ok []) (api_service_event (update_event service service))
        ≡ addon_request ∷ [])
installer_requests-installed_example =
    installer_requests-installed handlers laws (ok []) sample_addon sample_config built "east"
      sample_secret (some "CA") (delete_event built) (create_event fresh)
      (update_event service service) refl built_deployment refl refl refl

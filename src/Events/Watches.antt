-- ===== src/Events/Watches.antt =====
-- What the installer watches: `SetupClusterGatewayInstallerWithManager` of
-- pkg/addon/controllers/installer.go.
mod Tests
use cluster_gateway.Base.{
  String, ◌≡◌, ◌≢◌, refl, sym, ap, ◌∙◌, List, [], ◌∷◌, ◌++◌, str_eq, eq_iff, if◌then◌else◌, Result,
  ok, ok-injective, >>=-eq-ok,
}
use cluster_gateway.Api.{Bytes, OwnerReference, Secret, addon_name}
use cluster_gateway.Configuration.{
  ConfigurationSpec, ClusterGatewayConfiguration, ManagementAddon, api_service_name, owned_by,
}
use cluster_gateway.Installer.{new_cluster_secret}
use cluster_gateway.Installer.Tokens.{new_cluster_secret-owner_references}
use cluster_gateway.Installer.Objects.{ObjectMeta, ApiService, new_api_service}
use cluster_gateway.Installer.Deployment.{
  Deployment, deployment, parts_of, new_cluster_gateway_deployment,
}
use cluster_gateway.Events.{
  Request, Event, object, addon_request, api_service_handler, configuration_handler, owned_requests,
  secret_handler,
}

-- The handlers of the controller's library: for the object itself, and for its owners that are
-- ClusterManagementAddOns.
pub record Handlers : Type 0 where
  pub for_object : Event ManagementAddon → List Request
  pub for_owner : List OwnerReference → List Request

-- The events of the watches; one of a ManagedClusterAddOn with its owners
pub data Watched : Type 0 where
  management_addon_event : Event ManagementAddon → Watched
  configuration_event : Event ClusterGatewayConfiguration → Watched
  cluster_addon_event : Event (List OwnerReference) → Watched
  secret_event : Event Secret → Watched
  deployment_event : Event Deployment → Watched
  api_service_event : Event ApiService → Watched

module _ (handlers : Handlers) where
  -- The requests of an event, where `addons` is the hub's list of addons; secrets have two watches.
  pub installer_requests : Result (List ManagementAddon) → Watched → List Request
  installer_requests addons (management_addon_event e) = handlers.for_object e
  installer_requests addons (configuration_event e) = configuration_handler addons e
  installer_requests addons (cluster_addon_event e) = handlers.for_owner (object e)
  installer_requests addons (secret_event e) =
      handlers.for_owner (object e).owner_references ++ secret_handler e
  installer_requests addons (deployment_event e) =
      handlers.for_owner (object e).meta.owner_references
  installer_requests addons (api_service_event e) = api_service_handler api_service_name e

  -- What the library's handler for owners of the type ClusterManagementAddOn does with an object of
  -- one owner: the request for it where it is of this type, and none where it is of another kind.
  pub record HandlerLaws : Type 0 where
    pub for_owner-same :
        (owner : OwnerReference)
        → owner.api_version ≡ "addon.open-cluster-management.io/v1alpha1"
        → owner.kind ≡ "ClusterManagementAddOn"
        → handlers.for_owner (owner ∷ []) ≡ record { namespace = ""; name = owner.name } ∷ []
    pub for_owner-other :
        (owner : OwnerReference)
        → owner.kind ≢ "ClusterManagementAddOn"
        → handlers.for_owner (owner ∷ []) ≡ []

  owned_request :
      (laws : HandlerLaws) (addon : ManagementAddon)
      → handlers.for_owner (owned_by addon) ≡ record { namespace = ""; name = addon.name } ∷ []
  owned_request laws addon = laws.for_owner-same _ refl refl

  built_owners :
      (addon : ManagementAddon) (config : ClusterGatewayConfiguration) (d : Deployment)
      → new_cluster_gateway_deployment addon config ≡ ok d
      → d.meta.owner_references ≡ owned_by addon
  unfolding new_cluster_gateway_deployment
  built_owners addon config d h =
      let (parts, given, e) = >>=-eq-ok (parts_of config.spec) _ h in
      let same : deployment addon config parts ≡ d = ok-injective e in
      sym (ap (λ x. (Deployment.meta x).owner_references) same)

  owned_secret :
      (addon : ManagementAddon) (e : Event Secret)
      → (object e).owner_references ≡ owned_by addon
      → secret_handler e ≡ []
  unfolding secret_handler owned_requests
  owned_secret addon e h = ap owned_requests h

  -- What the installer makes wakes it again, once: an event of a deployment or of a secret with the
  -- owners of those that it builds, and one of an APIService of the name that it creates, each give
  -- the request for the addon, where the library's handler
  -- gives the request of a single owner of the type ClusterManagementAddOn.
  pub installer_requests-installed :
      (laws : HandlerLaws) (addons : Result (List ManagementAddon)) (addon : ManagementAddon)
      (config : ClusterGatewayConfiguration) (d : Deployment) (cluster : String) (source : Secret)
      (ca : Bytes) (on_deployment : Event Deployment) (on_secret : Event Secret)
      (on_api_service : Event ApiService)
      → addon.name ≡ addon_name
      → new_cluster_gateway_deployment addon config ≡ ok d
      → (object on_deployment).meta.owner_references ≡ d.meta.owner_references
      → (object on_secret).owner_references
        ≡ (new_cluster_secret addon config.spec cluster source).owner_references
      → (object on_api_service).meta.name
        ≡ (new_api_service addon config.spec.install_namespace ca).meta.name
      → (installer_requests addons (deployment_event on_deployment) ≡ addon_request ∷ [])
        × (installer_requests addons (secret_event on_secret) ≡ addon_request ∷ [])
        × (installer_requests addons (api_service_event on_api_service) ≡ addon_request ∷ [])
  unfolding installer_requests api_service_handler
  installer_requests-installed laws addons addon config d cluster source ca on_deployment on_secret
        on_api_service named built deployed stored registered =
      let mine : (record { namespace = ""; name = addon.name } ∷ []) ≡ (addon_request ∷ []) =
        ap (λ n. record { namespace = ""; name = n } ∷ []) named in
      let owners = stored ∙ new_cluster_secret-owner_references addon config.spec cluster source in
      (
        ap handlers.for_owner (deployed ∙ built_owners addon config d built)
            ∙ owned_request laws addon
            ∙ mine,
        rw (owned_secret addon on_secret owners) (rw owners (rw (owned_request laws addon) mine)),
        rw ((eq_iff _ api_service_name).1 registered) refl,
      )

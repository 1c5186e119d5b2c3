-- ===== src/Installer/Steps/Laws.antt =====
-- What the installer's clients rely on, and the states that its last steps aim at.
use cluster_gateway.Base.{String, ◌≡◌, refl, some, Result, ok, err, panic}
use cluster_gateway.Base.Decimal.{atoi}
use cluster_gateway.Base.Maps.{lookup}
use cluster_gateway.Api.{text}
use cluster_gateway.Configuration.{ClusterGatewayConfiguration, api_service_name}
use cluster_gateway.Installer.{failing}
use cluster_gateway.Installer.Objects.{ApiService}
use cluster_gateway.Installer.Deployment.{label_generation, deployment_name, Deployment}
use cluster_gateway.Installer.Steps.{
  api_service_object, deployment_object, InstallerApi, next, naming,
}

-- A step that is followed by another, and the two together, where they report success.
module _ {S : Type 0} where
  pub next-ok :
      (first : Result (Unit {0}) × S) (action : S → Result (Unit {0}) × S)
      → (next first action).0 ≡ ok tt
      → (first.0 ≡ ok tt) × ((action first.1).0 ≡ ok tt) × (next first action ≡ action first.1)
  unfolding next
  next-ok (ok u, s) action h = (refl, h, refl)
  next-ok (err e, s) action h = cc h
  next-ok (panic, s) action h = cc h

  pub naming-ok :
      (message : String) (step : Result (Unit {0}) × S)
      → (naming message step).0 ≡ ok tt
      → step.0 ≡ ok tt
  unfolding naming failing
  naming-ok message (ok u, s) h = refl
  naming-ok message (err e, s) h = cc h
  naming-ok message (panic, s) h = cc h

  pub next-naming-ok :
      (message : String) (step : Result (Unit {0}) × S) (action : S → Result (Unit {0}) × S)
      → (next (naming message step) action).0 ≡ ok tt
      → (step.0 ≡ ok tt)
        × ((action step.1).0 ≡ ok tt)
        × (next (naming message step) action ≡ action step.1)
  unfolding naming
  next-naming-ok message step action h =
      let (first, second, same) = next-ok (naming message step) action h in
      (naming-ok message step first, second, same)

module _ {S : Type 0} (api : InstallerApi S) where
  -- What the clients rely on: an object that was stored is read back, with the labels and the CA
  -- that it was given, and an APIService is not a deployment.
  pub record InstallerLaws : Type 0 where
    pub get-create :
        (d : Deployment) (s : S)
        → (api.create (deployment_object d) s).0 ≡ ok tt
        → (stored : Deployment) × (api.get_deployment d.meta.namespace d.meta.name
              (api.create (deployment_object d) s).1
            ≡ ok stored)
          × (stored.meta.labels ≡ d.meta.labels)
    pub get-update :
        (d : Deployment) (s : S)
        → (api.update (deployment_object d) s).0 ≡ ok tt
        → (stored : Deployment) × (api.get_deployment d.meta.namespace d.meta.name
              (api.update (deployment_object d) s).1
            ≡ ok stored)
          × (stored.meta.labels ≡ d.meta.labels)
    pub get-update_api_service :
        (a : ApiService) (s : S)
        → (api.update (api_service_object a) s).0 ≡ ok tt
        → (stored : ApiService) × (api.get_api_service a.meta.name
              (api.update (api_service_object a) s).1
            ≡ ok stored)
          × (stored.ca_bundle ≡ a.ca_bundle)
    pub update_api_service-deployment :
        (a : ApiService) (namespace name : String) (s : S)
        → api.get_deployment namespace name (api.update (api_service_object a) s).1
          ≡ api.get_deployment namespace name s

  -- The deployment is there, labelled with the generation of the configuration.
  abbrev pub Carries : ClusterGatewayConfiguration → S → Type 0
  Carries config s =
      (d : Deployment) × (label : String) × (api.get_deployment config.spec.install_namespace
          deployment_name s
        ≡ ok d)
      × (lookup label_generation d.meta.labels ≡ some label)
      × (atoi label ≡ some config.generation)

  -- The APIService is there, with the CA of the installer.
  abbrev pub Certified : S → Type 0
  Certified s =
      (a : ApiService) × (api.get_api_service api_service_name s ≡ ok a)
      × (api.ca_pem ≡ ok (text a.ca_bundle))

-- ===== src/Installer/Steps/Certified.antt =====
-- The APIService after its step.
use cluster_gateway.Base.{
  String, ◌≡◌, refl, sym, ap, ◌∙◌, inl, inr, eq_iff, str_eq, Bool-cases, Result, ok, err, panic,
}
use cluster_gateway.Api.{text}
use cluster_gateway.Configuration.{ClusterGatewayConfiguration, ManagementAddon, api_service_name}
use cluster_gateway.Installer.Objects.{ApiService}
use cluster_gateway.Installer.Deployment.{deployment_name}
use cluster_gateway.Installer.Steps.{
  InstallerApi, compare_api_service, read_api_service, ensure_api_service,
}
use cluster_gateway.Installer.Steps.Laws.{InstallerLaws, Carries, Certified}

module _ {S : Type 0} (api : InstallerApi S) where
  module _ (laws : InstallerLaws api) (addon : ManagementAddon)
      (config : ClusterGatewayConfiguration) where
    compare_api_service-Certified :
        (ca : String) (r : Result ApiService) (s : S)
        → api.ca_pem ≡ ok ca
        → api.get_api_service api_service_name s ≡ r
        → (compare_api_service api addon config.spec.install_namespace ca r s).0 ≡ ok tt
        → Certified api (compare_api_service api addon config.spec.install_namespace ca r s).1
    unfolding compare_api_service
    compare_api_service-Certified ca (ok current) s pem found h =
        elim (Bool-cases (str_eq ca (text current.ca_bundle))) [
          | inl same ↦
              rw same (current, found, pem ∙ ap ok ((eq_iff ca (text current.ca_bundle)).0 same))
          | inr differs ↦ rw differs (
              let (stored, read, kept) = laws.get-update_api_service _ s (rw differs at h) in
              (stored, read, pem ∙ sym (ap (λ b. ok (text b)) kept)))
        ]
    compare_api_service-Certified ca (err e) s pem found h = cc h
    compare_api_service-Certified ca panic s pem found h = cc h

    read_api_service-Certified :
        (ca : Result String) (s : S)
        → api.ca_pem ≡ ca
        → (read_api_service api addon config.spec.install_namespace ca s).0 ≡ ok tt
        → Certified api (read_api_service api addon config.spec.install_namespace ca s).1
    unfolding read_api_service
    read_api_service-Certified (ok ca) s pem h =
        compare_api_service-Certified ca (api.get_api_service api_service_name s) s pem refl h
    read_api_service-Certified (err e) s pem h = cc h
    read_api_service-Certified panic s pem h = cc h

    pub ensure_api_service-Certified :
        (s : S)
        → (ensure_api_service api addon config.spec.install_namespace s).0 ≡ ok tt
        → Certified api (ensure_api_service api addon config.spec.install_namespace s).1
    unfolding ensure_api_service
    ensure_api_service-Certified s h = read_api_service-Certified api.ca_pem s refl h

    compare_api_service-deployment :
        (ca namespace name : String) (r : Result ApiService) (s : S)
        → api.get_deployment namespace name
            (compare_api_service api addon config.spec.install_namespace ca r s).1
          ≡ api.get_deployment namespace name s
    unfolding compare_api_service
    compare_api_service-deployment ca namespace name (ok current) s =
        elim (Bool-cases (str_eq ca (text current.ca_bundle))) [
          | inl same ↦ rw same refl
          | inr differs ↦ rw differs (laws.update_api_service-deployment _ namespace name s)
        ]
    compare_api_service-deployment ca namespace name (err e) s = refl
    compare_api_service-deployment ca namespace name panic s = refl

    read_api_service-deployment :
        (ca : Result String) (namespace name : String) (s : S)
        → api.get_deployment namespace name
            (read_api_service api addon config.spec.install_namespace ca s).1
          ≡ api.get_deployment namespace name s
    unfolding read_api_service
    read_api_service-deployment (ok ca) namespace name s =
        compare_api_service-deployment ca namespace name (api.get_api_service api_service_name s) s
    read_api_service-deployment (err e) namespace name s = refl
    read_api_service-deployment panic namespace name s = refl

    -- The update of the APIService leaves the deployment as it is.
    pub ensure_api_service-Carries :
        (s : S)
        → Carries api config s
        → Carries api config (ensure_api_service api addon config.spec.install_namespace s).1
    unfolding ensure_api_service
    ensure_api_service-Carries s (d, label, read, labelled, parsed) = (
      d,
      label,
      read_api_service-deployment api.ca_pem config.spec.install_namespace deployment_name s ∙ read,
      labelled,
      parsed,
    )

    pub Certified-ensure_api_service :
        (s : S)
        → Certified api s
        → ensure_api_service api addon config.spec.install_namespace s ≡ (ok tt, s)
    unfolding ensure_api_service read_api_service compare_api_service
    Certified-ensure_api_service s (a, read, pem) =
        rw (pem, read, (eq_iff (text a.ca_bundle) (text a.ca_bundle)).1 refl) refl

-- ===== src/Installer/Steps/Carried.antt =====
-- The deployment after its step.
use cluster_gateway.Base.{
  String, ◌≡◌, refl, sym, ap, ◌∙◌, inl, inr, Option, none, some, Bool-cases, Result, ok, err, panic,
  ok-injective, >>=-eq-ok,
}
use cluster_gateway.Base.Decimal.{ℤ, itoa, atoi, int_eq}
use cluster_gateway.Base.Decimal.RoundTrip.{IsInt, atoi-itoa, int_eq-eq, int_eq_refl}
use cluster_gateway.Base.Maps.{lookup}
use cluster_gateway.Configuration.{ClusterGatewayConfiguration, ManagementAddon}
use cluster_gateway.Cert.{is_not_found}
use cluster_gateway.Installer.Deployment.{
  label_generation, deployment_name, Deployment, deployment, parts_of,
  new_cluster_gateway_deployment,
}
use cluster_gateway.Installer.Steps.{
  InstallerApi, create_deployment, update_deployment, compare_parsed, compare_generation,
  compare_deployment, ensure_cluster_gateway_deployment,
}
use cluster_gateway.Installer.Steps.Laws.{InstallerLaws, Carries}

module _ {S : Type 0} (api : InstallerApi S) where
  module _ (laws : InstallerLaws api) (addon : ManagementAddon)
      (config : ClusterGatewayConfiguration) where
    -- The deployment that is built, and the one that takes the place of another.
    IsBuilt : Deployment → Type 0
    IsBuilt d =
        (d.meta.namespace ≡ config.spec.install_namespace)
        × (d.meta.name ≡ deployment_name)
        × (lookup label_generation d.meta.labels ≡ some (itoa config.generation))

    new_cluster_gateway_deployment-IsBuilt :
        (d : Deployment) → new_cluster_gateway_deployment addon config ≡ ok d → IsBuilt d
    unfolding new_cluster_gateway_deployment IsBuilt lookup
    new_cluster_gateway_deployment-IsBuilt d h =
        let (parts, given, e) = >>=-eq-ok (parts_of config.spec) _ h in
        let same : deployment addon config parts ≡ d = ok-injective e in
        (
          sym (ap (λ x. (Deployment.meta x).namespace) same),
          sym (ap (λ x. (Deployment.meta x).name) same),
          sym (ap (λ x. lookup label_generation ((Deployment.meta x).labels)) same),
        )

    create_deployment-Carries :
        (d : Result Deployment) (s : S)
        → IsInt config.generation
        → new_cluster_gateway_deployment addon config ≡ d
        → (create_deployment api d s).0 ≡ ok tt
        → Carries api config (create_deployment api d s).1
    unfolding create_deployment IsBuilt
    create_deployment-Carries (ok d) s bound built h =
        let (namespace, name, labelled) = new_cluster_gateway_deployment-IsBuilt d built in
        let (stored, read, kept) = laws.get-create d s h in
        (
          stored,
          itoa config.generation,
          simp (namespace, name) at read,
          ap (lookup label_generation) kept ∙ labelled,
          atoi-itoa config.generation bound,
        )
    create_deployment-Carries (err e) s bound built h = cc h
    create_deployment-Carries panic s bound built h = cc h

    update_deployment-Carries :
        (current : Deployment) (d : Result Deployment) (s : S)
        → IsInt config.generation
        → new_cluster_gateway_deployment addon config ≡ d
        → (update_deployment api current d s).0 ≡ ok tt
        → Carries api config (update_deployment api current d s).1
    unfolding update_deployment IsBuilt
    update_deployment-Carries current (ok d) s bound built h =
        let (namespace, name, labelled) = new_cluster_gateway_deployment-IsBuilt d built in
        let (stored, read, kept) =
          laws.get-update
            (record d { meta = record d.meta { resource_version = current.meta.resource_version } })
            s h in
        (
          stored,
          itoa config.generation,
          rw (← namespace) (rw (← name) read),
          ap (lookup label_generation) kept ∙ labelled,
          atoi-itoa config.generation bound,
        )
    update_deployment-Carries current (err e) s bound built h = cc h
    update_deployment-Carries current panic s bound built h = cc h

    compare_parsed-Carries :
        (current : Deployment) (label : String) (parsed : Option ℤ) (s : S)
        → IsInt config.generation
        → api.get_deployment config.spec.install_namespace deployment_name s ≡ ok current
        → lookup label_generation current.meta.labels ≡ some label
        → atoi label ≡ parsed
        → (compare_parsed api addon config current parsed s).0 ≡ ok tt
        → Carries api config (compare_parsed api addon config current parsed s).1
    unfolding compare_parsed
    compare_parsed-Carries current label none s bound found labelled e h = cc h
    compare_parsed-Carries current label (some gen) s bound found labelled e h =
        elim (Bool-cases (int_eq config.generation gen)) [
          | inl equal ↦ rw equal (
            current,
            label,
            found,
            labelled,
            e ∙ ap some (sym (int_eq-eq config.generation gen equal)),
          )
          | inr differs ↦ rw differs (
              update_deployment-Carries current (new_cluster_gateway_deployment addon config) s
                bound refl (rw differs at h))
        ]

    compare_generation-Carries :
        (current : Deployment) (label : Option String) (s : S)
        → IsInt config.generation
        → api.get_deployment config.spec.install_namespace deployment_name s ≡ ok current
        → lookup label_generation current.meta.labels ≡ label
        → (compare_generation api addon config current label s).0 ≡ ok tt
        → Carries api config (compare_generation api addon config current label s).1
    unfolding compare_generation
    compare_generation-Carries current none s bound found labelled h =
        update_deployment-Carries current (new_cluster_gateway_deployment addon config) s bound refl
          h
    compare_generation-Carries current (some label) s bound found labelled h =
        compare_parsed-Carries current label (atoi label) s bound found labelled refl h

    compare_deployment-Carries :
        (r : Result Deployment) (s : S)
        → IsInt config.generation
        → api.get_deployment config.spec.install_namespace deployment_name s ≡ r
        → (compare_deployment api addon config r s).0 ≡ ok tt
        → Carries api config (compare_deployment api addon config r s).1
    unfolding compare_deployment
    compare_deployment-Carries (ok current) s bound found h =
        compare_generation-Carries current (lookup label_generation current.meta.labels) s bound
          found refl h
    compare_deployment-Carries (err e) s bound found h = elim (Bool-cases (is_not_found e)) [
      | inl absent ↦ rw absent (
          create_deployment-Carries (new_cluster_gateway_deployment addon config) s bound refl
            (rw absent at h))
      | inr other ↦ cc (rw other at h)
    ]
    compare_deployment-Carries panic s bound found h = cc h

    pub ensure_cluster_gateway_deployment-Carries :
        (s : S)
        → IsInt config.generation
        → (ensure_cluster_gateway_deployment api addon config s).0 ≡ ok tt
        → Carries api config (ensure_cluster_gateway_deployment api addon config s).1
    unfolding ensure_cluster_gateway_deployment
    ensure_cluster_gateway_deployment-Carries s bound h =
        compare_deployment-Carries
          (api.get_deployment config.spec.install_namespace deployment_name s) s bound refl h

    pub Carries-ensure_cluster_gateway_deployment :
        (s : S)
        → Carries api config s
        → ensure_cluster_gateway_deployment api addon config s ≡ (ok tt, s)
    unfolding ensure_cluster_gateway_deployment compare_deployment compare_generation compare_parsed
    Carries-ensure_cluster_gateway_deployment s (d, label, read, labelled, parsed) =
        rw (read, labelled, parsed, int_eq_refl config.generation) refl

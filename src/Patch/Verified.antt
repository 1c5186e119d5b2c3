-- ===== src/Patch/Verified.antt =====
-- What the command leaves behind.
use cluster_gateway.Base.{
  String, ◌≡◌, refl, false, Option, none, some, Result, ok, err, panic, wrap,
}
use cluster_gateway.Base.Maps.{lookup}
use cluster_gateway.Api.{Bytes, Secret}
use cluster_gateway.Patch.{Target, Client, Flags, patched, patch, patch_target, patch_from, run}

module _ {S : Type 0} (client : Client S) where
  -- What the client relies on: objects have the names that they were asked for, and an update is
  -- read back.
  pub record PatchLaws : Type 0 where
    pub get-name :
        (name : String) (s : S) (target : Target)
        → client.get_api_service name s ≡ ok target
        → target.name ≡ name
    pub get-update :
        (target : Target) (s : S)
        → (client.update target s).0 ≡ ok tt
        → client.get_api_service target.name (client.update target s).1 ≡ ok target

  module _ (laws : PatchLaws) (flags : Flags) (secret : Secret) where
    -- The APIService verifies certificates by the CA of the secret.
    abbrev pub Verified : S → Type 0
    Verified s =
        (target : Target) × (ca_bundle : Bytes) × (client.get_api_service flags.api_service_name s
          ≡ ok target)
        × (lookup flags.secret_ca_bundle_key secret.contents ≡ some ca_bundle)
        × (target.ca_bundle ≡ ca_bundle)
        × (target.insecure_skip_tls_verify ≡ false)

    wrap-ok : (text : String) (r : Result (Unit {0})) → wrap text r ≡ ok tt → r ≡ ok tt
    wrap-ok text (ok u) h = refl
    wrap-ok text (err e) h = cc h
    wrap-ok text panic h = cc h

    patch-Verified :
        (target : Target) (ca : Option Bytes) (s : S)
        → lookup flags.secret_ca_bundle_key secret.contents ≡ ca
        → target.name ≡ flags.api_service_name
        → (patch client target ca s).0 ≡ ok tt
        → Verified (patch client target ca s).1
    unfolding patch
    patch-Verified target none s found named h = cc h
    patch-Verified target (some ca_bundle) s found named h = (
      patched target ca_bundle,
      ca_bundle,
      rw (← named) (laws.get-update (patched target ca_bundle) s (wrap-ok _ _ h)),
      found,
      refl,
      refl,
    )

    patch_target-Verified :
        (r : Result Target) (s : S)
        → client.get_api_service flags.api_service_name s ≡ r
        → (patch_target client flags secret r s).0 ≡ ok tt
        → Verified (patch_target client flags secret r s).1
    unfolding patch_target
    patch_target-Verified (ok target) s found h =
        patch-Verified target (lookup flags.secret_ca_bundle_key secret.contents) s refl
          (laws.get-name flags.api_service_name s target found) h
    patch_target-Verified (err e) s found h = cc h
    patch_target-Verified panic s found h = cc h

  -- A run that reports success leaves the APIService with the CA that the secret has under the key,
  -- and verifying certificates by it.
  pub run-Verified :
      (laws : PatchLaws) (flags : Flags) (secret : Secret) (s : S)
      → client.get_secret flags.secret_namespace flags.secret_name s ≡ ok secret
      → (run client flags s).0 ≡ ok tt
      → Verified laws flags secret (run client flags s).1
  unfolding run patch_from
  run-Verified laws flags secret s found h = rw found (
      patch_target-Verified laws flags secret (client.get_api_service flags.api_service_name s) s
        refl (rw found at h))

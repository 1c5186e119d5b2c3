-- ===== src/Patch.antt =====
-- The command of hack/patch/main.go, which gives an APIService the CA of a secret.
pub mod Verified
use cluster_gateway.Base.{
  String, ◌⧺◌, Bool, false, Option, none, some, other, wrapped, Result, ok, err, panic, wrap,
}
use cluster_gateway.Base.Maps.{lookup}
use cluster_gateway.Base.Effects.{Action}
use cluster_gateway.Api.{Bytes, Secret, api_group, api_version}

-- An APIService, as far as the command writes it
pub record Target : Type 0 where
  pub name : String
  pub insecure_skip_tls_verify : Bool
  pub ca_bundle : Bytes

pub record Client (S : Type 0) : Type 0 where
  pub get_secret : String → String → S → Result Secret
  pub get_api_service : String → S → Result Target
  pub update : Target → Action S (Unit {0})

-- The flags of the command
pub record Flags : Type 0 where
  pub api_service_name : String
  pub secret_name : String
  pub secret_namespace : String
  pub secret_ca_bundle_key : String

abbrev pub default_flags : Flags
default_flags = record {
  api_service_name = api_version ⧺ "." ⧺ api_group;
  secret_name = "";
  secret_namespace = "";
  secret_ca_bundle_key = "ca";
}

abbrev pub patched : Target → Bytes → Target
patched target ca_bundle = record target { insecure_skip_tls_verify = false; ca_bundle = ca_bundle }

module _ {S : Type 0} (client : Client S) where
  -- the CA as the secret has it
  patch : Target → Option Bytes → Action S (Unit {0})
  patch target none s = (err (other "failed to find caBundle in secret"), s)
  patch target (some ca_bundle) s =
      let (r, s') = client.update (patched target ca_bundle) s in
      (wrap "failed to update APIService" r, s')

  patch_target : Flags → Secret → Result Target → Action S (Unit {0})
  unfolding patch
  patch_target flags secret (ok target) s =
      patch target (lookup flags.secret_ca_bundle_key secret.contents) s
  patch_target flags secret (err e) s = (err (wrapped "failed to get APIService" e), s)
  patch_target flags secret panic s = (panic, s)

  patch_from : Flags → Result Secret → Action S (Unit {0})
  unfolding patch_target
  patch_from flags (ok secret) s =
      patch_target flags secret (client.get_api_service flags.api_service_name s) s
  patch_from flags (err e) s = (err (wrapped "failed to get source secret" e), s)
  patch_from flags panic s = (panic, s)

  -- `RunE`, once the client is there
  pub run : Flags → Action S (Unit {0})
  unfolding patch_from
  run flags s = patch_from flags (client.get_secret flags.secret_namespace flags.secret_name s) s

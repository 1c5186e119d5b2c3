-- ===== src/Installer.antt =====
-- The tokens that the addon's installer copies: `copySecretForManagedServiceAccount` of
-- pkg/addon/controllers/installer.go.
pub mod Objects
pub mod Deployment
pub mod Steps
pub mod Tokens
pub mod Convertible
pub mod Frames
mod Tests
use cluster_gateway.Base.{
  String, Bool, true, false, Option, none, some, List, [], ◌∷◌, str_eq, if◌then◌else◌, Error,
  wrapped, Result, ok, err, panic, ◌>>=◌,
}
use cluster_gateway.Base.Maps.{Map, lookup, insert}
use cluster_gateway.Base.Effects.{Action}
use cluster_gateway.Api.{
  Bytes, text, value, OwnerReference, Secret, type_const, type_cluster_proxy, type_token,
  label_credential_type, label_endpoint_type,
}
use cluster_gateway.Configuration.{
  ConfigurationSpec, egress_cluster_proxy, ManagementAddon, owned_by,
}
use cluster_gateway.Cert.{SecretApi, is_not_found}

abbrev root_ca_key : String
root_ca_key = "ca.crt"

abbrev pub token_key : String
token_key = "token"

copied_endpoint_type : ConfigurationSpec → String
copied_endpoint_type spec =
    if str_eq spec.egress.type egress_cluster_proxy then type_cluster_proxy else type_const

-- The secret of a cluster that has none yet; times are the API's.
pub new_cluster_secret : ManagementAddon → ConfigurationSpec → String → Secret → Secret
unfolding copied_endpoint_type
new_cluster_secret addon spec cluster source = record {
  namespace = spec.secret_namespace;
  name = cluster;
  creation_timestamp = 0;
  labels =
      (label_credential_type, type_token) ∷ (label_endpoint_type, copied_endpoint_type spec) ∷ [];
  annotations = [];
  owner_references = owned_by addon;
  contents =
      (root_ca_key, value (lookup root_ca_key source.contents))
      ∷ (token_key, value (lookup token_key source.contents))
      ∷ [];
}

-- The two assignments to the data of the secret that is there; a map with no entries is nil.
assigned : Secret → Map Bytes → Result (Map Bytes)
assigned source [] = panic
assigned source (e ∷ es) = ok (
    insert token_key (value (lookup token_key source.contents))
      (insert root_ca_key (value (lookup root_ca_key source.contents)) (e ∷ es)))

pub with_token : Secret → Secret → Result Secret
unfolding assigned
with_token source current = do
  contents ← assigned source current.contents
  ok (record current { contents = contents })

-- `errors.Wrapf` of an error that an action ends with.
pub failing : String → Result (Unit {0}) → Result (Unit {0})
failing message (ok u) = ok u
failing message (err e) = err (wrapped message e)
failing message panic = panic

-- `secrets` is the lister's view of the hub's secrets.
module _ {S : Type 0} (api : SecretApi S) (secrets : String → String → S → Result Secret) where
  store : String → Result Secret → Action S (Unit {0})
  unfolding failing
  store namespace (ok updated) s =
      let (r, s') = api.update namespace updated s in
      (failing "failed to update the cluster secret" r, s')
  store namespace (err e) s = (err e, s)
  store namespace panic s = (panic, s)

  module _ (addon : ManagementAddon) (spec : ConfigurationSpec) (cluster : String) where
    -- The cluster's secret as the lister has it: there, or not there, or an error.
    write_token : Secret → Result Secret → Action S (Unit {0})
    unfolding failing store with_token new_cluster_secret
    write_token source (ok current) s =
        if str_eq (text (value (lookup token_key source.contents)))
          (text (value (lookup token_key current.contents)))
        then (ok tt, s)
        else store spec.secret_namespace (with_token source current) s
    write_token source (err e) s =
        if is_not_found e
        then (let (r, s') =
              api.create spec.secret_namespace (new_cluster_secret addon spec cluster source) s in
            (failing "failed to create the cluster secret" r, s'))
        else (err (wrapped "failed to get the cluster secret" e), s)
    write_token source panic s = (panic, s)

    -- The token's secret as the lister has it.
    copy_token : Result Secret → Action S (Unit {0})
    unfolding write_token
    copy_token (ok source) s = write_token source (secrets spec.secret_namespace cluster s) s
    copy_token (err e) s =
        if is_not_found e then (ok tt, s) else (err (wrapped "failed to get token secret" e), s)
    copy_token panic s = (panic, s)

    copy_named : Option String → Action S (Unit {0})
    unfolding copy_token
    copy_named none s = (panic, s)
    copy_named (some name) s = copy_token (secrets cluster name s) s

    pub copy_secret_for_managed_service_account : Action S (Unit {0})
    unfolding copy_named
    copy_secret_for_managed_service_account s =
        copy_named spec.secret_management.managed_service_account s

-- ===== src/Health/Tests.antt =====
-- The health of a cluster whose secret is stored in a hub of one secret.
use cluster_gateway.Base.{
  ◌≡◌, refl, Option, none, some, [], ◌∷◌, other, ok, err, ok-injective, sym, ap,
}
use cluster_gateway.Base.Maps.{lookup, insert}
use cluster_gateway.Base.Effects.{Action}
use cluster_gateway.Api.{Secret}
use cluster_gateway.Controls.{SecretControl}
use cluster_gateway.Convert.{format_bool}
use cluster_gateway.Convert.Sample.{
  sample_env, sample_secret, sick_secret, sick_gateway, converted_sick, bare_secret, bare_type,
}
use cluster_gateway.Health.{annotate, converted, store_status, update}
use cluster_gateway.Health.RoundTrip.{status-update, update-no_endpoint}

abbrev control_of : Secret → Option SecretControl
control_of secret = some (record { get = λ name. ok secret; list = ok (secret ∷ []) })

abbrev store : Secret → Action Secret Secret
store secret hub = (ok secret, secret)

keeps_annotations : (s hub u : Secret) → (store s hub).0 ≡ ok u → u.annotations ≡ s.annotations
keeps_annotations s hub u h = ap Secret.annotations (sym (ok-injective h))

annotated : annotate sick_gateway.status sample_secret ≡ sick_secret
unfolding annotate insert format_bool
annotated = refl

updated :
    (update sample_env control_of store "prod"
      (ok sick_gateway)
      (record { hub = sample_secret; cache = [] })).0
    ≡ ok sick_gateway
unfolding update store_status converted
updated = rw annotated (rw converted_sick refl)

status-update_example : sick_gateway.status ≡ sick_gateway.status
status-update_example =
    status-update sample_env control_of store keeps_annotations "prod" sick_gateway
      (record { hub = sample_secret; cache = [] }) sick_gateway refl updated

no_endpoint : lookup "endpoint" bare_secret.contents ≡ none
unfolding lookup
no_endpoint = refl

update-no_endpoint_example :
    update sample_env control_of store "prod"
      (ok sick_gateway)
      (record { hub = bare_secret; cache = [] })
    ≡ (
      err (other "missing label key: api-endpoint"),
      record { hub = annotate sick_gateway.status bare_secret; cache = [] },
    )
update-no_endpoint_example =
    update-no_endpoint sample_env control_of store
      (record { get = λ name. ok bare_secret; list = ok (bare_secret ∷ []) }) "prod" sick_gateway
      bare_secret (record { hub = bare_secret; cache = [] })
      (annotate sick_gateway.status bare_secret) refl refl bare_type no_endpoint refl

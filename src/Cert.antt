-- ===== src/Cert.antt =====
-- Copies of secrets: `CopySecret`, `IsSubset` and `Merge` of pkg/util/cert/secret.go.
pub mod Copy
pub mod Authority
pub mod Sample
mod Tests
use cluster_gateway.Base.{
  String, Bool, true, false, Option, none, some, List, [], ◌∷◌, str_eq, if◌then◌else◌, Error,
  not_found, already_exists, wrapped, Result, ok, err, panic,
}
use cluster_gateway.Base.Maps.{Map, lookup, insert}
use cluster_gateway.Base.Effects.{Action}
use cluster_gateway.Api.{Bytes, text, value, Secret}

-- `apierrors.IsNotFound` and `apierrors.IsAlreadyExists`, which look behind wrappings
unfoldable pub is_not_found : Error → Bool
is_not_found (not_found _) = true
is_not_found (wrapped _ e) = is_not_found e
is_not_found _ = false

unfoldable pub is_already_exists : Error → Bool
is_already_exists (already_exists _) = true
is_already_exists (wrapped _ e) = is_already_exists e
is_already_exists _ = false

-- `bytes.Equal`: nil and empty are equal
pub is_subset : Map Bytes → Map Bytes → Bool
is_subset [] superset = true
is_subset ((k, v) ∷ subset) superset =
    let rest = is_subset subset superset in
    if str_eq (text v) (text (value (lookup k superset))) then rest else false

merge_entries : Map Bytes → Map Bytes → Map Bytes
merge_entries [] r = r
merge_entries ((k, v) ∷ l) r = merge_entries l (insert k v r)

-- The API leaves an empty map out of an object, so that the map of a secret without entries is
-- nil, and an assignment to it panics.
pub merge : Map Bytes → Map Bytes → Result (Map Bytes)
unfolding merge_entries
merge [] r = ok r
merge (e ∷ l) [] = panic
merge (e ∷ l) (f ∷ r) = ok (merge_entries (e ∷ l) (f ∷ r))

-- The client of secrets over the state of the cluster: `create` and `update` are given a namespace.
pub record SecretApi (S : Type 0) : Type 0 where
  pub get : String → String → S → Result Secret
  pub create : String → Secret → Action S (Unit {0})
  pub update : String → Secret → Action S (Unit {0})

module _ {S : Type 0} (api : SecretApi S) where
  -- The object for a target that is not there; its UID and version are cleared.
  copied : Secret → String → String → Secret
  copied source namespace name = record source { namespace = namespace; name = name }

  created : Result (Unit {0}) → Result (Unit {0})
  created (ok u) = ok u
  created (err e) =
      if is_already_exists e then ok tt else err (wrapped "failed creating CA secret" e)
  created panic = panic

  update_merged : String → Secret → Result (Map Bytes) → Action S (Unit {0})
  update_merged namespace target (ok contents) s =
      api.update namespace (record target { contents = contents }) s
  update_merged namespace target (err e) s = (err e, s)
  update_merged namespace target panic s = (panic, s)

  -- The target as it was read: there, or not there, or an error.
  copy_to : Secret → String → String → Result Secret → Action S (Unit {0})
  unfolding copied created update_merged
  copy_to source namespace name (ok target) s =
      if is_subset source.contents target.contents
      then (ok tt, s)
      else update_merged namespace target (merge source.contents target.contents) s
  copy_to source namespace name (err e) s =
      if is_not_found e
      then (let (r, s') = api.create namespace (copied source namespace name) s in (created r, s'))
      else (err (wrapped "failed getting target secret" e), s)
  copy_to source namespace name panic s = (panic, s)

  copy_from : Result Secret → String → String → Action S (Unit {0})
  unfolding copy_to
  copy_from (ok source) namespace name s =
      copy_to source namespace name (api.get namespace name s) s
  copy_from (err e) namespace name s = (err (wrapped "failed getting source secret" e), s)
  copy_from panic namespace name s = (panic, s)

  pub copy_secret : String → String → String → String → Action S (Unit {0})
  unfolding copy_from
  copy_secret source_namespace source_name target_namespace target_name s =
      copy_from (api.get source_namespace source_name s) target_namespace target_name s

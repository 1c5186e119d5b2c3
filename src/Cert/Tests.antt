-- ===== src/Cert/Tests.antt =====
-- A copy in a store of secrets by namespace and name.
use cluster_gateway.Base.{◌≡◌, refl, [], ◌∷◌, ok}
use cluster_gateway.Base.Maps.{lookup, insert, IsMap}
use cluster_gateway.Api.{Secret}
use cluster_gateway.Convert.Sample.{sample_secret}
use cluster_gateway.Cert.{is_not_found, copied, created, copy_to, copy_from, copy_secret}
use cluster_gateway.Cert.Sample.{Store, api, laws}
use cluster_gateway.Cert.Copy.{IsMerged, contents_of, copy_secret-Merged}

abbrev before : Store
before = ("vela-system/prod", sample_secret) ∷ []

found : api.get "vela-system" "prod" before ≡ ok sample_secret
unfolding lookup
found = refl

distinct : IsMap sample_secret.contents
unfolding lookup
distinct = (refl, (refl, (refl, tt)))

copied_prod : (copy_secret api "vela-system" "prod" "default" "copy" before).0 ≡ ok tt
unfolding copy_secret copy_from copy_to copied created is_not_found lookup insert
copied_prod = refl

copy_secret-Merged_example :
    (target : Secret) × (api.get "default" "copy"
        (copy_secret api "vela-system" "prod" "default" "copy" before).1
      ≡ ok target)
    × IsMerged sample_secret.contents
        (contents_of (api.get "default" "copy" before))
        target.contents
copy_secret-Merged_example =
    copy_secret-Merged api laws "vela-system" "prod" "default" "copy" sample_secret before found
      distinct copied_prod

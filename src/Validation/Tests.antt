-- ===== src/Validation/Tests.antt =====
-- The validation of a token.
use cluster_gateway.Base.{String, ◌≡◌, ◌↔◌, Bool, false, Option, none, []}
use cluster_gateway.Transport.{Url}
use cluster_gateway.Convert.Sample.{sample_credential}
use cluster_gateway.Validation.{validate_credential}
use cluster_gateway.Validation.Sound.{IsValid, validate_credential_iff}

abbrev parse : String → Option Url
parse address = none

abbrev is_base64 : String → Bool
is_base64 s = false

validate_credential_iff_example :
    (validate_credential parse is_base64 sample_credential ≡ [])
    ↔ IsValid parse is_base64 sample_credential
validate_credential_iff_example = validate_credential_iff parse is_base64 sample_credential

-- ===== src/Validation.antt =====
-- pkg/apis/cluster/v1alpha1/validation.go: the validation of a cluster gateway, as lists of the
-- fields at fault.
pub mod Sound
mod Tests
use cluster_gateway.Base.{
  String, Bool, true, false, not, ◌&&◌, Option, none, some, List, [], ◌∷◌, ◌++◌, str_eq, is_some,
  if◌then◌else◌, Result, ok, err, panic, deref, ◌>>=◌,
}
use cluster_gateway.Api.{
  text, is_blank, X509, ClusterAccessCredential, ClusterEndpointConst, ClusterEndpoint,
  ClusterAccess, ClusterGatewaySpec, ClusterGateway, type_const, type_token, type_x509,
}
use cluster_gateway.Transport.{Url}

-- `field.Error`: what is wrong with the field of a name
pub data FieldError : Type 0 where
  required invalid not_supported : String → FieldError

-- `in.Insecure == nil || *in.Insecure == false`
is_secure : Option Bool → Bool
is_secure none = true
is_secure (some insecure) = not insecure

fault : Bool → FieldError → List FieldError
fault wrong e = if wrong then e ∷ [] else []

-- `parse` is `url.Parse`, and `is_base64` whether base64's standard encoding decodes a text.
module _ (parse : String → Option Url) (is_base64 : String → Bool) where
  validate_const : ClusterEndpointConst → List FieldError
  unfolding fault is_secure
  validate_const const =
      fault (is_blank const.address) (required "endpoint") ++ elim (parse const.address) [
        | none ↦ invalid "endpoint" ∷ []
        | some u ↦
            fault (not (str_eq u.scheme "https")) (invalid "endpoint")
            ++ fault (is_blank (text const.ca_bundle) && is_secure const.insecure)
                (required "caBundle")
      ]

  validate_x509 : Option X509 → List FieldError
  unfolding fault
  validate_x509 none = required "x509" ∷ []
  validate_x509 (some x) =
      fault (is_blank (text x.certificate)) (required "certificate")
      ++ fault (is_blank (text x.private_key)) (required "privateKey")

  pub validate_credential : ClusterAccessCredential → List FieldError
  unfolding fault
  validate_credential c =
      fault (not (str_eq c.type type_token) && not (str_eq c.type type_x509)) (not_supported "type")
      ++ (if str_eq c.type type_token
          then fault (is_base64 c.service_account_token) (invalid "serviceAccountToken")
            ++ fault (is_blank c.service_account_token) (required "serviceAccountToken")
          else if str_eq c.type type_x509
          then validate_x509 c.x509
          else [])

  validate_optional : Option ClusterAccessCredential → List FieldError
  validate_optional none = []
  validate_optional (some c) = validate_credential c

  -- The endpoint is dereferenced, and so are the details of a constant one; an address that does
  -- not parse ends the validation before the credential.
  validate_access : ClusterAccess → Result (List FieldError)
  unfolding validate_optional
  validate_access a = do
    endpoint ← deref a.endpoint
    (if str_eq endpoint.type type_const
        then (do
          const ← deref endpoint.const
          ok (
              validate_const const
              ++ (if is_some (parse const.address) then validate_optional a.credential else [])))
        else ok (validate_optional a.credential))

  validate_spec : ClusterGatewaySpec → Result (List FieldError)
  unfolding fault
  validate_spec spec = do
    errs ← validate_access spec.access
    ok (fault (is_blank spec.provider) (required "provider") ++ errs)

  validate_cluster_gateway : ClusterGateway → Result (List FieldError)
  validate_cluster_gateway c = validate_spec c.spec

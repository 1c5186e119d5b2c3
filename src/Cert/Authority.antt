-- ===== src/Cert/Authority.antt =====
-- The certificate authority of the addon manager: `EnsureCAPair` of pkg/util/cert/cert.go.
pub mod Stable
mod Tests
use cluster_gateway.Base.{
  String, Option, none, some, [], ◌∷◌, if◌then◌else◌, Error, wrapped, Result, ok, err, panic, ◌>>=◌,
  deref, wrap,
}
use cluster_gateway.Base.Maps.{lookup}
use cluster_gateway.Base.Effects.{Action}
use cluster_gateway.Api.{Bytes, value, Secret, addon_name}
use cluster_gateway.Cert.{SecretApi, is_not_found}

-- The libraries of keys and certificates. A key is generated and a certificate signed of random
-- bits, `Entropy`, of which every start of the addon manager has its own.
pub record Crypto (Certificate Key Entropy : Type 0) : Type 0 where
  pub decode : Bytes → Option String
  pub encode : String → String → String
  pub parse_certificate : String → Result Certificate
  pub raw : Certificate → String
  pub parse_key : String → Result Key
  pub marshal_key : Key → Result String
  pub generate_key : Entropy → Result Key
  pub self_signed : Entropy → String → Key → Result Certificate

module _ {S C K E : Type 0} (crypto : Crypto C K E) (api : SecretApi S) where
  -- A pair that is there; the block of a text that is no PEM is nil.
  stored_pair : Secret → Result (C × K)
  stored_pair current = do
    cert_block ← deref (crypto.decode (value (lookup "ca.crt" current.contents)))
    ca_cert ← wrap "failed to parse ca certificate" (crypto.parse_certificate cert_block)
    key_block ← deref (crypto.decode (value (lookup "ca.key" current.contents)))
    ca_key ← wrap "failed to parse ca key" (crypto.parse_key key_block)
    ok (ca_cert, ca_key)

  -- A pair that is not stored yet, and the key's bytes.
  new_pair : E → Result (C × K × String)
  new_pair entropy = do
    private_key ← crypto.generate_key entropy
    ca_cert ← crypto.self_signed entropy addon_name private_key
    raw_key ← crypto.marshal_key private_key
    ok (ca_cert, private_key, raw_key)

  pair_secret : String → String → C → String → Secret
  pair_secret namespace name ca_cert raw_key = record {
    namespace = namespace;
    name = name;
    creation_timestamp = 0;
    labels = [];
    annotations = [];
    owner_references = [];
    contents =
        ("ca.crt", some (crypto.encode "CERTIFICATE" (crypto.raw ca_cert)))
        ∷ ("ca.key", some (crypto.encode "PRIVATE KEY" raw_key))
        ∷ [];
  }

  created_pair : C × K → Result (Unit {0}) → Result (C × K)
  created_pair pair (ok u) = ok pair
  created_pair pair (err e) = err e
  created_pair pair panic = panic

  store_pair : String → String → Result (C × K × String) → Action S (C × K)
  unfolding pair_secret created_pair
  store_pair namespace name (ok (ca_cert, ca_key, raw_key)) s =
      let (r, s') = api.create namespace (pair_secret namespace name ca_cert raw_key) s in
      (created_pair (ca_cert, ca_key) r, s')
  store_pair namespace name (err e) s = (err e, s)
  store_pair namespace name panic s = (panic, s)

  -- what follows the read of the secret
  pair_of : E → String → String → Result Secret → Action S (C × K)
  unfolding stored_pair new_pair store_pair
  pair_of entropy namespace name (ok current) s = (stored_pair current, s)
  pair_of entropy namespace name (err e) s =
      if is_not_found e then store_pair namespace name (new_pair entropy) s else (err e, s)
  pair_of entropy namespace name panic s = (panic, s)

  pub ensure_ca_pair : E → String → String → Action S (C × K)
  unfolding pair_of
  ensure_ca_pair entropy namespace name s =
      pair_of entropy namespace name (api.get namespace name s) s

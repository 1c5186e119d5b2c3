-- ===== src/Cert/Authority/Tests.antt =====
-- The first start of an addon manager, with texts for keys and certificates.
use cluster_gateway.Base.{String, ◌⧺◌, ◌≡◌, refl, sym, ap, some, [], ok}
use cluster_gateway.Base.Text.{trim_prefix, trim_prefix-append}
use cluster_gateway.Base.Maps.{lookup}
use cluster_gateway.Api.{text}
use cluster_gateway.Cert.{is_not_found}
use cluster_gateway.Cert.Sample.{api, laws}
use cluster_gateway.Cert.Authority.{
  Crypto, new_pair, created_pair, store_pair, pair_of, ensure_ca_pair,
}
use cluster_gateway.Cert.Authority.Stable.{CryptoLaws, ensure_ca_pair-stable}

-- A block is its content behind a line of its own.
abbrev crypto : Crypto String String String
crypto = record {
  decode = λ b. some (trim_prefix (text b) "PEM:");
  encode = λ type content. "PEM:" ⧺ content;
  parse_certificate = λ content. ok content;
  raw = λ c. c;
  parse_key = λ content. ok content;
  marshal_key = λ k. ok k;
  generate_key = λ entropy. ok entropy;
  self_signed = λ entropy subject key. ok (subject ⧺ key);
}

crypto_laws : CryptoLaws crypto
crypto_laws = record {
  decode-encode = λ type content. ap some (trim_prefix-append "PEM:" content);
  parse-raw = λ c. refl;
  parse-marshal = λ k content h. sym h;
}

generated : (ensure_ca_pair crypto api "key" "ocm" "ca" []).0 ≡ ok ("cluster-gatewaykey", "key")
unfolding ensure_ca_pair pair_of store_pair new_pair created_pair is_not_found lookup
generated = refl

ensure_ca_pair-stable_example :
    ensure_ca_pair crypto api "other" "ocm" "ca" (ensure_ca_pair crypto api "key" "ocm" "ca" []).1
    ≡ (ok ("cluster-gatewaykey", "key"), (ensure_ca_pair crypto api "key" "ocm" "ca" []).1)
ensure_ca_pair-stable_example =
    ensure_ca_pair-stable crypto api crypto_laws laws "ocm" "ca" "key" "other"
      ("cluster-gatewaykey", "key") [] generated

-- ===== src/Cert/Authority/Stable.antt =====
-- The authority does not change from one start to the next.
use cluster_gateway.Base.{
  String, ◌≡◌, refl, sym, ap, ◌∙◌, inl, inr, some, Bool-cases, Result, ok, err, panic, ok-injective,
  >>=-eq-ok,
}
use cluster_gateway.Base.Maps.{lookup}
use cluster_gateway.Api.{Secret, addon_name}
use cluster_gateway.Cert.{SecretApi, is_not_found}
use cluster_gateway.Cert.Copy.{SecretLaws}
use cluster_gateway.Cert.Authority.{
  Crypto, stored_pair, new_pair, pair_secret, created_pair, store_pair, pair_of, ensure_ca_pair,
}

-- What the program relies on: PEM blocks, certificates and keys are read back.
pub record CryptoLaws {C K E : Type 0} (crypto : Crypto C K E) : Type 0 where
  pub decode-encode :
      (type content : String) → crypto.decode (some (crypto.encode type content)) ≡ some content
  pub parse-raw : (c : C) → crypto.parse_certificate (crypto.raw c) ≡ ok c
  pub parse-marshal :
      (k : K) (content : String)
      → crypto.marshal_key k ≡ ok content
      → crypto.parse_key content ≡ ok k

module _ {S C K E : Type 0} (crypto : Crypto C K E) (api : SecretApi S) where
  module _ (crypto_laws : CryptoLaws crypto) (laws : SecretLaws api) (namespace name : String) where
    stored_pair-pair_secret :
        (c : C) (k : K) (content : String)
        → crypto.parse_key content ≡ ok k
        → stored_pair crypto api (pair_secret crypto api namespace name c content) ≡ ok (c, k)
    unfolding stored_pair pair_secret lookup
    stored_pair-pair_secret c k content readable =
        rw (crypto_laws.decode-encode "CERTIFICATE" (crypto.raw c)) (
          rw (crypto_laws.parse-raw c)
            (rw (crypto_laws.decode-encode "PRIVATE KEY" content) (rw readable refl)))

    new_pair-parse :
        (entropy : E) (c : C) (k : K) (content : String)
        → new_pair crypto api entropy ≡ ok (c, k, content)
        → crypto.parse_key content ≡ ok k
    unfolding new_pair
    new_pair-parse entropy c k content h =
        let (key, generated, h1) = >>=-eq-ok (crypto.generate_key entropy) _ h in
        let (cert, signed, h2) = >>=-eq-ok (crypto.self_signed entropy addon_name key) _ h1 in
        let (raw_key, marshalled, h3) = >>=-eq-ok (crypto.marshal_key key) _ h2 in
        let same : (cert, key, raw_key) ≡ (c, k, content) = ok-injective h3 in
        sym (ap (λ p. crypto.parse_key p.2) same)
        ∙ crypto_laws.parse-marshal key raw_key marshalled
        ∙ ap (λ p. ok p.1) same

    created_pair-ok :
        (pair pair' : C × K) (r : Result (Unit {0}))
        → created_pair crypto api pair r ≡ ok pair'
        → (r ≡ ok tt) × (pair ≡ pair')
    unfolding created_pair
    created_pair-ok pair pair' (ok u) h = (refl, ok-injective h)
    created_pair-ok pair pair' (err e) h = cc h
    created_pair-ok pair pair' panic h = cc h

    -- The state has this pair, or would be given it.
    Keeps : C × K → S → Type 0
    Keeps pair s =
        (t : Secret) × (api.get namespace name s ≡ ok t) × (stored_pair crypto api t ≡ ok pair)

    store_pair-Keeps :
        (entropy : E) (r : Result (C × K × String)) (s : S) (pair : C × K)
        → new_pair crypto api entropy ≡ r
        → (store_pair crypto api namespace name r s).0 ≡ ok pair
        → Keeps pair (store_pair crypto api namespace name r s).1
    unfolding store_pair Keeps pair_secret
    store_pair-Keeps entropy (ok (c, k, content)) s pair made h =
        let fresh = pair_secret crypto api namespace name c content in
        let (stored, same) = created_pair-ok (c, k) pair (api.create namespace fresh s).0 h in
        (
          fresh,
          laws.get-create namespace fresh s stored,
          stored_pair-pair_secret c k content (new_pair-parse entropy c k content made)
              ∙ ap ok same,
        )
    store_pair-Keeps entropy (err e) s pair made h = cc h
    store_pair-Keeps entropy panic s pair made h = cc h

    pair_of-Keeps :
        (entropy : E) (r : Result Secret) (s : S) (pair : C × K)
        → api.get namespace name s ≡ r
        → (pair_of crypto api entropy namespace name r s).0 ≡ ok pair
        → Keeps pair (pair_of crypto api entropy namespace name r s).1
    unfolding pair_of Keeps
    pair_of-Keeps entropy (ok current) s pair found h = (current, found, h)
    pair_of-Keeps entropy (err e) s pair found h = elim (Bool-cases (is_not_found e)) [
      | inl absent ↦
          rw absent
            (store_pair-Keeps entropy (new_pair crypto api entropy) s pair refl (rw absent at h))
      | inr other ↦ cc (rw other at h)
    ]
    pair_of-Keeps entropy panic s pair found h = cc h

    Keeps-ensure_ca_pair :
        (entropy : E) (pair : C × K) (s : S)
        → Keeps pair s
        → ensure_ca_pair crypto api entropy namespace name s ≡ (ok pair, s)
    unfolding ensure_ca_pair pair_of Keeps
    Keeps-ensure_ca_pair entropy pair s (t, found, stored) = rw found (rw stored refl)

  -- The pair that the addon manager starts with, generated or read, is the one that its next start
  -- reads, whatever the random bits of both starts are, and the next start changes nothing. PEM
  -- blocks, certificates, keys and secrets are read back as they were written.
  pub ensure_ca_pair-stable :
      (crypto_laws : CryptoLaws crypto) (laws : SecretLaws api) (namespace name : String)
      (first later : E) (pair : C × K) (s : S)
      → (ensure_ca_pair crypto api first namespace name s).0 ≡ ok pair
      → ensure_ca_pair crypto api later namespace name
          (ensure_ca_pair crypto api first namespace name s).1
        ≡ (ok pair, (ensure_ca_pair crypto api first namespace name s).1)
  unfolding ensure_ca_pair
  ensure_ca_pair-stable crypto_laws laws namespace name first later pair s h =
      Keeps-ensure_ca_pair crypto_laws laws namespace name later pair _ (
        pair_of-Keeps crypto_laws laws namespace name first (api.get namespace name s) s pair refl
          h)

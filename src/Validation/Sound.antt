-- ===== src/Validation/Sound.antt =====
-- Which credentials are valid.
use cluster_gateway.Base.{
  String, ◌≡◌, refl, sym, ◌∙◌, ◌↔◌, ◌⊎◌, inl, inr, Bool, false, Option, none, some, [], arith,
  eq_iff, str_eq, Bool-cases,
}
use cluster_gateway.Api.{text, is_blank, X509, ClusterAccessCredential, type_token, type_x509}
use cluster_gateway.Transport.{Url}
use cluster_gateway.Validation.{fault, validate_x509, validate_credential}

-- A key pair with both halves.
abbrev pub IsPair : Option X509 → Type 0
IsPair o =
    (x : X509) × (o ≡ some x)
    × (is_blank (text x.certificate) ≡ false)
    × (is_blank (text x.private_key) ≡ false)

module _ (parse : String → Option Url) (is_base64 : String → Bool) where
  -- A credential with a token that is not base64, or with a key pair that has both halves.
  abbrev pub IsValid : ClusterAccessCredential → Type 0
  IsValid c =
      ((c.type ≡ type_token)
        × (is_blank c.service_account_token ≡ false)
        × (is_base64 c.service_account_token ≡ false))
      ⊎ ((c.type ≡ type_x509) × IsPair c.x509)

  validate_x509_iff : (o : Option X509) → (validate_x509 parse is_base64 o ≡ []) ↔ IsPair o
  unfolding validate_x509 fault
  validate_x509_iff none = (λ h. cc h, λ (x, e, _, _). cc e)
  validate_x509_iff (some x) = elim (Bool-cases (is_blank (text x.certificate))) [
    | inl c ↦ (λ h. cc (rw c at h), λ (y, e, p, q). ground (arith, e, p, c))
    | inr c ↦ elim (Bool-cases (is_blank (text x.private_key))) [
      | inl k ↦ (λ h. cc (rw (c, k) at h), λ (y, e, p, q). ground (arith, e, q, k))
      | inr k ↦ (λ h. (x, refl, c, k), λ v. rw (c, k) refl)
    ]
  ]

  -- A credential has no fault just where it is a token that is not empty and not the base64 of
  -- anything, or a key pair with both halves; one of any other type, a dynamic one among them, has.
  pub validate_credential_iff :
      (c : ClusterAccessCredential) → (validate_credential parse is_base64 c ≡ []) ↔ IsValid c
  unfolding validate_credential fault
  validate_credential_iff c = elim (Bool-cases (str_eq c.type type_token)) [
    | inl token ↦
        let named : c.type ≡ type_token = (eq_iff c.type type_token).0 token in
        elim (Bool-cases (is_base64 c.service_account_token)) [
          | inl coded ↦ (
            λ h. cc (simp (named, coded) at h),
            λ v. elim v [ inl (_, _, p) ↦ cc (p, coded) | inr (e, _) ↦ cc (sym named ∙ e) ],
          )
          | inr plain ↦ elim (Bool-cases (is_blank c.service_account_token)) [
            | inl blank ↦ (
              λ h. cc (simp (named, plain, blank) at h),
              λ v. elim v [ inl (_, p, _) ↦ cc (p, blank) | inr (e, _) ↦ cc (sym named ∙ e) ],
            )
            | inr given ↦ (λ h. inl (named, given, plain), λ v. simp (named, plain, given) refl)
          ]
        ]
    | inr other ↦ elim (Bool-cases (str_eq c.type type_x509)) [
      | inl x509 ↦
          let named : c.type ≡ type_x509 = (eq_iff c.type type_x509).0 x509 in
          (
            λ h. inr (named, (validate_x509_iff c.x509).0 (simp named at h)),
            λ v. elim v [
              | inl (e, _, _) ↦ cc (sym named ∙ e)
              | inr (_, pair) ↦ simp named ((validate_x509_iff c.x509).1 pair)
            ],
          )
      | inr neither ↦ (
        λ h. cc (simp (other, neither) at h),
        λ v. elim v [
          | inl (e, _, _) ↦ cc (other, (eq_iff c.type type_token).1 e)
          | inr (e, _) ↦ cc (neither, (eq_iff c.type type_x509).1 e)
        ],
      )
    ]
  ]

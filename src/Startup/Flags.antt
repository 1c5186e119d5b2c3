-- ===== src/Startup/Flags.antt =====
-- Which configurations the server starts with.
use cluster_gateway.Base.{
  String, ◌≡◌, refl, ap, ◌≢◌, ◌⊎◌, inl, inr, ◌↔◌, Bool, true, false, eq_iff, Bool-cases,
  if◌then◌else◌, other, Result, ok, err,
}
use cluster_gateway.Base.Decimal.{ℤ, pos, int_eq}
use cluster_gateway.Base.Decimal.RoundTrip.{int_eq_refl, int_eq-eq}
use cluster_gateway.Api.{is_blank}
use cluster_gateway.Startup.{Config, validate_cluster_proxy}

-- A check that comes before others.
checked_iff :
    (failed : Bool) (text : String) (rest : Result (Unit {0}))
    → ((if failed then err (other text) else rest) ≡ ok tt) ↔ ((failed ≡ false) × (rest ≡ ok tt))
checked_iff true text rest = (λ h. cc h, λ (passed, h). cc passed)
checked_iff false text rest = (λ h. (refl, h), λ (passed, h). h)

-- A proxy that a client can be configured for.
abbrev pub IsProxy : Config → Type 0
IsProxy c =
    (c.cluster_proxy_port ≢ pos 0)
    × (c.cluster_proxy_ca_file ≢ "")
    × (c.cluster_proxy_cert_file ≢ "")
    × (c.cluster_proxy_key_file ≢ "")

pub non_blank : (s : String) → (is_blank s ≡ false) ↔ (s ≢ "")
non_blank s = (
  λ h e. cc (h, (eq_iff s "").1 e),
  λ h. elim (Bool-cases (is_blank s)) [
    | inl blank ↦ absurd (h ((eq_iff s "").0 blank))
    | inr full ↦ full
  ],
)

nonzero : (z : ℤ) → (int_eq z (pos 0) ≡ false) ↔ (z ≢ pos 0)
nonzero z = (
  λ h e. cc (ap (λ y. int_eq y (pos 0)) e, int_eq_refl (pos 0), h),
  λ h. elim (Bool-cases (int_eq z (pos 0))) [
    | inl zero_port ↦ absurd (h (int_eq-eq z (pos 0) zero_port))
    | inr other_port ↦ other_port
  ],
)

-- The flags of the cluster proxy are accepted exactly where there is no proxy host, or the port is
-- not zero, be it negative, and each of the three files is given.
pub validate_cluster_proxy_iff :
    (c : Config) → (validate_cluster_proxy c ≡ ok tt) ↔ ((c.cluster_proxy_host ≡ "") ⊎ IsProxy c)
unfolding validate_cluster_proxy
validate_cluster_proxy_iff c = elim (Bool-cases (is_blank c.cluster_proxy_host)) [
  | inl blank ↦ (λ h. inl ((eq_iff c.cluster_proxy_host "").0 blank), λ v. rw blank refl)
  | inr host ↦ (
    λ h.
        let (port, h1) = (checked_iff _ _ _).0 (rw host at h) in
        let (ca, h2) = (checked_iff _ _ _).0 h1 in
        let (cert, h3) = (checked_iff _ _ _).0 h2 in
        let (key, h4) = (checked_iff _ _ _).0 h3 in
        inr ((nonzero _).0 port, (non_blank _).0 ca, (non_blank _).0 cert, (non_blank _).0 key),
    λ v. elim v [
      | inl blank ↦ cc (host, (eq_iff c.cluster_proxy_host "").1 blank)
      | inr (port, ca, cert, key) ↦
          rw
            (
              host,
              (nonzero _).1 port,
              (non_blank _).1 ca,
              (non_blank _).1 cert,
              (non_blank _).1 key,
            )
            refl
    ],
  )
]

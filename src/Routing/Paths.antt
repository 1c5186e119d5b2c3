-- ===== src/Routing/Paths.antt =====
-- The clients and the proxy agree on the path of a proxied request.
use text.Mathlib.TextLemmas.{append_assoc}
use cluster_gateway.Base.{String, ◌≡◌, refl, ap, none, some, ◌⧺◌, if◌then◌else◌, Result, inl, inr}
use cluster_gateway.Base.Text.{trim_prefix, has_prefix, join, trim_prefix-append, trim_prefix-cases}
use cluster_gateway.Routing.{
  Request, format_proxy_url, prefixed_path, subresource_path, api_prefix, api_suffix,
  new_cluster_gateway_round_tripper, prepending_round_trip, round_tripper_for_cluster,
}

format_proxy_url-eq :
    (c p : String) → format_proxy_url c p ≡ (api_prefix ⧺ c ⧺ api_suffix) ⧺ "/" ⧺ trim_prefix p "/"
unfolding format_proxy_url join
format_proxy_url-eq c p =
    simp (← append_assoc)
      (ap (λ s. (s ⧺ "/") ⧺ trim_prefix p "/") (append_assoc (api_prefix ⧺ c) "/" "proxy"))

-- A client's path, behind the prefix of the gateway that it is sent to, is the client's original
-- path with one leading slash.
pub subresource_path-format_proxy_url :
    (c p : String) → subresource_path c (format_proxy_url c p) ≡ "/" ⧺ trim_prefix p "/"
unfolding subresource_path
subresource_path-format_proxy_url c p =
    rw (format_proxy_url-eq c p) (trim_prefix-append (api_prefix ⧺ c ⧺ api_suffix) _)

slashed : (p : String) → (if has_prefix p "/" then p else "/" ⧺ p) ≡ "/" ⧺ trim_prefix p "/"
slashed p = elim (trim_prefix-cases p "/") [
  | inl (has, split) ↦ rw has split
  | inr (lacks, same) ↦ rw (lacks, same)
]

-- The two client libraries send a request for a cluster to the same path.
pub prefixed_path-format_proxy_url : (c p : String) → prefixed_path c p ≡ format_proxy_url c p
unfolding prefixed_path
prefixed_path-format_proxy_url c p =
    rw (slashed p) (rw (format_proxy_url-eq c p) (simp append_assoc))

module _ {Response : Type 0} (delegate : Request → Result Response) where
  -- The gateway's round tripper sends a request that names a cluster to that cluster's proxy, with
  -- the same original path behind it, as each of the other clients does when it is given the name;
  -- a request that names none goes to the hub unchanged.
  pub round_trip-clients :
      (request : Request) (c : String)
      → (new_cluster_gateway_round_tripper delegate (record request { cluster_name = some c })
          ≡ round_tripper_for_cluster delegate c (record request { cluster_name = some c }))
        × (new_cluster_gateway_round_tripper delegate (record request { cluster_name = some c })
            ≡ prepending_round_trip delegate c (record request { cluster_name = some c }))
        × (new_cluster_gateway_round_tripper delegate (record request { cluster_name = none })
            ≡ delegate (record request { cluster_name = none }))
  unfolding new_cluster_gateway_round_tripper round_tripper_for_cluster prepending_round_trip
  round_trip-clients request c = (rw (prefixed_path-format_proxy_url c request.path), refl, refl)

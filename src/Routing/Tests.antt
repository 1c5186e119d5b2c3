-- ===== src/Routing/Tests.antt =====
-- Requests for the cluster prod.
use cluster_gateway.Base.{String, ◌≡◌, none, some, ◌⧺◌, Result, ok}
use cluster_gateway.Base.Text.{trim_prefix}
use cluster_gateway.Routing.{
  Request, format_proxy_url, subresource_path, new_cluster_gateway_round_tripper,
  prepending_round_trip, round_tripper_for_cluster,
}
use cluster_gateway.Routing.Paths.{subresource_path-format_proxy_url, round_trip-clients}

-- A delegate that answers with the path that it is asked for.
abbrev echo : Request → Result String
echo request = ok request.path

abbrev pods : Request
pods = record { path = "api/v1/pods"; cluster_name = none; context_name = none }

subresource_path-format_proxy_url_example :
    subresource_path "prod" (format_proxy_url "prod" "/api/v1/pods")
    ≡ "/" ⧺ trim_prefix "/api/v1/pods" "/"
subresource_path-format_proxy_url_example = subresource_path-format_proxy_url "prod" "/api/v1/pods"

round_trip-clients_example :
    (new_cluster_gateway_round_tripper echo (record pods { cluster_name = some "prod" })
      ≡ round_tripper_for_cluster echo "prod" (record pods { cluster_name = some "prod" }))
    × (new_cluster_gateway_round_tripper echo (record pods { cluster_name = some "prod" })
        ≡ prepending_round_trip echo "prod" (record pods { cluster_name = some "prod" }))
    × (new_cluster_gateway_round_tripper echo (record pods { cluster_name = none })
        ≡ echo (record pods { cluster_name = none }))
round_trip-clients_example = round_trip-clients echo pods "prod"

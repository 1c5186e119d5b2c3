-- ===== src/Metrics.antt =====
-- The metrics of the proxy: pkg/metrics, and the `finishFunc` of
-- pkg/apis/cluster/v1alpha1/clustergateway_proxy.go that records them.
pub mod Counted
mod Tests
use cluster_gateway.Base.{ℕ, suc, String, Bool, true, false, List, [], ◌∷◌, str_eq, if◌then◌else◌}
use cluster_gateway.Base.Decimal.{pos, itoa}

abbrev pub Labels : Type 0
Labels = List String

pub labels_eq : Labels → Labels → Bool
labels_eq [] [] = true
labels_eq (k ∷ ks) (l ∷ ls) = let rest = labels_eq ks ls in if str_eq k l then rest else false
labels_eq _ _ = false

-- The library's vectors of counters and of histograms, by the values of their labels: `inc` is
-- `WithLabelValues(…).Inc()`, `observe` is `WithLabelValues(…).Observe`, and the two others read a
-- counter and the number of observations. Durations are numbers of nanoseconds.
pub record Vectors (C H : Type 0) : Type 0 where
  pub inc : Labels → C → C
  pub counter : Labels → C → ℕ
  pub observe : Labels → ℕ → H → H
  pub observations : H → ℕ

-- The metrics of the proxied requests
pub record Metrics (C H : Type 0) : Type 0 where
  pub requests_by_resource : C
  pub requests_by_cluster : C
  pub durations : H

module _ {C H : Type 0} (vectors : Vectors C H) where
  record_proxied_requests_by_resource : String → String → ℕ → Metrics C H → Metrics C H
  record_proxied_requests_by_resource resource verb code m = record m {
    requests_by_resource =
        vectors.inc (resource ∷ verb ∷ itoa (pos code) ∷ []) m.requests_by_resource;
  }

  record_proxied_requests_by_cluster : String → ℕ → Metrics C H → Metrics C H
  record_proxied_requests_by_cluster cluster code m = record m {
    requests_by_cluster = vectors.inc (cluster ∷ itoa (pos code) ∷ []) m.requests_by_cluster;
  }

  record_proxied_requests_duration : String → String → String → ℕ → ℕ → Metrics C H → Metrics C H
  record_proxied_requests_duration resource verb cluster code ts m = record m {
    durations = vectors.observe (resource ∷ verb ∷ cluster ∷ itoa (pos code) ∷ []) ts m.durations;
  }

  -- What `Connect` gives the handler to call at the end of a request: `id` is the gateway's name,
  -- and `elapsed` the time since.
  pub finish_func : String → String → String → ℕ → ℕ → Metrics C H → Metrics C H
  unfolding record_proxied_requests_by_resource record_proxied_requests_by_cluster
      record_proxied_requests_duration
  finish_func resource verb id elapsed code m =
      record_proxied_requests_duration resource verb id code elapsed (
        record_proxied_requests_by_cluster id code
          (record_proxied_requests_by_resource resource verb code m))

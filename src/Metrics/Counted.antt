-- ===== src/Metrics/Counted.antt =====
-- Each request that is served is counted once.
use mathlib.Core.Path.{subst}
use cluster_gateway.Base.{
  ℕ, suc, ◌+◌, String, ◌≡◌, refl, sym, ap, ◌∙◌, Bool, true, false, List, [], ◌∷◌, if◌then◌else◌,
  arith, count, Error, Result, ok, err, panic,
}
use cluster_gateway.Base.Decimal.{pos, itoa}
use cluster_gateway.Api.{ProxyConfiguration}
use cluster_gateway.Transport.{Net}
use cluster_gateway.Proxy.{
  Request, ProxyHandler, Libraries, Upstream, Forwarded, forward, serve_http,
}
use cluster_gateway.Proxy.Status.{recorded, finished-serve_http}
use cluster_gateway.Connect.{Options, Server, connect}
use cluster_gateway.Connect.Authorized.{connect-finish_func}
use cluster_gateway.Metrics.{
  Labels, labels_eq, Vectors, Metrics, record_proxied_requests_by_resource,
  record_proxied_requests_by_cluster, record_proxied_requests_duration, finish_func,
}

-- A request for the proxy subresource of the gateway `id`, and what the server gives with it.
pub record Connection : Type 0 where
  pub server : Server
  pub id : String
  pub options : Options
  pub responder : Error → List ℕ
  pub elapsed : ℕ
  pub request : Request

-- What the program relies on: an increment adds one to the counter of its labels and nothing to the
-- others, and an observation is one more.
pub record VectorLaws {C H : Type 0} (vectors : Vectors C H) : Type 0 where
  pub counter-inc :
      (values ls : Labels) (c : C)
      → vectors.counter values (vectors.inc ls c)
        ≡ vectors.counter values c + (if labels_eq ls values then 1 else 0)
  pub observations-observe :
      (ls : Labels) (ts : ℕ) (h : H)
      → vectors.observations (vectors.observe ls ts h) ≡ suc (vectors.observations h)

module _ {C H : Type 0} (vectors : Vectors C H) (net : Net) (libraries : Libraries net)
    (penetration : Bool) (global : ProxyConfiguration)
    (upstream : Forwarded net libraries → Upstream) where
  abbrev pub connected : Connection → Result (ProxyHandler (Metrics C H))
  connected c = connect c.server vectors c.id c.options c.responder c.elapsed

  -- The metrics after a request: those that its handler leaves, where `Connect` gives one.
  pub served_by : Result (ProxyHandler (Metrics C H)) → Request → Metrics C H → Metrics C H
  served_by (ok p) request m =
      (serve_http net libraries penetration global upstream p request m).finished
  served_by (err e) request m = m
  served_by panic request m = m

  -- The metrics after requests that are served one after the other
  pub served : List Connection → Metrics C H → Metrics C H
  served [] m = m
  served (c ∷ cs) m = served cs (served_by (connected c) c.request m)

  -- A request for a cluster that has a handler, and is recorded with a code.
  abbrev pub ended_by : Labels → String → Request → Result (ProxyHandler (Metrics C H)) → Bool
  ended_by values id request (ok p) =
      labels_eq
        (id
          ∷ itoa (
              pos (
                recorded net libraries upstream
                  (forward net libraries penetration global p request)))
          ∷ [])
        values
  ended_by values id request (err e) = false
  ended_by values id request panic = false

  abbrev pub ended_with : Labels → Connection → Bool
  ended_with values c = ended_by values c.id c.request (connected c)

  abbrev pub has_handler : Result (ProxyHandler (Metrics C H)) → Bool
  has_handler (ok p) = true
  has_handler (err e) = false
  has_handler panic = false

  -- One more in the counter of a cluster and a code, or in the histogram, where `b` is true.
  abbrev Adds : Labels → Bool → Bool → Metrics C H → Metrics C H → Type 0
  Adds values counted handled m m' =
      (vectors.counter values m'.requests_by_cluster
        ≡ vectors.counter values m.requests_by_cluster + (if counted then 1 else 0))
      × (vectors.observations m'.durations
          ≡ vectors.observations m.durations + (if handled then 1 else 0))

  finish_func-Adds :
      (laws : VectorLaws vectors) (values : Labels) (resource verb id : String) (elapsed code : ℕ)
      (m : Metrics C H)
      → Adds values
          (labels_eq (id ∷ itoa (pos code) ∷ []) values)
          true
          m
          (finish_func vectors resource verb id elapsed code m)
  unfolding finish_func record_proxied_requests_by_resource record_proxied_requests_by_cluster
      record_proxied_requests_duration
  finish_func-Adds laws values resource verb id elapsed code m = (
    laws.counter-inc values (id ∷ itoa (pos code) ∷ []) m.requests_by_cluster,
    laws.observations-observe _ _ m.durations ∙ omega arith,
  )

  served_by-Adds :
      (laws : VectorLaws vectors) (values : Labels) (c : Connection)
      (r : Result (ProxyHandler (Metrics C H))) (m : Metrics C H)
      → connected c ≡ r
      → Adds values (ended_by values c.id c.request r) (has_handler r) m (served_by r c.request m)
  unfolding served_by
  served_by-Adds laws values c (ok p) m given =
      let code =
        recorded net libraries upstream (forward net libraries penetration global p c.request) in
      let (resource, verb, e) =
        connect-finish_func c.server vectors c.id c.options c.responder c.elapsed p given in
      let after : finish_func vectors resource verb c.id c.elapsed code m
          ≡ (serve_http net libraries penetration global upstream p c.request m).finished =
        sym (
          finished-serve_http net libraries penetration global upstream p c.request m
          ∙ ap (λ f. f code m) e) in
      subst (Adds values (ended_by values c.id c.request (ok p)) true m) after
        (finish_func-Adds laws values resource verb c.id c.elapsed code m)
  served_by-Adds laws values c (err e) m given = (omega arith, omega arith)
  served_by-Adds laws values c panic m given = (omega arith, omega arith)

  -- After any requests the counter of a cluster and a code has grown by the number of those of them
  -- that connected to this cluster and were recorded with this code, and the histogram has one
  -- observation more for each that connected; the library's counters and histograms count.
  pub served-counted :
      (laws : VectorLaws vectors) (values : Labels) (cs : List Connection) (m : Metrics C H)
      → (vectors.counter values (served cs m).requests_by_cluster
          ≡ vectors.counter values m.requests_by_cluster + count (ended_with values) cs)
        × (vectors.observations (served cs m).durations
            ≡ vectors.observations m.durations + count (λ c. has_handler (connected c)) cs)
  unfolding served
  served-counted laws values [] m = (omega arith, omega arith)
  served-counted laws values (c ∷ cs) m =
      let (one, seen) = served_by-Adds laws values c (connected c) m refl in
      let (rest, others) = served-counted laws values cs (served_by (connected c) c.request m) in
      (
        rest ∙ ap (λ n. n + count (ended_with values) cs) one ∙ omega arith,
        others ∙ ap (λ n. n + count (λ c. has_handler (connected c)) cs) seen ∙ omega arith,
      )

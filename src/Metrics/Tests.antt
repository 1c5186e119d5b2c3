-- ===== src/Metrics/Tests.antt =====
-- A request for the pods of prod, counted.
use cluster_gateway.Base.{
  ℕ, suc, ◌+◌, ◌≡◌, refl, sym, ap, ◌∙◌, inl, inr, true, false, List, [], ◌∷◌, str_eq, eq_iff,
  if◌then◌else◌, arith, Bool-cases, length, count,
}
use cluster_gateway.Identity.Sample.{no_rules}
use cluster_gateway.Transport.Sample.{sample_net}
use cluster_gateway.Proxy.{Upstream, writes, Forwarded}
use cluster_gateway.Proxy.Sample.{libraries}
use cluster_gateway.Connect.{proxy_options}
use cluster_gateway.Connect.Sample.{server, options}
use cluster_gateway.Metrics.{Labels, labels_eq, Vectors, Metrics}
use cluster_gateway.Metrics.Counted.{
  Connection, VectorLaws, connected, has_handler, served, ended_with, served-counted,
}

-- Counters as a list, by the values of their labels, and observations as another.
abbrev CounterVec : Type 0
CounterVec = List (Labels × ℕ)

inc : Labels → CounterVec → CounterVec
inc values [] = (values, 1) ∷ []
inc values ((ls, n) ∷ counters) =
    let rest = inc values counters in
    if labels_eq ls values then (ls, suc n) ∷ counters else (ls, n) ∷ rest

counter : Labels → CounterVec → ℕ
counter values [] = 0
counter values ((ls, n) ∷ counters) =
    let rest = counter values counters in if labels_eq ls values then n else rest

labels_eq-eq : (ks ls : Labels) → labels_eq ks ls ≡ true → ks ≡ ls
unfolding labels_eq
labels_eq-eq [] [] h = refl
labels_eq-eq [] (l ∷ ls) h = cc h
labels_eq-eq (k ∷ ks) [] h = cc h
labels_eq-eq (k ∷ ks) (l ∷ ls) h = elim (Bool-cases (str_eq k l)) [
  | inl same ↦
      let head : k ≡ l = (eq_iff k l).0 same in
      let tail : ks ≡ ls = labels_eq-eq ks ls (rw same at h) in cc (head, tail)
  | inr other ↦ cc (rw other at h)
]

labels_eq_refl : (ls : Labels) → labels_eq ls ls ≡ true
unfolding labels_eq
labels_eq_refl [] = refl
labels_eq_refl (l ∷ ls) = rw ((eq_iff l l).1 refl) (labels_eq_refl ls)

distinct :
    (ks ls values : Labels)
    → labels_eq ks ls ≡ false
    → labels_eq ks values ≡ true
    → labels_eq ls values ≡ false
distinct ks ls values other hit = elim (Bool-cases (labels_eq ls values)) [
  | inl same ↦
      let e : ks ≡ ls = labels_eq-eq ks values hit ∙ sym (labels_eq-eq ls values same) in
      cc (other, ap (λ x. labels_eq x ls) e, labels_eq_refl ls)
  | inr apart ↦ apart
]

counter-inc :
    (values ls : Labels) (c : CounterVec)
    → counter values (inc ls c) ≡ counter values c + (if labels_eq ls values then 1 else 0)
unfolding counter inc
counter-inc values ls [] = elim (Bool-cases (labels_eq ls values)) [
  | inl same ↦ rw same (omega arith)
  | inr other ↦ rw other (omega arith)
]
counter-inc values ls ((ks, n) ∷ c) =
    let rest = counter-inc values ls c in
    elim (Bool-cases (labels_eq ks ls)) [
      | inl same ↦
          let e : labels_eq ls values ≡ labels_eq ks values =
            ap (λ x. labels_eq x values) (sym (labels_eq-eq ks ls same)) in
          elim (Bool-cases (labels_eq ks values)) [
            | inl hit ↦ rw same (rw e (rw hit (omega arith)))
            | inr miss ↦ rw same (rw e (rw miss (omega arith)))
          ]
      | inr other ↦ elim (Bool-cases (labels_eq ks values)) [
        | inl hit ↦ rw other (rw hit (rw (distinct ks ls values other hit) (omega arith)))
        | inr miss ↦ rw other (rw miss rest)
      ]
    ]

abbrev vectors : Vectors CounterVec (List (Labels × ℕ))
vectors = record {
  inc = inc;
  counter = counter;
  observe = λ ls ts h. (ls, ts) ∷ h;
  observations = length;
}

laws : VectorLaws vectors
laws = record { counter-inc = counter-inc; observations-observe = λ ls ts h. refl }

abbrev upstream : Forwarded sample_net libraries → Upstream
upstream f = record { events = writes 404 ∷ []; panics = false }

abbrev pods : Connection
pods = record {
  server = server;
  id = "prod";
  options = proxy_options options;
  responder = λ e. 502 ∷ [];
  elapsed = 12;
  request = record {
    path = "/apis/cluster.core.oam.dev/v1alpha1/clustergateways/prod/proxy/api/v1/pods";
    raw_query = "";
    user = record { name = "alice"; uid = "1"; groups = []; extra = [] };
  };
}

abbrev empty : Metrics CounterVec (List (Labels × ℕ))
empty = record { requests_by_resource = []; requests_by_cluster = []; durations = [] }

served-counted_example :
    (counter
        ("prod" ∷ "404" ∷ [])
        (served vectors sample_net libraries true no_rules upstream
          (pods ∷ [])
          empty).requests_by_cluster
      ≡ vectors.counter ("prod" ∷ "404" ∷ []) empty.requests_by_cluster
        + count
            (ended_with vectors sample_net libraries true no_rules upstream ("prod" ∷ "404" ∷ []))
            (pods ∷ []))
    × (vectors.observations
          (served vectors sample_net libraries true no_rules upstream (pods ∷ []) empty).durations
        ≡ vectors.observations empty.durations
          + count
              (λ c.
                has_handler vectors sample_net libraries true no_rules upstream
                  (connected vectors sample_net libraries true no_rules upstream c))
              (pods ∷ []))
served-counted_example =
    served-counted vectors sample_net libraries true no_rules upstream laws ("prod" ∷ "404" ∷ [])
      (pods ∷ []) empty

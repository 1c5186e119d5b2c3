-- ===== src/Proxy/Tests.antt =====
-- A proxied request of alice for the pods of prod, as a dry run.
use cluster_gateway.Base.{
  ℕ, String, ◌≡◌, refl, ◌⊎◌, true, false, ◌||◌, none, some, List, [], ◌∷◌, ◌⧺◌, other, ok,
}
use cluster_gateway.Base.Text.{trim_prefix}
use cluster_gateway.Base.Maps.{lookup, IsMap}
use cluster_gateway.Identity.Sample.{no_rules, unruled_sample}
use cluster_gateway.Identity.{UserInfo, ImpersonationConfig}
use cluster_gateway.Transport.{Url, new_config_from_cluster, get_endpoint_url}
use cluster_gateway.Transport.Sample.{
  sample_net, sample_url, sample_config, configured_sample, located_sample,
}
use cluster_gateway.Convert.Sample.{sample_gateway}
use cluster_gateway.Routing.{format_proxy_url}
use cluster_gateway.Query.{escape_query_values}
use cluster_gateway.Query.RoundTrip.{delivered}
use cluster_gateway.Proxy.{
  Request, ProxyHandler, writes, fails, Upstream, Forwarded, join_path, require, impersonation,
  forwarded_of, forward, serve_http,
}
use cluster_gateway.Proxy.Status.{Outcome, serve_http-finished}
use cluster_gateway.Proxy.EndToEnd.{Impersonates, forward-client, forward-impersonate}
use cluster_gateway.Proxy.Sample.{libraries, dry_run}

abbrev alice : UserInfo
alice = record { name = "alice"; uid = "1"; groups = "dev" ∷ []; extra = [] }

-- Its metrics are the list of the codes that were recorded.
abbrev handler : ProxyHandler (List ℕ)
handler = record {
  parent_name = "prod";
  path = "/api/v1/pods";
  impersonate = true;
  cluster_gateway = sample_gateway;
  responder = λ e. 502 ∷ [];
  finish_func = λ code codes. code ∷ codes;
}

abbrev request : Request
request = record {
  path = format_proxy_url "prod" "/api/v1/pods";
  raw_query = "limit=5&__dryRun=All";
  user = alice;
}

abbrev as_alice : ImpersonationConfig
as_alice = record { user_name = "alice"; uid = ""; groups = "dev" ∷ []; extra = [] }

abbrev sent : Forwarded sample_net libraries
sent =
    forwarded_of sample_net libraries handler request sample_url sample_config (some as_alice) tt tt
      tt

impersonated :
    impersonation sample_net libraries false no_rules handler request ≡ ok (some as_alice)
unfolding impersonation
impersonated = rw (unruled_sample libraries.regexp alice "prod") refl

forwarded : forward sample_net libraries false no_rules handler request ≡ ok sent
unfolding forward require
forwarded = rw (located_sample, configured_sample, impersonated) refl

dry_run-IsMap : IsMap dry_run
unfolding lookup
dry_run-IsMap = (refl, (refl, tt))

plain : lookup "__dryRun" dry_run ≡ none
unfolding lookup
plain = refl

forward-client_example :
    (url : Url) × (get_endpoint_url sample_net sample_gateway ≡ ok url)
    × (sent.address ≡ url.host)
    × (sent.path ≡ join_path libraries.clean url.path ("/" ⧺ trim_prefix "/api/v1/pods" "/"))
    × ((j : String) → lookup j sent.query ≡ delivered j dry_run)
    × (libraries.parse_query sent.location_query ≡ escape_query_values dry_run)
forward-client_example =
    forward-client sample_net libraries false no_rules handler alice "/api/v1/pods"
      "limit=5&__dryRun=All" dry_run sent refl dry_run-IsMap plain forwarded

forward-impersonate_example :
    (new_config_from_cluster sample_net sample_gateway ≡ ok sent.config)
    × (libraries.transport_for sent.config sent.impersonate ≡ ok sent.transport)
    × ((tc : libraries.TransportConfig) × (libraries.transport_config sent.config sent.impersonate
          ≡ ok tc)
        × (libraries.tls_config_for tc ≡ ok sent.upgrade_tls)
        × (libraries.http_wrappers_for tc ≡ ok sent.upgrader))
    × (((true || false ≡ false) × (sent.impersonate ≡ none))
        ⊎ ((true || false ≡ true)
            × ((c : ImpersonationConfig) × Impersonates sample_net libraries false no_rules handler
                  alice c
                × (sent.impersonate ≡ some c))))
forward-impersonate_example =
    forward-impersonate sample_net libraries false no_rules handler request sent forwarded

-- The cluster answers, and the copy of its answer fails.
abbrev cut_short : Forwarded sample_net libraries → Upstream
cut_short f = record { events = writes 201 ∷ fails (other "unexpected EOF") ∷ []; panics = true }

serve_http-finished_example :
    Outcome sample_net libraries false no_rules cut_short handler []
      (forward sample_net libraries false no_rules handler request)
      (serve_http sample_net libraries false no_rules cut_short handler request [])
serve_http-finished_example =
    serve_http-finished sample_net libraries false no_rules cut_short handler request []

-- ===== src/Proxy/Sample.antt =====
-- Libraries for sample requests.
use cluster_gateway.Base.{none, [], ◌∷◌, ok}
use cluster_gateway.Query.{Values, escape_query_values}
use cluster_gateway.Transport.Sample.{sample_net}
use cluster_gateway.Proxy.{Libraries}

abbrev pub dry_run : Values
dry_run = ("limit", "5" ∷ []) ∷ ("dryRun", "All" ∷ []) ∷ []

abbrev pub libraries : Libraries sample_net
libraries = record {
  Transport = Unit {0};
  transport_for = λ cfg imp. ok tt;
  TransportConfig = Unit {0};
  transport_config = λ cfg imp. ok tt;
  TlsConfig = Unit {0};
  tls_config_for = λ cfg. ok tt;
  Upgrader = Unit {0};
  http_wrappers_for = λ cfg. ok tt;
  regexp = λ pattern query. none;
  clean = λ path. path;
  parse_query = λ raw. escape_query_values dry_run;
  internal_error = λ e. 500 ∷ [];
}

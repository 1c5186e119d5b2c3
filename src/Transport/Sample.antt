-- ===== src/Transport/Sample.antt =====
-- A network that resolves every address to one host, for tests.
use cluster_gateway.Base.{◌≡◌, refl, false, none, some, ok}
use cluster_gateway.Transport.{
  Net, Url, host_of, Config, host_name, proxy_of, is_set, set_const, set_endpoint, set_credential,
  new_config_from_cluster, url_of, get_endpoint_url,
}
use cluster_gateway.Convert.Sample.{sample_gateway}

abbrev pub sample_url : Url
sample_url = record { scheme = "https"; host = "prod:6443"; path = "" }

abbrev pub sample_net : Net
sample_net = record {
  Dialer = Unit {0};
  parse = λ address. some sample_url;
  split_host_port = λ address. host_of "prod";
  get_dialer = ok tt;
}

abbrev pub sample_config : Config sample_net
sample_config = record {
  timeout = 40;
  host = "https://prod:6443";
  bearer_token = "secret";
  cert_data = none;
  key_data = none;
  ca_data = some "CA";
  insecure = false;
  server_name = "prod";
  proxy = none;
  dial = none;
}

pub configured_sample : new_config_from_cluster sample_net sample_gateway ≡ ok sample_config
unfolding new_config_from_cluster set_endpoint set_const set_credential host_name proxy_of is_set
configured_sample = refl

pub located_sample : get_endpoint_url sample_net sample_gateway ≡ ok sample_url
unfolding get_endpoint_url url_of
located_sample = refl

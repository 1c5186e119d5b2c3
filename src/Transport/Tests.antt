-- ===== src/Transport/Tests.antt =====
-- The configuration for a gateway with a token, and for one behind the cluster proxy.
use cluster_gateway.Base.{◌≡◌, ◌≢◌, refl, ap, true, false, none, some, [], ok, panic}
use cluster_gateway.Api.{ClusterEndpoint, ClusterGateway}
use cluster_gateway.Convert.Complete.{IsComplete, convert_from_secret-IsComplete}
use cluster_gateway.Convert.Sample.{
  sample_env, sample_secret, sample_gateway, sample_credential, converted_sample, converted_whole,
}
use cluster_gateway.Transport.{
  Config, new_config_from_cluster, get_endpoint_url, set_endpoint, set_credential,
}
use cluster_gateway.Transport.Total.{convert-new_config-ne-panic}
use cluster_gateway.Transport.Access.{
  SkipsVerification, Presents, new_config-insecure, new_config-Presents,
}
use cluster_gateway.Transport.Sample.{sample_net, sample_config, configured_sample}

abbrev behind_proxy : ClusterEndpoint
behind_proxy = record { type = "ClusterProxy"; const = none }

abbrev proxied_gateway : ClusterGateway
proxied_gateway = record {
  name = "prod";
  creation_timestamp = 7;
  spec = record {
    provider = "";
    access = record { endpoint = some behind_proxy; credential = some sample_credential };
    proxy_config = none;
  };
  status = record { healthy = true; healthy_reason = "" };
}

abbrev proxied_config : Config sample_net
proxied_config = record sample_config {
  host = "prod";
  ca_data = none;
  insecure = true;
  server_name = "";
  dial = some tt;
}

configured_proxied : new_config_from_cluster sample_net proxied_gateway ≡ ok proxied_config
unfolding new_config_from_cluster set_endpoint set_credential
configured_proxied = refl

new_config-insecure_example : SkipsVerification behind_proxy × (proxied_config.ca_data ≡ none)
new_config-insecure_example =
    new_config-insecure sample_net proxied_gateway behind_proxy proxied_config refl
      configured_proxied refl

sample-IsComplete : IsComplete sample_gateway
sample-IsComplete =
    (convert_from_secret-IsComplete sample_env sample_secret [] sample_gateway
      (ap (λ r. r.0) converted_sample)).1

new_config-Presents_example : Presents sample_net sample-IsComplete.credential sample_config
new_config-Presents_example =
    new_config-Presents sample_net sample_gateway sample-IsComplete sample_config configured_sample

dials : sample_net.get_dialer ≢ panic
dials e = cc e

convert-new_config-ne-panic_example :
    (new_config_from_cluster sample_net sample_gateway ≢ panic)
    × (get_endpoint_url sample_net sample_gateway ≢ panic)
convert-new_config-ne-panic_example =
    convert-new_config-ne-panic sample_net dials sample_env (some "CA") "https://prod:6443" false
      sample_secret [] sample_gateway (ap (λ r. r.0) converted_whole)

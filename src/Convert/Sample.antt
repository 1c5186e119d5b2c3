-- ===== src/Convert/Sample.antt =====
-- A secret with a token, and the gateway that it stands for, for tests.
use cluster_gateway.Base.{◌≡◌, ◌≢◌, refl, true, false, none, some, [], ◌∷◌, ok, eq_iff}
use cluster_gateway.Base.Maps.{lookup}
use cluster_gateway.Api.{
  ClusterAccessCredential, ClusterEndpoint, ClusterGateway, Secret, type_cluster_proxy,
}
use cluster_gateway.Exec.Sample.{sample_host}
use cluster_gateway.Convert.{
  Env, parse_bool, get_endpoint_from_secret, endpoint_type, proxy_url, convert_endpoint,
  convert_credential, convert_status, convert_proxy_config, convert, convert_from_secret,
}
use cluster_gateway.Base.Text.{trim_newline}

abbrev pub sample_env : Env
sample_env = record {
  healthiness_check = true;
  client_identity_penetration = true;
  unmarshal = λ text. none;
  decode_exec = λ text. none;
  host = sample_host;
  now = 0;
}

abbrev pub sample_secret : Secret
sample_secret = record {
  namespace = "vela-system";
  name = "prod";
  creation_timestamp = 7;
  labels = ("cluster.core.oam.dev/cluster-credential-type", "ServiceAccountToken") ∷ [];
  annotations =
      ("status.cluster.core.oam.dev/healthy", "true")
      ∷ ("status.cluster.core.oam.dev/healthy-reason", "")
      ∷ [];
  owner_references = [];
  contents =
      ("endpoint", some "https://prod:6443")
      ∷ ("ca.crt", some "CA")
      ∷ ("token", some "secret")
      ∷ [];
}

abbrev pub sample_credential : ClusterAccessCredential
sample_credential = record {
  type = "ServiceAccountToken";
  service_account_token = "secret";
  x509 = none;
}

abbrev pub sample_endpoint : ClusterEndpoint
sample_endpoint = record {
  type = "Const";
  const = some (record {
    address = "https://prod:6443";
    ca_bundle = some "CA";
    insecure = none;
    proxy_url = none;
  });
}

abbrev pub sample_gateway : ClusterGateway
sample_gateway = record {
  name = "prod";
  creation_timestamp = 7;
  spec = record {
    provider = "";
    access = record { endpoint = some sample_endpoint; credential = some sample_credential };
    proxy_config = none;
  };
  status = record { healthy = true; healthy_reason = "" };
}

pub converted_sample : convert_from_secret sample_env sample_secret [] ≡ (ok sample_gateway, [])
unfolding convert_from_secret convert convert_endpoint convert_credential convert_status
    convert_proxy_config get_endpoint_from_secret endpoint_type proxy_url parse_bool lookup
    trim_newline
converted_sample = refl

pub converted_whole :
    convert sample_env (some "CA") "https://prod:6443" false sample_secret []
    ≡ (ok sample_gateway, [])
unfolding convert convert_endpoint convert_credential convert_status convert_proxy_config
    endpoint_type proxy_url parse_bool lookup
converted_whole = refl

-- The same cluster, found to be unhealthy.
abbrev pub sick_secret : Secret
sick_secret = record sample_secret {
  annotations =
      ("status.cluster.core.oam.dev/healthy", "false")
      ∷ ("status.cluster.core.oam.dev/healthy-reason", "timeout")
      ∷ [];
}

abbrev pub sick_gateway : ClusterGateway
sick_gateway = record sample_gateway {
  status = record { healthy = false; healthy_reason = "timeout" };
}

pub converted_sick : convert_from_secret sample_env sick_secret [] ≡ (ok sick_gateway, [])
unfolding convert_from_secret convert convert_endpoint convert_credential convert_status
    convert_proxy_config get_endpoint_from_secret endpoint_type proxy_url parse_bool lookup
    trim_newline
converted_sick = refl

-- A secret with no endpoint of its own.
abbrev pub bare_secret : Secret
bare_secret = record sample_secret { contents = ("token", some "secret") ∷ [] }

pub bare_type : endpoint_type bare_secret ≢ type_cluster_proxy
unfolding endpoint_type lookup
bare_type e = cc ((eq_iff "Const" type_cluster_proxy).1 e)

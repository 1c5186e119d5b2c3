-- ===== src/Exec/Sample.antt =====
-- A host whose command issues a token that expires, for tests.
use cluster_gateway.Base.{some, [], ◌∷◌}
use cluster_gateway.Exec.{
  ExecConfig, ExecCredential, ExecCredentialStatus, GroupVersion, finished, Host,
}

abbrev pub sample_status : ExecCredentialStatus
sample_status = record {
  expiration_timestamp = some 600000000000;
  token = "issued";
  client_certificate_data = "";
  client_key_data = "";
}

abbrev pub sample_credential : ExecCredential
sample_credential = record { status = some sample_status }

abbrev pub sample_version : GroupVersion
sample_version = record { group = "client.authentication.k8s.io"; version = "v1" }

abbrev pub sample_host : Host
sample_host = record {
  environ = "HOME=/root" ∷ [];
  look_path = λ command. finished command;
  run = λ command args env. finished "credential";
  parse_group_version = λ version. some sample_version;
  decode = λ gv out. some (sample_credential, gv);
}

abbrev pub sample_exec : ExecConfig
sample_exec = record {
  command = "issue";
  args = "--cluster" ∷ [];
  env = [];
  api_version = "client.authentication.k8s.io/v1";
}

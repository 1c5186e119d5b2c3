-- ===== src/Exec.antt =====
-- pkg/util/exec/exec.go: credentials issued by an external command, and their cache.
pub mod Fuel
pub mod Sound
pub mod Sample
mod Tests
use cluster_gateway.Base.{
  ℕ, zero, suc, ◌+◌, ◌*◌, String, Bool, true, false, not, ◌&&◌, ◌||◌, Option, none, some, List, [],
  ◌∷◌, ◌++◌, map, str_eq, nat_eq, ltb, if◌then◌else◌, ◌⧺◌, Error, other, Result, ok, err, panic,
  ◌>>=◌, ◌>>◌, deref, is_some,
}
use cluster_gateway.Base.Maps.{Map, lookup, insert, delete}
use cluster_gateway.Api.{is_blank}

pub record ExecEnvVar : Type 0 where
  pub name : String
  pub value : String

-- `clientcmdapi.ExecConfig`
pub record ExecConfig : Type 0 where
  pub command : String
  pub args : List String
  pub env : List ExecEnvVar
  pub api_version : String

-- `clientauthentication.ExecCredentialStatus`; times are in nanoseconds, and the zero time is 0
pub record ExecCredentialStatus : Type 0 where
  pub expiration_timestamp : Option ℕ
  pub token : String
  pub client_certificate_data : String
  pub client_key_data : String

pub record ExecCredential : Type 0 where
  pub status : Option ExecCredentialStatus

pub record GroupVersion : Type 0 where
  pub group : String
  pub version : String

pub data CommandError : Type 0 where
  exec_error : CommandError
  exit_error : ℕ → CommandError
  unknown_error : CommandError

pub data Ran : Type 0 where
  finished : String → Ran
  failed : CommandError → Ran

-- What is not the program's own: the operating system, and the decoding of Kubernetes objects.
pub record Host : Type 0 where
  pub environ : List String
  pub look_path : String → Ran
  pub run : String → List String → List String → Ran
  pub parse_group_version : String → Option GroupVersion
  pub decode : GroupVersion → String → Option (ExecCredential × GroupVersion)

abbrev pub Cache : Type 0
Cache = Map ExecCredential

abbrev pub minute : ℕ
minute = 60000000000

-- `t.IsZero()`
abbrev is_zero : Option ℕ → Bool
is_zero none = true
is_zero (some t) = nat_eq t 0

-- `t.Before(u)`, false on nil
abbrev before : Option ℕ → ℕ → Bool
before none u = false
before (some t) u = ltb t u

unwrap_exec_command_error : String → CommandError → Error
unwrap_exec_command_error path exec_error = other ("exec: executable not found: " ⧺ path)
unwrap_exec_command_error path (exit_error n) = other ("exec: executable failed: " ⧺ path)
unwrap_exec_command_error path unknown_error = other "exec"

abbrev ran : String → Ran → Result String
ran path (finished out) = ok out
ran path (failed e) = err (unwrap_exec_command_error path e)

abbrev check : Bool → String → Result (Unit {0})
check true message = err (other message)
check false message = ok tt

abbrev found {ℓ} : {A : Type ℓ} → Option A → String → Result A
found none message = err (other message)
found (some a) message = ok a

abbrev exec_group : String
exec_group = "client.authentication.k8s.io"

-- `apiVersions`
api_versions : Map GroupVersion
api_versions =
    ("client.authentication.k8s.io/v1beta1", record { group = exec_group; version = "v1beta1" })
    ∷ ("client.authentication.k8s.io/v1", record { group = exec_group; version = "v1" })
    ∷ []

-- The tests on the decoded credential, in order.
check_status : ExecCredential → Result ExecCredential
check_status cred = elim cred.status [
  | none ↦ err (other "exec plugin didn't return a status field")
  | some status ↦
      if is_blank status.token
        && is_blank status.client_certificate_data
        && is_blank status.client_key_data
      then err (other "exec plugin didn't return a token or cert/key pair")
      else if (is_blank status.client_certificate_data && not (is_blank status.client_key_data))
          || (not (is_blank status.client_certificate_data) && is_blank status.client_key_data)
      then err (other "exec plugin returned only certificate or key, not both")
      else ok cred
]

environment : List ExecEnvVar → List String
environment env = map (λ e. e.name ⧺ "=" ⧺ e.value) env

module _ (host : Host) where
  -- `issueClusterCredential`
  pub issue_new : Option ExecConfig → Result ExecCredential
  issue_new none = err (other "exec config not provided")
  issue_new (some ec) = do
    check (is_blank ec.command) "missing \"command\" property on exec config object"
    command ← ran ec.command (host.look_path ec.command)
    stdout ← ran command (host.run command ec.args (host.environ ++ environment ec.env))
    ecgv ← found (host.parse_group_version ec.api_version) "failed to parse exec config API version"
    gv ← found (lookup ec.api_version api_versions) "exec plugin: invalid apiVersion"
    decoded ← found (host.decode gv stdout) "decoding stdout"
    check (not (str_eq decoded.1.group ecgv.group) || not (str_eq decoded.1.version ecgv.version))
        "exec plugin is configured to use another API version"
    check_status decoded.0

  -- The test on `cred.Status` before the credential is stored.
  pub keeps : ExecCredential → Bool
  keeps cred = elim cred.status [
    | none ↦ false
    | some status ↦ not (is_zero status.expiration_timestamp)
  ]

  -- The test on a cached credential: it expires a minute early.
  pub expired : ℕ → ExecCredential → Bool
  expired now cred = elim cred.status [
    | none ↦ false
    | some status ↦ before status.expiration_timestamp (now + minute)
  ]

  -- The path of a name that is not in the cache.
  pub store_new : String → Result ExecCredential → Cache → Result ExecCredential × Cache
  store_new name (ok cred) cache = (ok cred, if keeps cred then insert name cred cache else cache)
  store_new name (err e) cache = (err e, cache)
  store_new name panic cache = (panic, cache)

  -- `IssueClusterCredential`, by fuel for the call that it makes of itself.
  pub issue : ℕ → ℕ → String → Option ExecConfig → Cache → Result ExecCredential × Cache
  issue zero now name ec cache = (panic, cache)
  issue (suc fuel) now name ec cache =
      let again = issue fuel now name ec (delete name cache) in
      if is_blank name
      then (err (other "cluster name not provided"), cache)
      else elim (lookup name cache) [
        | none ↦ store_new name (issue_new ec) cache
        | some cred ↦ if expired now cred then again else (ok cred, cache)
      ]

  -- Two rounds are enough: the first removes the entry that has expired.
  pub issue_cluster_credential :
      ℕ → String → Option ExecConfig → Cache → Result ExecCredential × Cache
  issue_cluster_credential now name ec cache = issue 2 now name ec cache

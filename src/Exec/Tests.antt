-- ===== src/Exec/Tests.antt =====
-- Credentials issued for a cluster, and found again.
use cluster_gateway.Base.{◌≡◌, refl, none, some, [], ◌∷◌, ok, Ensures, arith}
use cluster_gateway.Base.Maps.{lookup, insert, Entries}
use cluster_gateway.Exec.{
  Cache, issue_new, check_status, keeps, store_new, issue, issue_cluster_credential, environment,
  api_versions,
}
use cluster_gateway.Exec.Fuel.{issue_twice}
use cluster_gateway.Exec.Sound.{IsIssued, issue-IsIssued}
use cluster_gateway.Exec.Sample.{sample_host, sample_exec, sample_status, sample_credential}

abbrev cached : Cache
cached = ("prod", sample_credential) ∷ []

issued_prod :
    issue_cluster_credential sample_host 0 "prod" (some sample_exec) []
    ≡ (ok sample_credential, cached)
unfolding issue_cluster_credential issue issue_new check_status keeps store_new environment
    api_versions lookup insert
issued_prod = refl

issue_twice_example :
    issue_cluster_credential sample_host 1 "prod" none
      (issue_cluster_credential sample_host 0 "prod" (some sample_exec) []).1
    ≡ (
      ok sample_credential,
      (issue_cluster_credential sample_host 0 "prod" (some sample_exec) []).1,
    )
unfolding issue_cluster_credential issue issue_new check_status keeps store_new environment
    api_versions lookup insert
issue_twice_example =
    issue_twice sample_host 0 "prod" (some sample_exec) [] sample_host 1 none sample_credential
      sample_status 600000000000 refl refl refl (omega arith) (omega arith)

issue-IsIssued_example :
    Ensures IsIssued (issue sample_host 2 0 "prod" (some sample_exec) []).0
    × Entries IsIssued (issue sample_host 2 0 "prod" (some sample_exec) []).1
issue-IsIssued_example = issue-IsIssued sample_host "prod" 2 0 (some sample_exec) [] tt

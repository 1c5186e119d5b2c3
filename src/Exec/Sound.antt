-- ===== src/Exec/Sound.antt =====
-- What a caller of `IssueClusterCredential` can rely on.
use mathlib.Core.Path.{subst}
use cluster_gateway.Base.{
  ℕ, zero, suc, String, ◌≡◌, refl, ◌≢◌, ◌⊎◌, inl, inr, Option, none, some, arith, eq_iff,
  Bool-cases, Option-cases, Result, ok, err, panic, Ensures, Ensures-bind,
}
use cluster_gateway.Base.Maps.{
  lookup, delete, Entries, Entries-lookup, Entries-delete, Entries-insert,
}
use cluster_gateway.Api.{is_blank}
use cluster_gateway.Exec.{
  ExecCredential, ExecCredentialStatus, ExecConfig, Host, Cache, check_status, issue_new, keeps,
  store_new, issue, expired,
}

-- A token, or both halves of a key pair.
abbrev pub IsUsable : ExecCredentialStatus → Type 0
IsUsable s = (s.token ≢ "") ⊎ ((s.client_certificate_data ≢ "") × (s.client_key_data ≢ ""))

abbrev pub IsIssued : ExecCredential → Type 0
IsIssued cred = (s : ExecCredentialStatus) × (cred.status ≡ some s) × IsUsable s

status-IsUsable :
    (c : ExecCredential) (s : ExecCredentialStatus) {d : ExecCredential}
    → c.status ≡ some s
    → check_status c ≡ ok d
    → IsUsable s × (c ≡ d)
unfolding check_status
status-IsUsable c s e h =
    ground
      (arith, eq_iff s.token "", eq_iff s.client_certificate_data "", eq_iff s.client_key_data "")

check_status-IsIssued :
    (c : ExecCredential) {d : ExecCredential} → check_status c ≡ ok d → IsIssued d
unfolding check_status
check_status-IsIssued c h = elim (Option-cases c.status) [
  | inl e ↦ ground arith
  | inr (s, e) ↦ let (usable, same) = status-IsUsable c s e h in subst IsIssued same (s, e, usable)
]

Ensures-check_status : (c : ExecCredential) → Ensures IsIssued (check_status c)
Ensures-check_status c = record { at = λ cred h. check_status-IsIssued c h }

-- A credential that the command issues carries a token or a whole key pair.
issue_new-IsIssued : (host : Host) (ec : Option ExecConfig) → Ensures IsIssued (issue_new host ec)
unfolding issue_new
issue_new-IsIssued host none = record { at = λ cred h. cc }
issue_new-IsIssued host (some ec) = search (Ensures-bind, Ensures-check_status) depth 9

module _ (host : Host) (name : String) where
  store_new-IsIssued :
      (r : Result ExecCredential) (cache : Cache)
      → Ensures IsIssued r
      → Entries IsIssued cache
      → Entries IsIssued (store_new host name r cache).1
  unfolding store_new
  store_new-IsIssued (ok cred) cache q h = elim (Bool-cases (keeps host cred)) [
    | inl kept ↦ rw kept (Entries-insert IsIssued name cred cache (q.at cred refl) h)
    | inr not_kept ↦ rw not_kept h
  ]
  store_new-IsIssued (err e) cache q h = h
  store_new-IsIssued panic cache q h = h

  store_new-result :
      (r : Result ExecCredential) (cache : Cache) → (store_new host name r cache).0 ≡ r
  unfolding store_new
  store_new-result (ok cred) cache = refl
  store_new-result (err e) cache = refl
  store_new-result panic cache = refl

  -- Every cached credential stays usable, and every returned one is, whatever the fuel.
  pub issue-IsIssued :
      (fuel now : ℕ) (ec : Option ExecConfig) (cache : Cache)
      → Entries IsIssued cache
      → Ensures IsIssued (issue host fuel now name ec cache).0
        × Entries IsIssued (issue host fuel now name ec cache).1
  unfolding issue
  issue-IsIssued zero now ec cache h = (record { at = λ cred e. cc }, h)
  issue-IsIssued (suc fuel) now ec cache h = elim (Bool-cases (is_blank name)) [
    | inl blank ↦ rw blank (record { at = λ cred e. cc }, h)
    | inr named ↦ rw named (elim (Option-cases (lookup name cache)) [
      | inl missing ↦ rw missing (
        rw store_new-result (issue_new-IsIssued host ec),
        store_new-IsIssued (issue_new host ec) cache (issue_new-IsIssued host ec) h,
      )
      | inr (cred, hit) ↦ elim (Bool-cases (expired host now cred)) [
        | inl old ↦
            rw (hit, old)
              (issue-IsIssued fuel now ec (delete name cache)
                (Entries-delete IsIssued name cache h))
        | inr fresh ↦
            rw (hit, fresh)
              (
                record {
                  at = λ c e.
                      subst IsIssued (let same : cred ≡ c = cc e in same)
                        (Entries-lookup IsIssued name cache h hit);
                },
                h,
              )
      ]
    ])
  ]

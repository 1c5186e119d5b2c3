-- ===== src/Exec/Fuel.antt =====
-- The cache of issued credentials: when an entry is used, and that the call of itself ends.
use cluster_gateway.Base.{
  ℕ, suc, ◌+◌, ◌≤◌, ◌<◌, String, ◌≡◌, inl, inr, true, false, Option, none, some, arith, eq_iff,
  Bool-cases, Option-cases, if◌then◌else◌, Result, ok, err, panic, other, ◌∙◌,
}
use cluster_gateway.Base.Maps.{lookup, insert, delete, lookup-delete, lookup-insert}
use cluster_gateway.Api.{is_blank}
use cluster_gateway.Exec.{
  ExecCredential, ExecCredentialStatus, ExecConfig, Host, Cache, issue_new, keeps, store_new, issue,
  issue_cluster_credential, expired, minute,
}

lookup-delete_self : (name : String) (cache : Cache) → lookup name (delete name cache) ≡ none
lookup-delete_self name cache = ground (arith, lookup-delete name name cache, eq_iff name name)

lookup-insert_self :
    (name : String) (c : ExecCredential) (cache : Cache)
    → lookup name (insert name c cache) ≡ some c
lookup-insert_self name c cache = ground (arith, lookup-insert name name c cache, eq_iff name name)

module _ (host : Host) (now : ℕ) (name : String) (ec : Option ExecConfig) where
  -- A name that is not cached takes one round.
  issue_missing :
      (fuel : ℕ) (cache : Cache)
      → is_blank name ≡ false
      → lookup name cache ≡ none
      → issue host (suc fuel) now name ec cache ≡ store_new host name (issue_new host ec) cache
  unfolding issue
  issue_missing fuel cache named missing = rw (named, missing)

  issue_fresh :
      (fuel : ℕ) (cache : Cache) (cred : ExecCredential)
      → is_blank name ≡ false
      → lookup name cache ≡ some cred
      → expired host now cred ≡ false
      → issue host (suc fuel) now name ec cache ≡ (ok cred, cache)
  unfolding issue
  issue_fresh fuel cache cred named hit fresh = rw (named, hit, fresh)

  issue_again :
      (fuel : ℕ) (cache : Cache) (cred : ExecCredential)
      → is_blank name ≡ false
      → lookup name cache ≡ some cred
      → expired host now cred ≡ true
      → issue host (suc fuel) now name ec cache ≡ issue host fuel now name ec (delete name cache)
  unfolding issue
  issue_again fuel cache cred named hit old = rw (named, hit, old)

  issue_old :
      (fuel : ℕ) (cache : Cache) (cred : ExecCredential)
      → is_blank name ≡ false
      → lookup name cache ≡ some cred
      → expired host now cred ≡ true
      → issue host (suc (suc fuel)) now name ec cache
        ≡ store_new host name (issue_new host ec) (delete name cache)
  issue_old fuel cache cred named hit old =
      issue_again (suc fuel) cache cred named hit old
      ∙ issue_missing fuel (delete name cache) named (lookup-delete_self name cache)

  issue_unnamed :
      (fuel : ℕ) (cache : Cache)
      → is_blank name ≡ true
      → issue host (suc fuel) now name ec cache ≡ (err (other "cluster name not provided"), cache)
  unfolding issue
  issue_unnamed fuel cache blank = rw blank

  -- What the code does with its cache, without the call of itself.
  abbrev pub issued : Cache → Result ExecCredential × Cache
  issued cache =
      if is_blank name
      then (err (other "cluster name not provided"), cache)
      else elim (lookup name cache) [
        | none ↦ store_new host name (issue_new host ec) cache
        | some cred ↦
            if expired host now cred
            then store_new host name (issue_new host ec) (delete name cache)
            else (ok cred, cache)
      ]

  pub issue-eq-issued :
      (fuel : ℕ) (cache : Cache) → issue host (suc (suc fuel)) now name ec cache ≡ issued cache
  issue-eq-issued fuel cache = elim (Bool-cases (is_blank name)) [
    | inl blank ↦ rw blank (issue_unnamed (suc fuel) cache blank)
    | inr named ↦ elim (Option-cases (lookup name cache)) [
      | inl missing ↦ rw (named, missing) (issue_missing (suc fuel) cache named missing)
      | inr (cred, hit) ↦ elim (Bool-cases (expired host now cred)) [
        | inl old ↦ rw (named, hit, old) (issue_old fuel cache cred named hit old)
        | inr fresh ↦ rw (named, hit, fresh) (issue_fresh (suc fuel) cache cred named hit fresh)
      ]
    ]
  ]

store_new-keeps :
    (host : Host) (name : String) (r : Result ExecCredential) (cache : Cache)
    (cred : ExecCredential)
    → (store_new host name r cache).0 ≡ ok cred
    → keeps host cred ≡ true
    → lookup name (store_new host name r cache).1 ≡ some cred
unfolding store_new
store_new-keeps host name (ok c) cache cred e k = ground (arith, lookup-insert_self name c cache)
store_new-keeps host name (err e) cache cred p k = cc
store_new-keeps host name panic cache cred p k = cc

keeps_of_expiry :
    (host : Host) (cred : ExecCredential) (s : ExecCredentialStatus) (t : ℕ)
    → cred.status ≡ some s
    → s.expiration_timestamp ≡ some t
    → 0 < t
    → keeps host cred ≡ true
unfolding keeps
keeps_of_expiry host cred s t status expiry positive = ground arith

fresh_of_expiry :
    (host : Host) (now : ℕ) (cred : ExecCredential) (s : ExecCredentialStatus) (t : ℕ)
    → cred.status ≡ some s
    → s.expiration_timestamp ≡ some t
    → now + minute ≤ t
    → expired host now cred ≡ false
unfolding expired
fresh_of_expiry host now cred s t status expiry early = ground arith

module _ (host : Host) (now : ℕ) (name : String) (ec : Option ExecConfig) (cache : Cache) where
  cached_after :
      (cred : ExecCredential)
      → (issued host now name ec cache).0 ≡ ok cred
      → keeps host cred ≡ true
      → (is_blank name ≡ false) × (lookup name (issued host now name ec cache).1 ≡ some cred)
  cached_after cred e k = ground (
    arith,
    store_new-keeps host name (issue_new host ec) cache cred,
    store_new-keeps host name (issue_new host ec) (delete name cache) cred,
  )

  -- A credential that was issued or found with an expiration is found again, and the command is
  -- not run, until a minute before it expires.
  pub issue_twice :
      (host' : Host) (now' : ℕ) (ec' : Option ExecConfig) (cred : ExecCredential)
      (s : ExecCredentialStatus) (t : ℕ)
      → (issue_cluster_credential host now name ec cache).0 ≡ ok cred
      → cred.status ≡ some s
      → s.expiration_timestamp ≡ some t
      → 0 < t
      → now' + minute ≤ t
      → issue_cluster_credential host' now' name ec'
          (issue_cluster_credential host now name ec cache).1
        ≡ (ok cred, (issue_cluster_credential host now name ec cache).1)
  unfolding issue_cluster_credential
  issue_twice host' now' ec' cred s t e status expiry positive early =
      let after =
        cached_after cred (rw (issue-eq-issued host now name ec 0 cache) at e)
          (keeps_of_expiry host cred s t status expiry positive) in
      issue_fresh host' now' name ec' 1 _ cred after.0
        (rw (issue-eq-issued host now name ec 0 cache) after.1)
        (fresh_of_expiry host' now' cred s t status expiry early)

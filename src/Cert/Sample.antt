-- ===== src/Cert/Sample.antt =====
-- A store of secrets by namespace and name, for tests.
use cluster_gateway.Base.{
  String, ◌≡◌, refl, sym, ap, ◌∙◌, inl, inr, true, Option, none, some, ◌⧺◌, str_eq, eq_iff,
  if◌then◌else◌, not_found, Result, ok, err, ok-injective, Bool-cases,
}
use cluster_gateway.Base.Maps.{Map, lookup, insert, lookup-insert}
use cluster_gateway.Api.{Secret}
use cluster_gateway.Cert.{SecretApi}
use cluster_gateway.Cert.Copy.{SecretLaws}

abbrev pub Store : Type 0
Store = Map Secret

abbrev pub key : String → String → String
key namespace name = namespace ⧺ "/" ⧺ name

-- A secret is stored under its key, and read where its name is the one that is asked for.
abbrev pub read : String → Option Secret → Result Secret
read name none = err (not_found name)
read name (some t) = if str_eq t.name name then ok t else err (not_found name)

abbrev pub api : SecretApi Store
api = record {
  get = λ namespace name s. read name (lookup (key namespace name) s);
  create = λ namespace t s. (ok tt, insert (key namespace t.name) t s);
  update = λ namespace t s. (ok tt, insert (key namespace t.name) t s);
}

pub read-name :
    (name : String) (o : Option Secret) (t : Secret) → read name o ≡ ok t → t.name ≡ name
read-name name none t h = cc h
read-name name (some u) t h = elim (Bool-cases (str_eq u.name name)) [
  | inl same ↦
      let e : u ≡ t = ok-injective (rw same at h) in
      sym (ap Secret.name e) ∙ (eq_iff u.name name).0 same
  | inr other ↦ cc (rw other at h)
]

pub same_text : (s : String) → str_eq s s ≡ true
same_text s = (eq_iff s s).1 refl

stored :
    (namespace : String) (t : Secret) (s : Store)
    → read t.name (lookup (key namespace t.name) (insert (key namespace t.name) t s)) ≡ ok t
stored namespace t s =
    rw (lookup-insert (key namespace t.name) (key namespace t.name) t s)
      (rw (same_text (key namespace t.name)) (rw (same_text t.name) refl))

pub laws : SecretLaws api
laws = record {
  get-name = λ namespace name s t h. read-name name (lookup (key namespace name) s) t h;
  get-update = λ namespace t s h. stored namespace t s;
  get-create = λ namespace t s h. stored namespace t s;
  create-fresh = λ namespace t s e e' missing absent h. cc h;
}

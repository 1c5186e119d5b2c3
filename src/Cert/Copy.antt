-- ===== src/Cert/Copy.antt =====
-- What a copy leaves behind.
use cluster_gateway.Base.{
  String, ◌≡◌, refl, sym, ap, ◌∙◌, inl, inr, ◌⊎◌, true, false, Option, none, some, [], ◌∷◌, arith,
  eq_iff, str_eq, Bool-cases, Option-cases, Error, Result, ok, err, panic, ok-injective,
}
use cluster_gateway.Base.Maps.{Map, lookup, lookup-nil, insert, lookup-insert, IsMap}
use cluster_gateway.Api.{Bytes, text, value, Secret}
use cluster_gateway.Cert.{
  is_not_found, is_already_exists, is_subset, merge_entries, merge, SecretApi, copied, created,
  update_merged, copy_to, copy_from, copy_secret,
}

abbrev pub or_else : {A : Type 0} → Option A → Option A → Option A
or_else none y = y
or_else (some x) y = some x

-- `target` has, under each key, what `source` has there, or else what `before` had; a missing
-- entry is an empty one.
abbrev pub IsMerged : Map Bytes → Map Bytes → Map Bytes → Type 0
IsMerged source before target =
    (k : String)
    → text (value (lookup k target)) ≡ text (value (or_else (lookup k source) (lookup k before)))

is_subset-IsMerged : (l r : Map Bytes) → is_subset l r ≡ true → IsMerged l r r
unfolding is_subset lookup
is_subset-IsMerged [] r h k = refl
is_subset-IsMerged ((j, w) ∷ l) r h k =
    let head : text w ≡ text (value (lookup j r)) =
      ground (arith, eq_iff (text w) (text (value (lookup j r)))) in
    let tail : is_subset l r ≡ true = ground arith in
    elim (Bool-cases (str_eq j k)) [
      | inl same ↦
          let here : lookup j r ≡ lookup k r = ap (λ i. lookup i r) ((eq_iff j k).0 same) in
          rw same (ap (λ o. text (value o)) (sym here) ∙ sym head)
      | inr other ↦ rw other (is_subset-IsMerged l r tail k)
    ]

lookup-merge_entries :
    (k : String) (l r : Map Bytes)
    → IsMap l
    → lookup k (merge_entries l r) ≡ or_else (lookup k l) (lookup k r)
unfolding merge_entries lookup
lookup-merge_entries k [] r h = refl
lookup-merge_entries k ((j, w) ∷ l) r (p, h) =
    lookup-merge_entries k l (insert j w r) h ∙ ground (arith, lookup-insert j k w r, eq_iff j k)

merge-IsMerged : (l r r' : Map Bytes) → IsMap l → merge l r ≡ ok r' → IsMerged l r r'
unfolding merge lookup
merge-IsMerged [] r r' h e k = ap (λ m. text (value (lookup k m))) (sym (ok-injective e))
merge-IsMerged (x ∷ l) [] r' h e k = cc e
merge-IsMerged (x ∷ l) (y ∷ r) r' h e k =
    ap (λ m. text (value (lookup k m))) (sym (ok-injective e))
    ∙ ap (λ o. text (value o)) (lookup-merge_entries k (x ∷ l) (y ∷ r) h)

self-IsMerged : (l : Map Bytes) → IsMerged l [] l
self-IsMerged l k = elim (Option-cases (lookup k l)) [
  | inl missing ↦ rw missing (ap (λ o. text (value o)) (sym (lookup-nil {V = Bytes} k)))
  | inr (v, found) ↦ rw found refl
]

abbrev pub contents_of : Result Secret → Map Bytes
contents_of (ok s) = s.contents
contents_of (err e) = []
contents_of panic = []

module _ {S : Type 0} (api : SecretApi S) where
  -- What the client relies on: a secret that was found has the name that it was asked for, one
  -- that was stored is found, and one that was not found is not there to be created again.
  pub record SecretLaws : Type 0 where
    pub get-name :
        (namespace name : String) (s : S) (t : Secret)
        → api.get namespace name s ≡ ok t
        → t.name ≡ name
    pub get-update :
        (namespace : String) (t : Secret) (s : S)
        → (api.update namespace t s).0 ≡ ok tt
        → api.get namespace t.name (api.update namespace t s).1 ≡ ok t
    pub get-create :
        (namespace : String) (t : Secret) (s : S)
        → (api.create namespace t s).0 ≡ ok tt
        → api.get namespace t.name (api.create namespace t s).1 ≡ ok t
    pub create-fresh :
        (namespace : String) (t : Secret) (s : S) (e e' : Error)
        → api.get namespace t.name s ≡ err e
        → is_not_found e ≡ true
        → (api.create namespace t s).0 ≡ err e'
        → is_already_exists e' ≡ false

  created-ok :
      (r : Result (Unit {0}))
      → created api r ≡ ok tt
      → (r ≡ ok tt) ⊎ ((e : Error) × (r ≡ err e) × (is_already_exists e ≡ true))
  unfolding created
  created-ok (ok u) h = inl h
  created-ok (err e) h = elim (Bool-cases (is_already_exists e)) [
    | inl exists ↦ inr (e, refl, exists)
    | inr refused ↦ cc (rw refused at h)
  ]
  created-ok panic h = cc h

  module _ (laws : SecretLaws) (source : Secret) (distinct : IsMap source.contents)
      (namespace name : String) where
    -- The target is there afterwards, with the entries merged.
    abbrev pub Merged : Result Secret → S → Type 0
    Merged before s' =
        (target : Secret) × (api.get namespace name s' ≡ ok target)
        × IsMerged source.contents (contents_of before) target.contents

    update_merged-Merged :
        (target : Secret) (contents : Result (Map Bytes)) (s : S)
        → merge source.contents target.contents ≡ contents
        → target.name ≡ name
        → (update_merged api namespace target contents s).0 ≡ ok tt
        → Merged (ok target) (update_merged api namespace target contents s).1
    unfolding update_merged
    update_merged-Merged target (ok contents) s e named h =
        let stored : Secret = record target { contents = contents } in
        (
          stored,
          rw (← named) (laws.get-update namespace stored s h),
          merge-IsMerged source.contents target.contents contents distinct e,
        )
    update_merged-Merged target (err x) s e named h = cc h
    update_merged-Merged target panic s e named h = cc h

    copy_to-Merged :
        (before : Result Secret) (s : S)
        → api.get namespace name s ≡ before
        → (copy_to api source namespace name before s).0 ≡ ok tt
        → Merged before (copy_to api source namespace name before s).1
    unfolding copy_to copied
    copy_to-Merged (ok target) s e h =
        elim (Bool-cases (is_subset source.contents target.contents)) [
          | inl within ↦
              rw within (target, e, is_subset-IsMerged source.contents target.contents within)
          | inr beyond ↦ rw beyond (
              update_merged-Merged target (merge source.contents target.contents) s refl
                (laws.get-name namespace name s target e) (rw beyond at h))
        ]
    copy_to-Merged (err x) s e h = elim (Bool-cases (is_not_found x)) [
      | inl absent ↦
          let fresh = copied api source namespace name in
          rw absent (elim (created-ok (api.create namespace fresh s).0 (rw absent at h)) [
            | inl stored ↦
                (fresh, laws.get-create namespace fresh s stored, self-IsMerged source.contents)
            | inr (x', refused, exists) ↦
                cc (laws.create-fresh namespace fresh s x x' e absent refused, exists)
          ])
      | inr other ↦ cc (rw other at h)
    ]
    copy_to-Merged panic s e h = cc h

    copy_from-Merged :
        (s : S)
        → (copy_from api (ok source) namespace name s).0 ≡ ok tt
        → Merged (api.get namespace name s) (copy_from api (ok source) namespace name s).1
    unfolding copy_from
    copy_from-Merged s h = copy_to-Merged (api.get namespace name s) s refl h

  -- A copy that reports success leaves a target that has every entry of the source as it was, and
  -- under every other key what the target had before; an empty entry and none are the same. The
  -- source has distinct keys, and nobody else writes to the target meanwhile.
  pub copy_secret-Merged :
      (laws : SecretLaws) (source_namespace source_name namespace name : String) (source : Secret)
      (s : S)
      → api.get source_namespace source_name s ≡ ok source
      → IsMap source.contents
      → (copy_secret api source_namespace source_name namespace name s).0 ≡ ok tt
      → (target : Secret) × (api.get namespace name
            (copy_secret api source_namespace source_name namespace name s).1
          ≡ ok target)
        × IsMerged source.contents (contents_of (api.get namespace name s)) target.contents
  unfolding copy_secret
  copy_secret-Merged laws source_namespace source_name namespace name source s found distinct h =
      rw found (copy_from-Merged laws source distinct namespace name s (rw found at h))

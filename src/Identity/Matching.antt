-- ===== src/Identity/Matching.antt =====
-- `matchIdentity` decides a declarative reading of an exchange rule's source.
use cluster_gateway.Base.{
  String, ◌≡◌, ◌≢◌, ◌↔◌, ◌⊎◌, Bool, true, false, Option, none, some, List, [], ◌∷◌, arith, eq_iff,
}
use cluster_gateway.Api.{IdentityExchangerSource}
use cluster_gateway.Identity.{
  UserInfo, differs, contains, lacks, deny_query, deny_all, deny_groups, match_identity,
}

abbrev pub Any {ℓ} : {A : Type ℓ} → (A → Type 0) → List A → Type 0
Any P [] = ⊥
Any P (x ∷ xs) = P x ⊎ Any P xs

-- What an optional condition asks, where it is given.
abbrev pub Wants : Option String → (String → Type 0) → Type 0
Wants none P = Unit
Wants (some v) P = P v

module _ (regexp : String → String → Option Bool) where
  -- A query passes a pattern that it matches, and a pattern that does not compile.
  abbrev pub Admits : String → String → Type 0
  Admits query pattern = regexp pattern query ≢ some false

  -- Every condition of the source that is given holds of the user and the cluster.
  pub record IsMatch (src : IdentityExchangerSource) (info : UserInfo) (cluster : String)
      : Type 0 where
    pub user : Wants src.user (λ v. info.name ≡ v)
    pub group : Wants src.group (λ v. Any (λ g. g ≡ v) info.groups)
    pub uid : Wants src.uid (λ v. info.uid ≡ v)
    pub cluster_name : Wants src.cluster (λ v. cluster ≡ v)
    pub user_pattern : Wants src.user_pattern (Admits info.name)
    pub group_pattern : Wants src.group_pattern (λ p. Any (λ g. Admits g p) info.groups)
    pub cluster_pattern : Wants src.cluster_pattern (Admits cluster)

differs_iff : (o : Option String) (x : String) → (differs o x ≡ false) ↔ Wants o (λ v. x ≡ v)
unfolding differs
differs_iff none x = ground arith
differs_iff (some v) x = ground (arith, eq_iff x v)

contains_iff : (xs : List String) (v : String) → (contains xs v ≡ true) ↔ Any (λ g. g ≡ v) xs
unfolding contains
contains_iff [] v = ground arith
contains_iff (x ∷ xs) v = ground (arith, eq_iff x v, contains_iff xs v)

lacks_iff :
    (o : Option String) (xs : List String)
    → (lacks o xs ≡ false) ↔ Wants o (λ v. Any (λ g. g ≡ v) xs)
unfolding lacks
lacks_iff none xs = ground arith
lacks_iff (some v) xs = ground (arith, contains_iff xs v)

module _ (regexp : String → String → Option Bool) where
  deny_query_iff :
      (o : Option String) (q : String) → (deny_query regexp o q ≡ false) ↔ Wants o (Admits regexp q)
  unfolding deny_query
  deny_query_iff none q = ground arith
  deny_query_iff (some p) q = ground arith

  deny_all_iff :
      (p : String) (qs : List String)
      → (deny_all regexp p qs ≡ false) ↔ Any (λ g. Admits regexp g p) qs
  unfolding deny_all
  deny_all_iff p [] = ground arith
  deny_all_iff p (q ∷ qs) = ground (arith, deny_query_iff (some p) q, deny_all_iff p qs)

  deny_groups_iff :
      (o : Option String) (qs : List String)
      → (deny_groups regexp o qs ≡ false) ↔ Wants o (λ p. Any (λ g. Admits regexp g p) qs)
  unfolding deny_groups
  deny_groups_iff none qs = ground arith
  deny_groups_iff (some p) qs = deny_all_iff p qs

  match_identity_of_tests :
      (src : IdentityExchangerSource) (info : UserInfo) (cluster : String)
      → differs src.user info.name ≡ false
      → lacks src.group info.groups ≡ false
      → differs src.uid info.uid ≡ false
      → differs src.cluster cluster ≡ false
      → deny_query regexp src.user_pattern info.name ≡ false
      → deny_groups regexp src.group_pattern info.groups ≡ false
      → deny_query regexp src.cluster_pattern cluster ≡ false
      → match_identity regexp (some src) info cluster ≡ true
  unfolding match_identity
  match_identity_of_tests src info cluster a b c d e f g = ground arith

  match_identity-tests :
      (src : IdentityExchangerSource) (info : UserInfo) (cluster : String)
      → match_identity regexp (some src) info cluster ≡ true
      → (differs src.user info.name ≡ false)
        × (lacks src.group info.groups ≡ false)
        × (differs src.uid info.uid ≡ false)
        × (differs src.cluster cluster ≡ false)
        × (deny_query regexp src.user_pattern info.name ≡ false)
        × (deny_groups regexp src.group_pattern info.groups ≡ false)
        × (deny_query regexp src.cluster_pattern cluster ≡ false)
  unfolding match_identity
  match_identity-tests src info cluster h = ground arith

  -- A rule's source matches exactly when every condition that it gives holds of the user and the
  -- cluster: equal texts, the group among the user's, and patterns that admit the name, one of the
  -- groups, and the cluster. A pattern that does not compile admits everything.
  pub match_identity_iff :
      (src : IdentityExchangerSource) (info : UserInfo) (cluster : String)
      → (match_identity regexp (some src) info cluster ≡ true) ↔ IsMatch regexp src info cluster
  match_identity_iff src info cluster = (
    λ h.
        let (a, b, c, d, e, f, g) = match_identity-tests src info cluster h in
        record {
          user = (differs_iff _ _).0 a;
          group = (lacks_iff _ _).0 b;
          uid = (differs_iff _ _).0 c;
          cluster_name = (differs_iff _ _).0 d;
          user_pattern = (deny_query_iff _ _).0 e;
          group_pattern = (deny_groups_iff _ _).0 f;
          cluster_pattern = (deny_query_iff _ _).0 g;
        },
    λ m.
        match_identity_of_tests src info cluster ((differs_iff _ _).1 m.user)
          ((lacks_iff _ _).1 m.group) ((differs_iff _ _).1 m.uid)
          ((differs_iff _ _).1 m.cluster_name) ((deny_query_iff _ _).1 m.user_pattern)
          ((deny_groups_iff _ _).1 m.group_pattern) ((deny_query_iff _ _).1 m.cluster_pattern),
  )

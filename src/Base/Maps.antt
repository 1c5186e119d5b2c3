-- ===== src/Base/Maps.antt =====
-- Go's maps with text keys, as association lists read at the first entry of a key.
use Prim.Native.String.{String}
use mathlib.Core.Path.{◌≡◌, refl, subst}
use mathlib.Core.Logic.{inl, inr}
use mathlib.Core.Option.{Option, none, some}
use mathlib.Core.List.{List, [], ◌∷◌}
use native.Mathlib.Omega.{arith}
use text.Mathlib.TextEquality.{eq_iff}
use package.cluster_gateway.Base.Tests.{if◌then◌else◌, Bool-cases}
use package.cluster_gateway.Base.Text.{str_eq}

abbrev pub Map {ℓ} : Type ℓ → Type ℓ
Map V = List (String × V)

module _ {ℓ} {V : Type ℓ} where
  -- `v, ok := m[k]`
  unfoldable pub lookup : String → Map V → Option V
  lookup k [] = none
  lookup k ((j, v) ∷ m) = if str_eq j k then some v else lookup k m

  -- `delete(m, k)`
  unfoldable pub delete : String → Map V → Map V
  delete k [] = []
  delete k ((j, v) ∷ m) = let rest = delete k m in if str_eq j k then rest else (j, v) ∷ rest

  -- `m[k] = v`
  unfoldable pub insert : String → V → Map V → Map V
  insert k v [] = (k, v) ∷ []
  insert k v ((j, w) ∷ m) = if str_eq j k then (k, v) ∷ m else (j, w) ∷ insert k v m

  pub lookup-nil : (k : String) → lookup k [] ≡ none
  unfolding lookup
  lookup-nil k = refl

  pub lookup-delete :
      (k j : String) (m : Map V) → lookup j (delete k m) ≡ (if str_eq k j then none else lookup j m)
  unfolding lookup delete
  lookup-delete k j [] = ground arith
  lookup-delete k j ((i, v) ∷ m) =
      ground (arith, lookup-delete k j m, eq_iff i k, eq_iff i j, eq_iff k j)

  pub lookup-insert :
      (k j : String) (v : V) (m : Map V)
      → lookup j (insert k v m) ≡ (if str_eq k j then some v else lookup j m)
  unfolding lookup insert
  lookup-insert k j v [] = refl
  lookup-insert k j v ((i, w) ∷ m) =
      ground (arith, lookup-insert k j v m, eq_iff k j, eq_iff i k, eq_iff i j)

pub ruleset map_laws = (lookup-delete, lookup-insert)

-- A predicate on the entries of a map.
module _ {ℓ} {V : Type ℓ} (P : V → Type 0) where
  abbrev pub Entries : Map V → Type 0
  Entries [] = Unit
  Entries ((_, v) ∷ m) = P v × Entries m

  pub Entries-lookup : (k : String) (m : Map V) {v : V} → Entries m → lookup k m ≡ some v → P v
  unfolding lookup
  Entries-lookup k [] h e = cc
  Entries-lookup k ((j, w) ∷ m) {v} (p, h) e = elim (Bool-cases (str_eq j k)) [
    | inl same ↦ let first : w ≡ v = ground arith in subst P first p
    | inr other ↦ Entries-lookup k m h (rw other at e)
  ]

  pub Entries-delete : (k : String) (m : Map V) → Entries m → Entries (delete k m)
  unfolding delete
  Entries-delete k [] h = tt
  Entries-delete k ((j, w) ∷ m) (p, h) = elim (Bool-cases (str_eq j k)) [
    | inl same ↦ rw same (Entries-delete k m h)
    | inr other ↦ rw other (p, Entries-delete k m h)
  ]

  pub Entries-insert : (k : String) (v : V) (m : Map V) → P v → Entries m → Entries (insert k v m)
  unfolding insert
  Entries-insert k v [] q h = (q, tt)
  Entries-insert k v ((j, w) ∷ m) q (p, h) = elim (Bool-cases (str_eq j k)) [
    | inl same ↦ rw same (q, h)
    | inr other ↦ rw other (p, Entries-insert k v m q h)
  ]

-- The keys are distinct, as those of a Go map are.
module _ {ℓ} {V : Type ℓ} where
  abbrev pub IsMap : Map V → Type ℓ
  IsMap [] = Unit
  IsMap ((k, v) ∷ m) = (lookup k m ≡ none) × IsMap m

  pub IsMap-delete : (k : String) (m : Map V) → IsMap m → IsMap (delete k m)
  unfolding delete
  IsMap-delete k [] h = tt
  IsMap-delete k ((j, w) ∷ m) (p, h) = elim (Bool-cases (str_eq j k)) [
    | inl same ↦ rw same (IsMap-delete k m h)
    | inr other ↦ rw other (ground (arith, lookup-delete k j m), IsMap-delete k m h)
  ]

  pub IsMap-insert : (k : String) (v : V) (m : Map V) → IsMap m → IsMap (insert k v m)
  unfolding insert
  IsMap-insert k v [] h = (lookup-nil k, tt)
  IsMap-insert k v ((j, w) ∷ m) (p, h) = elim (Bool-cases (str_eq j k)) [
    | inl same ↦ rw same (rw (← (eq_iff j k).0 same) p, h)
    | inr other ↦
        rw other
          (ground (arith, lookup-insert k j v m, eq_iff j k, eq_iff k j), IsMap-insert k v m h)
  ]

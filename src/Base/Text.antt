-- ===== src/Base/Text.antt =====
-- Text: the operations of Go's package strings that the program calls, over native strings.
use Prim.Native.Char.{code}
use Prim.Native.String
use Prim.Native.String.{String, [], ◌∷◌}
use mathlib.Core.Path.{◌≡◌, refl, sym, ◌∙◌, ap₂}
use mathlib.Core.Logic.{◌⊎◌, inl, inr}
use mathlib.Core.Bool.{Bool, true, false}
use mathlib.Core.Option.{Option, none, some}
use mathlib.Core.List.{List}
use native.Mathlib.Omega.{arith}
use text.Mathlib.Text.{◌==◌}
use text.Mathlib.TextEquality.{Char-path}
use text.Mathlib.TextLemmas.{nil-append, cons-append}
use package.cluster_gateway.Base.Tests.{if◌then◌else◌, nat_eq, Bool-cases, Option-cases}

infixr 65 ◌⧺◌
abbrev pub ◌⧺◌ : String → String → String
s ⧺ t = String.◌++◌ s t

abbrev pub str_eq : String → String → Bool
str_eq s t = s == t

-- The text behind a prefix, if the text has it.
pub after : String → String → Option String
after s [] = some s
after [] (c ∷ p) = none
after (d ∷ s) (c ∷ p) = let rest = after s p in if nat_eq (code d) (code c) then rest else none

-- `strings.HasPrefix(s, p)`
unfoldable pub has_prefix : String → String → Bool
has_prefix s p = elim (after s p) [ none ↦ false | some _ ↦ true ]

-- `strings.TrimPrefix(s, p)`
unfoldable pub trim_prefix : String → String → String
trim_prefix s p = elim (after s p) [ none ↦ s | some rest ↦ rest ]

-- `strings.TrimSuffix(s, "\n")`
unfoldable pub trim_newline : String → String
trim_newline [] = []
trim_newline (c ∷ s) =
    let rest = trim_newline s in
    if s == "" then (if nat_eq (code c) 10 then [] else c ∷ []) else c ∷ rest

-- `strings.Join(parts, sep)`
unfoldable pub join : String → List String → String
join sep List.[] = ""
join sep (List.◌∷◌ x List.[]) = x
join sep (List.◌∷◌ x (List.◌∷◌ y ys)) = x ⧺ sep ⧺ join sep (List.◌∷◌ y ys)

after-append : (p s : String) → after (p ⧺ s) p ≡ some s
unfolding after
after-append [] s = rw nil-append refl
after-append (c ∷ p) s = rw cons-append (ground (arith, after-append p s))

pub trim_prefix-append : (p s : String) → trim_prefix (p ⧺ s) p ≡ s
unfolding trim_prefix
trim_prefix-append p s = ground (arith, after-append p s)

pub has_prefix-append : (p s : String) → has_prefix (p ⧺ s) p ≡ true
unfolding has_prefix
has_prefix-append p s = ground (arith, after-append p s)

-- A text that has a prefix is the prefix and what stands behind it.
after-eq : (s p : String) {rest : String} → after s p ≡ some rest → s ≡ p ⧺ rest
unfolding after
after-eq s [] {rest} e = let same : s ≡ rest = cc e in same ∙ sym (nil-append rest)
after-eq [] (c ∷ p) e = cc
after-eq (d ∷ s) (c ∷ p) {rest} e = elim (Bool-cases (nat_eq (code d) (code c))) [
  | inl same ↦
      let tail : s ≡ p ⧺ rest = after-eq s p (rw same at e) in
      let head : d ≡ c = Char-path d c (ground arith) in rw cons-append (ap₂ ◌∷◌ head tail)
  | inr other ↦ cc (rw other at e)
]

-- With the prefix or without it.
pub trim_prefix-cases :
    (s p : String)
    → ((has_prefix s p ≡ true) × (s ≡ p ⧺ trim_prefix s p))
      ⊎ ((has_prefix s p ≡ false) × (trim_prefix s p ≡ s))
unfolding has_prefix trim_prefix
trim_prefix-cases s p = elim (Option-cases (after s p)) [
  | inl e ↦ inr (rw (e, has_prefix), rw (e, trim_prefix))
  | inr (rest, e) ↦ inl (rw (e, has_prefix), rw (e, trim_prefix) (after-eq s p e))
]

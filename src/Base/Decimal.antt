-- ===== src/Base/Decimal.antt =====
-- Go's integers in decimal: `strconv.Itoa` and `strconv.Atoi` of the standard library.
pub mod RoundTrip
use Prim.Native.Char.{Char, code}
use Prim.Native.Nat.{ℕ, zero, suc, ◌+◌, ◌-◌, ◌*◌, ◌/◌, ◌%◌, ◌^◌}
use Prim.Native.String.{String, [], ◌∷◌}
use mathlib.Core.Path.{◌≡◌, refl}
use mathlib.Core.Bool.{Bool, true, false, ◌&&◌}
use mathlib.Core.Option.{Option, none, some}
use package.cluster_gateway.Base.Tests.{if◌then◌else◌, nat_eq, ltb}

-- `int`, of which the two bounds are written out where they matter
pub data ℤ : Type 0 where
  pos negsuc : ℕ → ℤ

digit : ℕ → Char
digit zero = "0"
digit (suc zero) = "1"
digit (suc (suc zero)) = "2"
digit (suc (suc (suc zero))) = "3"
digit (suc (suc (suc (suc zero)))) = "4"
digit (suc (suc (suc (suc (suc zero))))) = "5"
digit (suc (suc (suc (suc (suc (suc zero)))))) = "6"
digit (suc (suc (suc (suc (suc (suc (suc zero))))))) = "7"
digit (suc (suc (suc (suc (suc (suc (suc (suc zero)))))))) = "8"
digit _ = "9"

-- An int has at most 19 digits.
emit : ℕ → ℕ → String → String
unfolding digit
emit zero n out = out
emit (suc rounds) n out =
    let rest = emit rounds (n / 10) (digit (n % 10) ∷ out) in
    if ltb n 10 then digit (n % 10) ∷ out else rest

digits : ℕ → String
unfolding emit
digits n = emit 20 n []

-- `strconv.Itoa`
pub itoa : ℤ → String
unfolding digits
itoa (pos n) = digits n
itoa (negsuc n) = "-" ∷ digits (suc n)

scan : String → ℕ → Option ℕ
scan [] n = some n
scan (c ∷ s) n =
    let rest = scan s (n * 10 + (code c - 48)) in
    if ltb 47 (code c) && ltb (code c) 58 then rest else none

-- at least one digit
scan_all : String → Option ℕ
unfolding scan
scan_all [] = none
scan_all (c ∷ s) = scan (c ∷ s) 0

positive : Option ℕ → Option ℤ
positive none = none
positive (some n) = if ltb n (2 ^ 63) then some (pos n) else none

negative : Option ℕ → Option ℤ
negative none = none
negative (some zero) = some (pos 0)
negative (some (suc n)) = if ltb n (2 ^ 63) then some (negsuc n) else none

-- `strconv.Atoi`: a sign, and digits; neither a syntax error nor one of the range has a value
pub atoi : String → Option ℤ
unfolding scan_all positive negative
atoi [] = none
atoi (c ∷ s) =
    if nat_eq (code c) 45
    then negative (scan_all s)
    else if nat_eq (code c) 43
    then positive (scan_all s)
    else positive (scan_all (c ∷ s))

-- `==` on int64
pub int_eq : ℤ → ℤ → Bool
int_eq (pos m) (pos n) = nat_eq m n
int_eq (negsuc m) (negsuc n) = nat_eq m n
int_eq _ _ = false

negative_port : itoa (negsuc 79) ≡ "-80"
unfolding itoa digits emit digit
negative_port = refl

signed : atoi "+12" ≡ some (pos 12)
unfolding atoi scan_all scan positive
signed = refl

out_of_range : atoi "9223372036854775808" ≡ none
unfolding atoi scan_all scan positive
out_of_range = refl

-- ===== src/Base/Decimal/RoundTrip.antt =====
-- A number is read back from its decimal text.
use Prim.Native.Char.{Char, code}
use Prim.Native.Nat.{ℕ, zero, suc, ◌+◌, ◌*◌, ◌/◌, ◌%◌, ◌^◌, ◌<◌}
use Prim.Native.String.{String, [], ◌∷◌}
use mathlib.Core.Path.{◌≡◌, refl, ap, ◌∙◌}
use mathlib.Core.Logic.{inl, inr}
use mathlib.Core.Bool.{true}
use mathlib.Core.Option.{some}
use native.Mathlib.Omega.{arith}
use package.cluster_gateway.Base.Tests.{ltb, Bool-cases}
use package.cluster_gateway.Base.Decimal.{
  ℤ, pos, negsuc, digit, digits, emit, itoa, scan, scan_all, positive, negative, atoi, int_eq,
}

-- An int of 64 bits.
abbrev pub IsInt : ℤ → Type 0
IsInt (pos n) = n < 2 ^ 63
IsInt (negsuc n) = n < 2 ^ 63

code-digit : (n : ℕ) → n < 10 → code (digit n) ≡ 48 + n
unfolding digit
code-digit zero h = refl
code-digit (suc zero) h = refl
code-digit (suc (suc zero)) h = refl
code-digit (suc (suc (suc zero))) h = refl
code-digit (suc (suc (suc (suc zero)))) h = refl
code-digit (suc (suc (suc (suc (suc zero))))) h = refl
code-digit (suc (suc (suc (suc (suc (suc zero)))))) h = refl
code-digit (suc (suc (suc (suc (suc (suc (suc zero))))))) h = refl
code-digit (suc (suc (suc (suc (suc (suc (suc (suc zero)))))))) h = refl
code-digit (suc (suc (suc (suc (suc (suc (suc (suc (suc zero))))))))) h = refl
code-digit (suc (suc (suc (suc (suc (suc (suc (suc (suc (suc n)))))))))) h = absurd (omega arith)

scan-digit : (n d : ℕ) (out : String) → d < 10 → scan (digit d ∷ out) n ≡ scan out (n * 10 + d)
unfolding scan
scan-digit n d out h = let e : code (digit d) ≡ 48 + d = code-digit d h in ground arith

pow10 : ℕ → ℕ
pow10 zero = 1
pow10 (suc k) = 10 * pow10 k

positive_rounds : (rounds m : ℕ) → m < pow10 rounds → 0 < m → 0 < rounds
unfolding pow10
positive_rounds zero m h k = absurd (omega arith)
positive_rounds (suc rounds) m h k = omega arith

scan-emit :
    (rounds n : ℕ) (out : String)
    → n < pow10 rounds
    → 0 < rounds
    → scan (emit rounds n out) 0 ≡ scan out n
unfolding emit pow10
scan-emit zero n out h k = absurd (omega arith)
scan-emit (suc rounds) n out h k = elim (Bool-cases (ltb n 10)) [
  | inl last ↦ rw last (scan-digit 0 (n % 10) out (omega arith) ∙ ap (scan out) (ground arith))
  | inr more ↦
      let below : n / 10 < pow10 rounds = omega arith in
      let inner : 0 < rounds = positive_rounds rounds (n / 10) below (ground arith) in
      rw more (
        scan-emit rounds (n / 10) (digit (n % 10) ∷ out) below inner
        ∙ scan-digit (n / 10) (n % 10) out (omega arith)
        ∙ ap (scan out) (omega arith))
]

-- The first character of a number's digits is a digit.
emit-head :
    (rounds n : ℕ) (out : String)
    → 0 < rounds
    → (d : ℕ) × (tail : String) × (d < 10) × (emit rounds n out ≡ digit d ∷ tail)
unfolding emit
emit-head zero n out k = absurd (omega arith)
emit-head (suc zero) n out k = elim (Bool-cases (ltb n 10)) [
  | inl last ↦ (n % 10, out, omega arith, rw last refl)
  | inr more ↦ (n % 10, out, omega arith, rw more refl)
]
emit-head (suc (suc rounds)) n out k = elim (Bool-cases (ltb n 10)) [
  | inl last ↦ (n % 10, out, omega arith, rw last refl)
  | inr more ↦
      let (d, tail, small, e) =
        emit-head (suc rounds) (n / 10) (digit (n % 10) ∷ out) (omega arith) in
      (d, tail, small, rw more e)
]

scan_all-cons : (s : String) (c : Char) (tail : String) → s ≡ c ∷ tail → scan_all s ≡ scan s 0
unfolding scan_all
scan_all-cons s c tail e = rw e refl

-- The digits of a number are some, the first one of them is a digit, and they are read back.
digits-scan :
    (n : ℕ)
    → n < 10 ^ 19
    → (d : ℕ) × (tail : String) × (d < 10)
      × (digits n ≡ digit d ∷ tail)
      × (scan_all (digits n) ≡ some n)
unfolding digits scan pow10
digits-scan n h =
    let (d, tail, small, e) = emit-head 20 n [] (omega arith) in
    (
      d,
      tail,
      small,
      e,
      scan_all-cons (emit 20 n []) (digit d) tail e ∙ scan-emit 20 n [] (omega arith) (omega arith),
    )

atoi-digits :
    (s : String) (d : ℕ) (tail : String)
    → d < 10
    → s ≡ digit d ∷ tail
    → atoi s ≡ positive (scan_all s)
unfolding atoi
atoi-digits s d tail small e =
    let c : code (digit d) ≡ 48 + d = code-digit d small in rw e (ground arith)

positive-some : (n : ℕ) → n < 2 ^ 63 → positive (some n) ≡ some (pos n)
unfolding positive
positive-some n h = ground arith

negative-some : (n : ℕ) → n < 2 ^ 63 → negative (some (suc n)) ≡ some (negsuc n)
unfolding negative
negative-some n h = ground arith

-- An int of 64 bits is read back from its decimal text.
pub atoi-itoa : (z : ℤ) → IsInt z → atoi (itoa z) ≡ some z
unfolding itoa atoi
atoi-itoa (pos n) h =
    let (d, tail, small, e, back) = digits-scan n (omega arith) in
    atoi-digits (digits n) d tail small e ∙ ap positive back ∙ positive-some n h
atoi-itoa (negsuc n) h =
    let (d, tail, small, e, back) = digits-scan (suc n) (omega arith) in
    ap negative back ∙ negative-some n h

pub int_eq_refl : (z : ℤ) → int_eq z z ≡ true
unfolding int_eq
int_eq_refl (pos n) = ground arith
int_eq_refl (negsuc n) = ground arith

pub int_eq-eq : (y z : ℤ) → int_eq y z ≡ true → y ≡ z
unfolding int_eq
int_eq-eq (pos m) (pos n) h = ap pos (ground arith)
int_eq-eq (pos m) (negsuc n) h = cc h
int_eq-eq (negsuc m) (pos n) h = cc h
int_eq-eq (negsuc m) (negsuc n) h = ap negsuc (ground arith)

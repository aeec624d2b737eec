-- ===== src/Base/Ints.antt =====
-- Go's int, in 64 bits, with strconv.Itoa and strconv.Atoi.
use Prim.Native.Nat.{ℕ, zero, suc, ◌+◌, ◌-◌, ◌*◌, ◌/◌, ◌%◌, ◌^◌}
use mathlib.Core.Path.{◌≡◌, refl}
use mathlib.Core.Logic.{◌↔◌}
use mathlib.Core.Bool.{Bool, true, false, ◌&&◌, ◌||◌}
use mathlib.Core.Option.{Option, none, some}
use mathlib.Core.List.{[], ◌∷◌}
use native.Mathlib.Omega.{arith}
use karpenter_provider_linod.Base.Tests.{◌==◌, ltb, leb, if◌then◌else◌}
use karpenter_provider_linod.Base.Bytes.{Text}

-- `negsuc n` is -(n + 1).
pub data ℤ : Type 0 where
  pos : ℕ → ℤ
  negsuc : ℕ → ℤ

unfoldable pub int_eq : ℤ → ℤ → Bool
int_eq (pos n) (pos m) = n == m
int_eq (negsuc n) (negsuc m) = n == m
int_eq _ _ = false

pub int_eq_iff : (a b : ℤ) → (int_eq a b ≡ true) ↔ (a ≡ b)
unfolding int_eq
int_eq_iff (pos n) (pos m) = ground arith
int_eq_iff (pos n) (negsuc m) = ground arith
int_eq_iff (negsuc n) (pos m) = ground arith
int_eq_iff (negsuc n) (negsuc m) = ground arith

-- the decimal digits of `n` before `out`, in as many rounds as there are digits
digits_from : ℕ → ℕ → Text → Text
digits_from zero n out = out
digits_from (suc fuel) n out =
    let rest = digits_from fuel (n / 10) ((b'0' + n % 10) ∷ out) in
    if ltb n 10 then (b'0' + n) ∷ out else rest

-- strconv.Itoa; an int64 has at most 19 digits
unfoldable pub itoa : ℤ → Text
unfolding digits_from
itoa (pos n) = digits_from 20 n []
itoa (negsuc n) = b'-' ∷ digits_from 20 (n + 1) []

-- every byte is a digit or a minus sign
unfoldable pub is_decimal : Text → Bool
is_decimal [] = true
is_decimal (c ∷ s) = (c == b'-' || (leb b'0' c && leb c b'9')) && is_decimal s

digits_from-is_decimal :
    (fuel n : ℕ) (out : Text) → is_decimal out ≡ true → is_decimal (digits_from fuel n out) ≡ true
unfolding digits_from is_decimal
digits_from-is_decimal zero n out h = h
digits_from-is_decimal (suc fuel) n out h =
    ground (arith, h, digits_from-is_decimal fuel (n / 10) ((b'0' + n % 10) ∷ out))

pub itoa-is_decimal : (i : ℤ) → is_decimal (itoa i) ≡ true
unfolding itoa is_decimal
itoa-is_decimal (pos n) = digits_from-is_decimal 20 n [] refl
itoa-is_decimal (negsuc n) = digits_from-is_decimal 20 (n + 1) [] refl

scan : ℕ → Text → Option ℕ
scan n [] = some n
scan n (c ∷ s) =
    let rest = scan (n * 10 + (c - b'0')) s in if leb b'0' c && leb c b'9' then rest else none

scan_digits : Text → Option ℕ
unfolding scan
scan_digits [] = none
scan_digits (c ∷ s) = scan 0 (c ∷ s)

positive : Option ℕ → Option ℤ
positive none = none
positive (some n) = if ltb n (2 ^ 63) then some (pos n) else none

negative : Option ℕ → Option ℤ
negative none = none
negative (some zero) = some (pos 0)
negative (some (suc n)) = if ltb n (2 ^ 63) then some (negsuc n) else none

-- strconv.Atoi; `none` is a syntax or a range error
unfoldable pub atoi : Text → Option ℤ
unfolding scan_digits positive negative
atoi [] = none
atoi (c ∷ s) =
    if c == b'-'
    then negative (scan_digits s)
    else if c == b'+'
    then positive (scan_digits s)
    else positive (scan_digits (c ∷ s))

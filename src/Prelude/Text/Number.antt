-- ===== src/Prelude/Text/Number.antt =====
-- Decimal numbers: `str::parse::<uN>()` and `to_string()`.
use Prim.Native.Nat.{ℕ, zero, suc, ◌+◌, ◌-◌, ◌*◌, ◌/◌, ◌%◌, ◌≤◌, ◌<◌}
use mathlib.Core.Path.{◌≡◌, refl, ◌∙◌}
use mathlib.Core.Logic.{inl, inr}
use mathlib.Core.Bool.{Bool, true, false, ◌&&◌}
use mathlib.Core.Option.{Option, none, some}
use mathlib.Core.List.{List, [], ◌∷◌}
use native.Mathlib.Omega.{arith}
use zc.Prelude.Tests.{leb, ltb, ◌==◌, if◌then◌else◌, Bool-cases}
use zc.Prelude.Lists.{all}

-- `is_ascii_digit`
unfoldable pub is_digit : ℕ → Bool
is_digit b = leb b'0' b && leb b b'9'

unfoldable pub parse_digits : ℕ → List ℕ → Option ℕ
unfolding is_digit
parse_digits acc [] = some acc
parse_digits acc (b ∷ s) = if is_digit b then parse_digits (acc * 10 + (b - b'0')) s else none

at_most : ℕ → Option ℕ → Option ℕ
at_most top none = none
at_most top (some n) = if leb n top then some n else none

-- `parse` refuses the empty text and a number above `top`; it accepts a leading `+`.
unfoldable pub parse_uint : ℕ → List ℕ → Option ℕ
unfolding at_most parse_digits
parse_uint top [] = none
parse_uint top (b ∷ []) = at_most top (parse_digits 0 (b ∷ []))
parse_uint top (b ∷ c ∷ s) = at_most top (parse_digits 0 (if b == b'+' then c ∷ s else b ∷ c ∷ s))

-- `to_string`: at most `fuel` digits, the last one in front of `tail`.
decimal_from : ℕ → ℕ → List ℕ → List ℕ
decimal_from zero n tail = tail
decimal_from (suc fuel) n tail =
    let more = decimal_from fuel (n / 10) ((n % 10 + b'0') ∷ tail) in
    if ltb n 10 then (n + b'0') ∷ tail else more

-- A number has no more digits than its value plus one.
unfoldable pub decimal : ℕ → List ℕ
unfolding decimal_from
decimal n = decimal_from (suc n) n []

pub parse_uint-le : (top : ℕ) (s : List ℕ) (n : ℕ) → parse_uint top s ≡ some n → n ≤ top
unfolding parse_uint at_most
parse_uint-le top [] n h = cc
parse_uint-le top (b ∷ []) n h = ground arith
parse_uint-le top (b ∷ c ∷ s) n h = ground arith

pub parse_digits-cons :
    (q r n : ℕ) (tail : List ℕ)
    → r < 10
    → q * 10 + r ≡ n
    → parse_digits q ((r + b'0') ∷ tail) ≡ parse_digits n tail
unfolding parse_digits is_digit
parse_digits-cons q r n tail h e =
    let e' : q * 10 + (r + b'0' - b'0') ≡ n = omega arith in
    let digit : is_digit (r + b'0') ≡ true = ground arith in rw (digit, e')

parse_digits-decimal_from :
    (fuel n : ℕ) (tail : List ℕ)
    → n < fuel
    → parse_digits 0 (decimal_from fuel n tail) ≡ parse_digits n tail
unfolding decimal_from
parse_digits-decimal_from zero n tail h = absurd (omega arith)
parse_digits-decimal_from (suc fuel) n tail h = elim (Bool-cases (ltb n 10)) [
  | inl small ↦ rw small (parse_digits-cons 0 n n tail (ground arith) (omega arith))
  | inr large ↦ rw large (
      parse_digits-decimal_from fuel (n / 10) ((n % 10 + b'0') ∷ tail) (ground arith)
      ∙ parse_digits-cons (n / 10) (n % 10) n tail (omega arith) (omega arith))
]

digits_decimal_from :
    (fuel n : ℕ) (tail : List ℕ)
    → all is_digit tail ≡ true
    → all is_digit (decimal_from fuel n tail) ≡ true
unfolding decimal_from is_digit
digits_decimal_from zero n tail h = h
digits_decimal_from (suc fuel) n tail h =
    ground (arith, digits_decimal_from fuel (n / 10) ((n % 10 + b'0') ∷ tail))

-- `to_string` writes digits only.
pub decimal_digits : (n : ℕ) → all is_digit (decimal n) ≡ true
unfolding decimal
decimal_digits n = digits_decimal_from (suc n) n [] refl

unfoldable pub starts_with_byte : ℕ → List ℕ → Bool
starts_with_byte c [] = false
starts_with_byte c (b ∷ s) = b == c

lead_decimal_from :
    (fuel n : ℕ) (tail : List ℕ)
    → 0 < n
    → n < fuel
    → starts_with_byte b'0' (decimal_from fuel n tail) ≡ false
unfolding decimal_from starts_with_byte
lead_decimal_from zero n tail p h = absurd (omega arith)
lead_decimal_from (suc fuel) n tail p h =
    ground (arith, lead_decimal_from fuel (n / 10) ((n % 10 + b'0') ∷ tail))

-- The text of a positive number has no leading zero.
pub decimal_lead : (n : ℕ) → 0 < n → starts_with_byte b'0' (decimal n) ≡ false
unfolding decimal
decimal_lead n p = lead_decimal_from (suc n) n [] p (omega arith)

decimal_from-ne :
    (fuel n : ℕ) (b : ℕ) (s : List ℕ)
    → (b' : ℕ) × (s' : List ℕ) × (decimal_from fuel n (b ∷ s) ≡ b' ∷ s')
unfolding decimal_from
decimal_from-ne zero n b s = (b, s, refl)
decimal_from-ne (suc fuel) n b s = elim (Bool-cases (ltb n 10)) [
  | inl small ↦ (n + b'0', b ∷ s, rw small)
  | inr large ↦ rw large (decimal_from-ne fuel (n / 10) (n % 10 + b'0') (b ∷ s))
]

pub decimal-ne : (n : ℕ) → (b : ℕ) × (s : List ℕ) × (decimal n ≡ b ∷ s)
unfolding decimal decimal_from
decimal-ne n = elim (Bool-cases (ltb n 10)) [
  | inl small ↦ (n + b'0', [], rw small)
  | inr large ↦ rw large (decimal_from-ne n (n / 10) (n % 10 + b'0') [])
]

-- On a text of digits, `parse` is the value of the digits, up to the bound.
parse_uint_of_digits :
    (top : ℕ) (s : List ℕ) (n : ℕ)
    → all is_digit s ≡ true
    → ((b : ℕ) × (t : List ℕ) × (s ≡ b ∷ t))
    → parse_digits 0 s ≡ some n
    → n ≤ top
    → parse_uint top s ≡ some n
unfolding parse_uint is_digit
parse_uint_of_digits top [] n d (b, t, e) h le = cc
parse_uint_of_digits top (b ∷ []) n d ne h le = rw h (ground arith)
parse_uint_of_digits top (b ∷ c ∷ s) n d ne h le =
    let plain : (b == b'+') ≡ false = ground arith in rw plain (rw h (ground arith))

-- `parse` reads back what `to_string` wrote.
pub parse_uint-decimal : (top n : ℕ) → n ≤ top → parse_uint top (decimal n) ≡ some n
parse_uint-decimal top n le =
    parse_uint_of_digits top (decimal n) n (decimal_digits n) (decimal-ne n)
      (unfold decimal parse_digits in parse_digits-decimal_from (suc n) n [] (omega arith)) le

-- ===== src/IpAddr.antt =====
-- `std::net::IpAddr` as the program reads it with `parse`. An address is its four octets, or its
-- eight groups of 16 bits.
pub mod Display
pub mod Tests
use zc.Prelude.{
  ℕ, zero, suc, ◌+◌, ◌-◌, ◌*◌, Bool, true, false, not, ◌&&◌, ◌||◌, Option, none, some, List, [],
  ◌∷◌, ◌++◌, length, replicate, leb, ltb, within, ◌==◌, if◌then◌else◌,
}
use zc.Prelude.Text.{Text, is_digit, starts_with_byte}

pub data IpAddr : Type 0 where
  v4 v6 : List ℕ → IpAddr

-- A parser takes from the front of the text.
abbrev Parse : Type 0 → Type 0
Parse A = Text → Option (A × Text)

abbrev then_parse : {A B : Type 0} → Option (A × Text) → (A → Parse B) → Option (B × Text)
then_parse none next = none
then_parse (some (a, s)) next = next a s

byte_p : ℕ → Parse (Unit {0})
byte_p c [] = none
byte_p c (b ∷ s) = if b == c then some (tt, s) else none

-- `char::to_digit`; a byte that is no digit has a value above each radix.
digit_value : ℕ → ℕ
unfolding is_digit
digit_value b =
    if is_digit b
    then b - b'0'
    else if within b'a' b'f' b
    then b - b'a' + 10
    else if within b'A' b'F' b
    then b - b'A' + 10
    else 36

-- The digits in front: their number, their value and what follows them.
digits_p : ℕ → ℕ → ℕ → Text → ℕ × ℕ × Text
unfolding digit_value
digits_p radix count value [] = (count, value, [])
digits_p radix count value (b ∷ s) =
    let rest = digits_p radix (suc count) (value * radix + digit_value b) s in
    if ltb (digit_value b) radix then rest else (count, value, b ∷ s)

-- `read_number`: at most `most` digits, no value above `top`, and a leading zero only where `zeros`
-- allows it.
number_p : ℕ → ℕ → ℕ → Bool → Parse ℕ
unfolding digits_p starts_with_byte
number_p radix most top zeros s =
    let (count, value, rest) = digits_p radix 0 0 s in
    if count == 0
      || ltb most count
      || ltb top value
      || (not zeros && starts_with_byte b'0' s && ltb 1 count)
    then none
    else some (value, rest)

octet_p : Parse ℕ
unfolding number_p
octet_p = number_p 10 3 255 false

-- `read_ipv4_addr`
v4_p : Parse (List ℕ)
unfolding octet_p byte_p
v4_p s = then_parse (octet_p s) λ a s. then_parse (byte_p b'.' s) λ u s.
    then_parse (octet_p s) λ b s. then_parse (byte_p b'.' s) λ u s. then_parse (octet_p s) λ c s.
      then_parse (byte_p b'.' s) λ u s. then_parse (octet_p s) λ d s. some (a ∷ b ∷ c ∷ d ∷ [], s)

-- `read_separator`: a colon in front of every group but the first.
colon_p : Bool → Parse (Unit {0})
unfolding byte_p
colon_p true s = some (tt, s)
colon_p false s = byte_p b':' s

group_p : Bool → Parse ℕ
unfolding colon_p number_p
group_p first s = then_parse (colon_p first s) λ u s. number_p 16 4 65535 true s

-- An IPv4 address in the place of two groups.
embedded_p : Bool → ℕ → Parse (List ℕ)
unfolding colon_p v4_p
embedded_p first left s = if leb left 1 then none else then_parse (colon_p first s) λ u s. v4_p s

pairs : List ℕ → List ℕ
pairs (a ∷ b ∷ octets) = (a * 256 + b) ∷ pairs octets
pairs _ = []

-- `read_groups`: the groups, at most `left` of them, and whether an IPv4 address ends them.
groups_p : ℕ → Bool → Text → (List ℕ × Bool) × Text
unfolding embedded_p group_p pairs
groups_p zero first s = (([], false), s)
groups_p (suc left) first s = elim (embedded_p first (suc left) s) [
  | some (octets, s') ↦ ((pairs octets, true), s')
  | none ↦ elim (group_p first s) [
    | none ↦ (([], false), s)
    | some (g, s') ↦ let rest = groups_p left false s' in ((g ∷ rest.0.0, rest.0.1), rest.1)
  ]
]

-- `read_ipv6_addr`
v6_p : Parse (List ℕ)
unfolding groups_p byte_p
v6_p s =
    let head = groups_p 8 true s in
    if length head.0.0 == 8
    then some (head.0.0, head.1)
    else if head.0.1
    then none
    else then_parse (byte_p b':' head.1) λ u s. then_parse (byte_p b':' s) λ u s.
      let tail = groups_p (7 - length head.0.0) true s in
      some (head.0.0 ++ replicate (8 - length head.0.0 - length tail.0.0) 0 ++ tail.0.0, tail.1)

-- The text must be taken whole.
whole : Option (List ℕ × Text) → Option (List ℕ)
whole none = none
whole (some (a, [])) = some a
whole (some (a, b ∷ s)) = none

-- `parse::<IpAddr>()`. No text starts with an address of both forms.
unfoldable pub parse_ip : Text → Option IpAddr
unfolding v4_p v6_p whole
parse_ip s = elim (whole (v4_p s)) [
  | some a ↦ some (v4 a)
  | none ↦ elim (whole (v6_p s)) [ none ↦ none | some g ↦ some (v6 g) ]
]

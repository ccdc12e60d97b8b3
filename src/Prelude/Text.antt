-- ===== src/Prelude/Text.antt =====
-- Rust's `&str` and `&[u8]` as lists of bytes, with the operations of the standard library that
-- the program calls.
mod Utf8
mod Number
pub mod Pieces
pub mod Chars
unfoldable pub use Utf8.{decode_utf8}
unfoldable pub use Number.{is_digit, parse_digits, parse_uint, decimal, starts_with_byte}
pub use Number.{parse_uint-le, parse_uint-decimal, decimal_digits, decimal_lead, decimal-ne}
use Prim.Native.Nat.{ℕ, zero, suc, ◌+◌, ◌-◌, ◌≤◌, ◌<◌}
use Prim.Native.Char.{code}
use Prim.Native.String.{String}
use mathlib.Core.Path.{◌≡◌, refl, ap}
use mathlib.Core.Logic.{◌↔◌}
use mathlib.Core.Bool.{Bool, true, false, not, ◌&&◌, ◌||◌}
use mathlib.Core.Option.{Option, none, some}
use mathlib.Core.List.{List, [], ◌∷◌, ◌++◌, map, reverse}
use native.Mathlib.Omega.{arith}
use zc.Prelude.Tests.{leb, ◌==◌, ==_iff, ==_refl, if◌then◌else◌}
use zc.Prelude.Lists.{length, any, take, drop}

abbrev pub Text : Type 0
Text = List ℕ

-- The bytes of an ASCII literal.
abbrev pub bytes : String → Text
bytes String.[] = []
bytes (String.◌∷◌ c s) = code c ∷ bytes s

unfoldable pub text_eq : Text → Text → Bool
text_eq [] [] = true
text_eq (a ∷ s) (b ∷ t) = a == b && text_eq s t
text_eq _ _ = false

pub text_eq_iff : (s t : Text) → (text_eq s t ≡ true) ↔ (s ≡ t)
unfolding text_eq
text_eq_iff [] [] = (λ e. refl, λ e. refl)
text_eq_iff [] (b ∷ t) = (λ e. cc, λ e. cc)
text_eq_iff (a ∷ s) [] = (λ e. cc, λ e. cc)
text_eq_iff (a ∷ s) (b ∷ t) = ground (arith, text_eq_iff s t)

pub text_eq_refl : (s : Text) → text_eq s s ≡ true
text_eq_refl s = (text_eq_iff s s).1 refl

-- `[..].contains(&s)` and `matches!(s, "a" | "b")`
unfoldable pub one_of : List Text → Text → Bool
one_of ts s = any (λ t. text_eq t s) ts

-- `char::is_ascii_alphanumeric` on a byte.
unfoldable pub is_alphanumeric : ℕ → Bool
unfolding is_digit
is_alphanumeric b = is_digit b || (leb b'a' b && leb b b'z') || (leb b'A' b && leb b b'Z')

-- `to_ascii_lowercase`
unfoldable pub lower_byte : ℕ → ℕ
lower_byte b = if leb b'A' b && leb b b'Z' then b + 32 else b

unfoldable pub lowercase : Text → Text
unfolding lower_byte
lowercase = map lower_byte

unfoldable pub eq_ignore_ascii_case : Text → Text → Bool
unfolding text_eq lowercase
eq_ignore_ascii_case s t = text_eq (lowercase s) (lowercase t)

-- `split_once(c)`
unfoldable pub split_once : ℕ → Text → Option (Text × Text)
split_once c [] = none
split_once c (b ∷ s) =
    let rest = split_once c s in
    if b == c then some ([], s) else elim rest [ none ↦ none | some (x, y) ↦ some (b ∷ x, y) ]

-- `rsplit_once(c)`
unfoldable pub rsplit_once : ℕ → Text → Option (Text × Text)
rsplit_once c [] = none
rsplit_once c (b ∷ s) = elim (rsplit_once c s) [
  | some (x, y) ↦ some (b ∷ x, y)
  | none ↦ if b == c then some ([], s) else none
]

-- `split(c)`: the first piece and the others.
unfoldable pub split_pieces : ℕ → Text → Text × List Text
split_pieces c [] = ([], [])
split_pieces c (b ∷ s) =
    let rest = split_pieces c s in if b == c then ([], rest.0 ∷ rest.1) else (b ∷ rest.0, rest.1)

unfoldable pub split : ℕ → Text → List Text
unfolding split_pieces
split c s = let p = split_pieces c s in p.0 ∷ p.1

-- `split_terminator(c)`: an empty last piece is dropped.
drop_empty_last : List Text → List Text
drop_empty_last [] = []
drop_empty_last ([] ∷ []) = []
drop_empty_last (s ∷ ts) = s ∷ drop_empty_last ts

unfoldable pub split_terminator : ℕ → Text → List Text
unfolding split drop_empty_last
split_terminator c s = drop_empty_last (split c s)

unfoldable pub strip_prefix : Text → Text → Option Text
strip_prefix [] s = some s
strip_prefix (c ∷ p) [] = none
strip_prefix (c ∷ p) (b ∷ s) = let rest = strip_prefix p s in if b == c then rest else none

unfoldable pub starts_with : Text → Text → Bool
starts_with [] s = true
starts_with (c ∷ p) [] = false
starts_with (c ∷ p) (b ∷ s) = b == c && starts_with p s

unfoldable pub strip_suffix : Text → Text → Option Text
strip_suffix p [] = if text_eq p [] then some [] else none
strip_suffix p (b ∷ s) =
    let rest = strip_suffix p s in
    if text_eq p (b ∷ s) then some [] else elim rest [ none ↦ none | some t ↦ some (b ∷ t) ]

unfoldable pub ends_with : Text → Text → Bool
ends_with p [] = text_eq p []
ends_with p (b ∷ s) = text_eq p (b ∷ s) || ends_with p s

-- `contains(keyword)` of a text in a text.
unfoldable pub contains_text : Text → Text → Bool
unfolding starts_with
contains_text k [] = starts_with k []
contains_text k (b ∷ s) = starts_with k (b ∷ s) || contains_text k s

-- `trim_matches([' ', '\t'])`
trim_start : Text → Text
trim_start [] = []
trim_start (b ∷ s) = let rest = trim_start s in if b == 32 || b == 9 then rest else b ∷ s

unfoldable pub trim : Text → Text
unfolding trim_start
trim s = reverse (trim_start (reverse (trim_start s)))

-- ===== src/Prelude/Text/Utf8.antt =====
-- `str::from_utf8` and `str::chars`: the code points of a byte string, if it is valid UTF-8.
use Prim.Native.Nat.{ℕ, zero, suc, ◌+◌, ◌-◌, ◌*◌}
use mathlib.Core.Option.{Option, none, some}
use mathlib.Core.List.{List, [], ◌∷◌}
use zc.Prelude.Tests.{ltb, within, ◌==◌, if◌then◌else◌}

-- What a first byte announces: how many bytes follow, the range of the next one, and its own bits.
record Lead : Type 0 where
  more : ℕ
  low : ℕ
  high : ℕ
  bits : ℕ

lead : ℕ → Option Lead
lead b =
    if ltb b 128
    then some (record { more = 0; low = 128; high = 191; bits = b })
    else if within 194 223 b
    then some (record { more = 1; low = 128; high = 191; bits = b - 192 })
    else if b == 224
    then some (record { more = 2; low = 160; high = 191; bits = 0 })
    else if b == 237
    then some (record { more = 2; low = 128; high = 159; bits = 13 })
    else if within 225 239 b
    then some (record { more = 2; low = 128; high = 191; bits = b - 224 })
    else if b == 240
    then some (record { more = 3; low = 144; high = 191; bits = 0 })
    else if within 241 243 b
    then some (record { more = 3; low = 128; high = 191; bits = b - 240 })
    else if b == 244
    then some (record { more = 3; low = 128; high = 143; bits = 4 })
    else none

add_char : ℕ → Option (List ℕ) → Option (List ℕ)
add_char c none = none
add_char c (some cs) = some (c ∷ cs)

-- `more` bytes of the current character are still to come, the next one between `low` and `high`.
decode_from : ℕ → ℕ → ℕ → ℕ → List ℕ → Option (List ℕ)
decode_from zero low high bits [] = some []
decode_from (suc more) low high bits [] = none
decode_from zero low high bits (b ∷ rest) = elim (lead b) [
  | none ↦ none
  | some l ↦
      let cs = decode_from l.more l.low l.high l.bits rest in
      if l.more == 0 then add_char b cs else cs
]
decode_from (suc more) low high bits (b ∷ rest) =
    let char = bits * 64 + (b - 128) in
    let cs = decode_from more 128 191 char rest in
    if within low high b then (if more == 0 then add_char char cs else cs) else none

unfoldable pub decode_utf8 : List ℕ → Option (List ℕ)
unfolding decode_from lead add_char
decode_utf8 = decode_from 0 0 0 0

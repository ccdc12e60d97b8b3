-- ===== src/Prelude/Text/Chars.antt =====
-- `char::is_control`, `char::is_whitespace` and `str::trim`, on the characters of a text in UTF-8.
use Prim.Native.Nat.{ℕ}
use mathlib.Core.Bool.{Bool, true, false, ◌||◌}
use mathlib.Core.Option.{none, some}
use mathlib.Core.List.{List, [], ◌∷◌, reverse}
use zc.Prelude.Tests.{ltb, within, ◌==◌, if◌then◌else◌}
use zc.Prelude.Lists.{any}
use zc.Prelude.Text.{Text, decode_utf8, text_eq}

unfoldable pub is_control : ℕ → Bool
is_control c = ltb c 32 || within 127 159 c

-- `text.chars().any(char::is_control)`; what is no UTF-8 is no `str`.
unfoldable pub has_control : Text → Bool
unfolding is_control decode_utf8
has_control text = elim (decode_utf8 text) [ none ↦ true | some cs ↦ any is_control cs ]

-- The characters with the property White_Space.
unfoldable pub is_whitespace : ℕ → Bool
is_whitespace c =
    within 9 13 c
    || c == 32
    || c == 133
    || c == 160
    || c == 5760
    || within 8192 8202 c
    || c == 8232
    || c == 8233
    || c == 8239
    || c == 8287
    || c == 12288

drop_white : List ℕ → List ℕ
unfolding is_whitespace
drop_white [] = []
drop_white (c ∷ cs) = let rest = drop_white cs in if is_whitespace c then rest else c ∷ cs

-- `text.trim() == text`, on characters.
unfoldable pub is_trimmed : Text → Bool
unfolding drop_white decode_utf8 text_eq
is_trimmed text = elim (decode_utf8 text) [
  | none ↦ false
  | some cs ↦ text_eq (reverse (drop_white (reverse (drop_white cs)))) cs
]

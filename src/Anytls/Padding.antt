-- ===== src/Anytls/Padding.antt =====
-- `Padding` of src/anytls.rs: the scheme's text, the sizes that are drawn, and the cutting of a
-- frame group into packets.
pub mod Valid
pub mod Sizes
pub mod Lossless
use zc.Prelude.{
  ℕ, zero, suc, ◌+◌, ◌-◌, ◌*◌, ◌%◌, ◌^◌, Bool, true, false, not, ◌&&◌, ◌||◌, Option, none, some,
  List, [], ◌∷◌, ◌++◌, length, take, drop, replicate, any, is_empty, leb, ltb, within, ◌==◌,
  if◌then◌else◌, Result, ok, err, ◌>>=◌, ◌>>◌, guard, ok_or,
}
use zc.Prelude.Text.Chars.{has_control}
use zc.Prelude.Text.{
  Text, bytes, text_eq, split, split_once, split_terminator, decode_utf8, is_digit, parse_uint,
  decimal,
}
use zc.Prelude.{all}
use zc.Anytls.Io.{IoError, invalid, io_error, other}
use zc.Anytls.Frame.{append_frame}

abbrev pub max_text : ℕ
max_text = 4096

abbrev pub max_stop : ℕ
max_stop = 32

abbrev pub max_padding : ℕ
max_padding = 65536

-- `enum Step`
pub data PadStep : Type 0 where
  size : ℕ → ℕ → PadStep
  check : PadStep

abbrev pub Groups : Type 0
Groups = List (ℕ × List PadStep)

-- `groups` is a map from group numbers; its keys are different, see `Padding.parse`.
pub record Padding : Type 0 where
  pub md5 : Text
  pub stop : ℕ
  pub groups : Groups

-- A `HashMap<&str, &str>` as an association list, the last insertion first.
abbrev Fields : Type 0
Fields = List (Text × Text)

unfoldable pub get_field : Text → List (Text × Text) → Option Text
unfolding text_eq
get_field key [] = none
get_field key ((k, v) ∷ rest) = if text_eq k key then some v else get_field key rest

remove_field : Text → Fields → Fields
unfolding text_eq
remove_field key [] = []
remove_field key ((k, v) ∷ rest) =
    let others = remove_field key rest in if text_eq k key then others else (k, v) ∷ others

-- One line of `fields`.
add_field : Fields → Text → Result IoError Fields
unfolding split_once has_control get_field invalid
add_field seen line = do
  (key, value) ← ok_or invalid (split_once b'=' line)
  guard (not (is_empty key || is_empty value || has_control line || length seen == 33)) invalid
  guard (elim (get_field key seen) [ none ↦ true | some v ↦ false ]) invalid
  ok ((key, value) ∷ seen)

add_fields : Fields → List Text → Result IoError Fields
add_fields seen [] = ok seen
add_fields seen (line ∷ lines) = do seen' ← add_field seen line; add_fields seen' lines

unfoldable pub fields : Text → Result IoError (List (Text × Text))
unfolding add_fields add_field decode_utf8 split_terminator invalid
fields raw = do
  guard (not (is_empty raw || ltb max_text (length raw))) invalid
  chars ← ok_or invalid (decode_utf8 raw)
  add_fields [] (split_terminator b'\n' raw)

-- `usize` has 64 bits.
unfoldable pub number : Text → Result IoError ℕ
unfolding is_digit parse_uint invalid
number text = do
  guard (not (is_empty text) && all is_digit text) invalid
  ok_or invalid (parse_uint (2 ^ 64 - 1) text)

-- The largest size in a group: authentication stays within one TLS record.
unfoldable pub size_limit : ℕ → ℕ
size_limit group = if group == 0 then 4096 - 34 else 16384

-- One step of a group, with the overhead that the scheme has reached.
parse_step : ℕ → Text → ℕ → Result IoError (PadStep × ℕ)
unfolding number split_once size_limit text_eq invalid
parse_step group step overhead =
    if text_eq step (bytes "c") && not (group == 0) then ok (check, overhead) else do
      (low, high) ← ok_or invalid (split_once b'-' step)
      least ← number low
      most ← number high
      guard (not (least == 0 || ltb most least || ltb (size_limit group) most)) invalid
      guard (leb (overhead + (most + 7)) max_padding) invalid
      ok (size least most, overhead + (most + 7))

-- `count` is `steps.len()`.
parse_steps : ℕ → ℕ → List Text → ℕ → Result IoError (List PadStep × ℕ)
parse_steps group count [] overhead = ok ([], overhead)
parse_steps group count (step ∷ rest) overhead = do
  guard (not (count == 16)) invalid
  (s, overhead') ← parse_step group step overhead
  (ss, overhead'') ← parse_steps group (count + 1) rest overhead'
  ok (s ∷ ss, overhead'')

-- One line `key=value` of the scheme.
parse_group : ℕ → Text → Text → ℕ → Result IoError ((ℕ × List PadStep) × ℕ)
unfolding invalid
parse_group stop key value overhead = do
  group ← number key
  guard (ltb group stop && text_eq key (decimal group)) invalid
  (steps, overhead') ← parse_steps group 0 (split b',' value) overhead
  guard (not (group == 0 && not (length steps == 1))) invalid
  ok ((group, steps), overhead')

-- The loop over the fields. A `HashMap` is walked in no fixed order; here it is the list's.
parse_groups : ℕ → Fields → ℕ → Result IoError (Groups × ℕ)
parse_groups stop [] overhead = ok ([], overhead)
parse_groups stop ((key, value) ∷ rest) overhead = do
  (group, overhead') ← parse_group stop key value overhead
  (groups, overhead'') ← parse_groups stop rest overhead'
  ok (group ∷ groups, overhead'')

-- `Padding::parse`; `digest` is the hexadecimal MD5 of another crate.
unfoldable pub parse : (Text → Text) → Text → Result IoError Padding
unfolding fields number remove_field parse_groups parse_group parse_steps parse_step decimal split
    invalid
parse digest raw = do
  all_fields ← fields raw
  text ← ok_or invalid (get_field (bytes "stop") all_fields)
  stop ← number text
  guard (within 1 max_stop stop) invalid
  (groups, overhead) ← parse_groups stop (remove_field (bytes "stop") all_fields) 0
  ok (record { md5 = digest raw; stop = stop; groups = groups })

-- The words that the random source gives, one for each call of `getrandom::fill`; `none` is a failure,
-- and so is the end of the list.
abbrev pub Draws : Type 0
Draws = List (Option ℕ)

abbrev u32_max : ℕ
u32_max = 4294967295

-- The loop of `random_size`: a word at or above `bound` is thrown away.
sample : ℕ → ℕ → ℕ → Draws → Result IoError (ℕ × Draws)
unfolding io_error
sample least span bound [] = err (io_error other)
sample least span bound (none ∷ draws) = err (io_error other)
sample least span bound (some w ∷ draws) =
    let again = sample least span bound draws in
    if ltb w bound then ok (least + w % span, draws) else again

unfoldable pub random_size : ℕ → ℕ → Draws → Result IoError (ℕ × Draws)
unfolding sample
random_size least most draws =
    let span = most - least in
    if least == most then ok (least, draws) else sample least span (u32_max - u32_max % span) draws

unfoldable pub get_group : ℕ → Groups → List PadStep
get_group g [] = []
get_group g ((k, steps) ∷ rest) = if k == g then steps else get_group g rest

first_size : List PadStep → Draws → Result IoError (ℕ × Draws)
unfolding random_size
first_size (size least most ∷ rest) draws = random_size least most draws
first_size _ draws = ok (0, draws)

unfoldable pub auth_size : Padding → Draws → Result IoError (ℕ × Draws)
unfolding first_size get_group
auth_size p draws = first_size (get_group 0 p.groups) draws

-- The packet of one size step: a piece of the data, its end with a waste frame, or a waste frame.
cut : ℕ → Text → Text × Text
cut n [] = (append_frame [] 0 0 (replicate n 0), [])
cut n (b ∷ rest) =
    if ltb n (length (b ∷ rest))
    then (take n (b ∷ rest), drop n (b ∷ rest))
    else if ltb (length (b ∷ rest) + 7) n
    then (append_frame (b ∷ rest) 0 0 (replicate (n - length (b ∷ rest) - 7) 0), [])
    else (b ∷ rest, [])

-- The loop over the steps: the packets, what is left of the data, and the draws left.
cut_steps : List PadStep → Text → Draws → Result IoError (List Text × Text × Draws)
cut_steps [] rest draws = ok ([], rest, draws)
cut_steps (check ∷ steps) [] draws = ok ([], [], draws)
cut_steps (check ∷ steps) (b ∷ rest) draws = cut_steps steps (b ∷ rest) draws
cut_steps (size least most ∷ steps) rest draws = do
  (n, draws') ← random_size least most draws
  (ps, rest', draws'') ← cut_steps steps (cut n rest).1 draws'
  ok ((cut n rest).0 ∷ ps, rest', draws'')

-- What is left after the steps is the last packet.
last_packet : Text → List Text
last_packet [] = []
last_packet (b ∷ rest) = (b ∷ rest) ∷ []

unfoldable pub packets : Padding → ℕ → Text → Draws → Result IoError (List Text × Draws)
unfolding cut_steps cut random_size append_frame last_packet get_group
packets p group text draws = do
  (ps, rest, draws') ←
      cut_steps (if ltb group p.stop then get_group group p.groups else []) text draws
  ok (ps ++ last_packet rest, draws')

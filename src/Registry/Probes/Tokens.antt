-- ===== src/Registry/Probes/Tokens.antt =====
-- The tokens of src/connection/probes.rs: the one of a new number is no earlier one.
use zc.Prelude.{
  ℕ, zero, suc, ◌+◌, ◌*◌, ◌-◌, ◌/◌, ◌%◌, ◌≤◌, ◌<◌, ◌≡◌, ◌≢◌, refl, sym, ap, ◌∙◌, List, [], ◌∷◌,
  ◌++◌, length, ltb, if◌then◌else◌, arith, length-append,
}
use zc.Prelude.Text.{Text}
use zc.Registry.Probes.{hex_digit, hex_digits, hex_bytes, new_token}

hex_value : ℕ → ℕ
hex_value b = if ltb b b'a' then b - b'0' else b - b'a' + 10

-- Reads digits behind a number.
read_hex : ℕ → Text → ℕ
unfolding hex_value
read_hex n [] = n
read_hex n (b ∷ s) = read_hex (n * 16 + hex_value b) s

read_hex-append : (n : ℕ) (s t : Text) → read_hex n (s ++ t) ≡ read_hex (read_hex n s) t
unfolding read_hex
read_hex-append n [] t = refl
read_hex-append n (b ∷ s) t = read_hex-append (n * 16 + hex_value b) s t

hex_value-hex_digit : (n : ℕ) → n < 16 → hex_value (hex_digit n) ≡ n
unfolding hex_value hex_digit
hex_value-hex_digit n h = ground arith

-- `16 ^ width`
abbrev pow16 : ℕ → ℕ
pow16 zero = 1
pow16 (suc width) = 16 * pow16 width

read_hex-hex_digits : (width n : ℕ) → n < pow16 width → read_hex 0 (hex_digits width n) ≡ n
unfolding read_hex hex_digits
read_hex-hex_digits zero n h = omega (arith, h)
read_hex-hex_digits (suc width) n h =
    let low = hex_value-hex_digit (n % 16) (omega arith) in
    let high = read_hex-hex_digits width (n / 16) (omega (arith, h)) in
    read_hex-append 0 (hex_digits width (n / 16)) (hex_digit (n % 16) ∷ [])
    ∙ omega (arith, low, high)

length-hex_digits : (width n : ℕ) → length (hex_digits width n) ≡ width
unfolding hex_digits
length-hex_digits zero n = refl
length-hex_digits (suc width) n = omega (
  arith,
  length-append (hex_digits width (n / 16)) (hex_digit (n % 16) ∷ []),
  length-hex_digits width (n / 16),
)

-- Ends of the same length.
same_end : (p q s t : Text) → p ++ s ≡ q ++ t → length s ≡ length t → s ≡ t
same_end [] [] s t e h = e
same_end [] (b ∷ q) s t e h = absurd (omega (arith, h, ap length e, length-append q t))
same_end (a ∷ p) [] s t e h = absurd (omega (arith, h, ap length e, length-append p s))
same_end (a ∷ p) (b ∷ q) s t e h = same_end p q s t (cc e) h

pub new_token_number :
    (nonce nonce' : Text) (random random' : List ℕ) (k j : ℕ)
    → new_token nonce random k ≡ new_token nonce' random' j
    → k < 4294967296
    → j < 4294967296
    → k ≡ j
unfolding new_token
new_token_number nonce nonce' random random' k j e hk hj =
    sym (read_hex-hex_digits 8 k (omega (arith, hk)))
    ∙ ap (read_hex 0) (
        same_end (nonce ++ b'.' ∷ hex_bytes random) (nonce' ++ b'.' ∷ hex_bytes random')
          (hex_digits 8 k) (hex_digits 8 j) e (length-hex_digits 8 k ∙ sym (length-hex_digits 8 j)))
    ∙ read_hex-hex_digits 8 j (omega (arith, hj))

-- A token with a number that was given out.
pub record IsIssued (token : Text) (sequence : ℕ) : Type 0 where
  pub nonce : Text
  pub random : List ℕ
  pub number : ℕ
  pub given : number ≤ sequence
  pub written : token ≡ new_token nonce random number

pub IsIssued-le : (token : Text) (n m : ℕ) → n ≤ m → IsIssued token n → IsIssued token m
IsIssued-le token n m h v = record {
  nonce = v.nonce;
  random = v.random;
  number = v.number;
  given = omega (arith, h, v.given);
  written = v.written;
}

pub new_token-ne :
    (token nonce : Text) (random : List ℕ) (sequence : ℕ)
    → IsIssued token sequence
    → sequence < 4294967295
    → new_token nonce random (suc sequence) ≢ token
new_token-ne token nonce random sequence v h = λ e.
    let same =
      new_token_number nonce v.nonce random v.random (suc sequence) v.number (e ∙ v.written)
        (omega (arith, h)) (omega (arith, h, v.given)) in
    omega (arith, same, v.given)

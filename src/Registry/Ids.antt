-- ===== src/Registry/Ids.antt =====
-- Connection ids of src/connection.rs: `split_id` against the `format!` of `register`.
use zc.Prelude.{
  ℕ, ◌-◌, ◌^◌, ◌<◌, ◌≡◌, refl, ap, ◌∙◌, true, false, none, some, [], ◌∷◌, ◌++◌, length, all, ◌==◌,
  arith,
}
use zc.Prelude.Text.{
  Text, is_digit, decimal, rsplit_once, parse_uint-decimal, decimal_digits, decimal_lead,
}
use zc.Registry.State.{is_hex, check_parts, split_id, format_id}

-- What `nonce()` gives: 32 hexadecimal digits.
pub record IsNonce (nonce : Text) : Type 0 where
  pub length_32 : length nonce ≡ 32
  pub hex : all is_hex nonce ≡ true

rsplit_once-digits : (s : Text) → all is_digit s ≡ true → rsplit_once b'-' s ≡ none
unfolding rsplit_once is_digit
rsplit_once-digits [] h = refl
rsplit_once-digits (b ∷ s) h =
    let rest : rsplit_once b'-' s ≡ none = rsplit_once-digits s (ground arith) in
    let other : (b == b'-') ≡ false = ground arith in rw (rest, other) refl

rsplit_once-append :
    (n s : Text) → all is_digit s ≡ true → rsplit_once b'-' (n ++ b'-' ∷ s) ≡ some (n, s)
unfolding rsplit_once
rsplit_once-append [] s h = rw (rsplit_once-digits s h) refl
rsplit_once-append (b ∷ n) s h = rw (rsplit_once-append n s h) refl

-- The id of a connection is read back as its nonce and its sequence number, which is positive and has
-- 64 bits.
pub split_id-format_id :
    (nonce : Text) (k : ℕ)
    → IsNonce nonce
    → 0 < k
    → k < 2 ^ 64
    → split_id (format_id nonce k) ≡ some (nonce, k)
unfolding split_id format_id
split_id-format_id nonce k v p q =
    ap check_parts (rsplit_once-append nonce (decimal k) (decimal_digits k))
    ∙ (unfold check_parts in
        rw
          (
            v.length_32,
            v.hex,
            decimal_lead k p,
            decimal_digits k,
            parse_uint-decimal (2 ^ 64 - 1) k (omega arith),
          )
          refl)

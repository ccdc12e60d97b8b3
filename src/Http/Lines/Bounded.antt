-- ===== src/Http/Lines/Bounded.antt =====
-- The bounds of `http_line` and `http_header` of src/runtime.rs.
use zc.Prelude.{
  ℕ, zero, suc, ◌+◌, ◌-◌, ◌≤◌, ◌<◌, ◌≡◌, ◌≢◌, refl, sym, ap, ◌∙◌, subst, Bool, true, false, not,
  ◌&&◌, Option, none, some, [], ◌∷◌, ◌++◌, length, take, any, flat, ltb, ◌==◌, Bool-cases, inl, inr,
  length-append, append_assoc, Result, ok, err, ◌>>=◌, guard, arith,
}
use zc.Prelude.Text.{Text, text_eq, text_eq_iff, ends_with}
use zc.Frontend.{FrontError, bad_line, out_of_fuel}
use zc.Http.{crlf}
use zc.Http.Lines.{
  Chunks, push, cut_line, check_line, http_line, max_header, header_loop, http_header,
}
use zc.Http.Lines.Flat.{flatten, spec_end, line_spec, http_line-flat}
use zc.Http.Lines.Headers.{with_line}

-- A line stands first in the bytes, has a byte and is no longer than the limit.
abbrev pub LineSpec : ℕ → Text → Result FrontError (Text × Text) → Type 0
LineSpec limit text (ok (line, rest)) =
    (text ≡ line ++ rest) × (1 ≤ length line) × (length line ≤ limit)
LineSpec limit text (err e) = e ≢ out_of_fuel

abbrev IsCut : Text → Option (Text × Text) → Type 0
IsCut text none = true ≡ true
IsCut text (some (part, behind)) = (text ≡ part ++ behind) × (1 ≤ length part)

push-IsCut :
    (b : ℕ) (text : Text) (o : Option (Text × Text)) → IsCut text o → IsCut (b ∷ text) (push b o)
unfolding push
push-IsCut b text none h = refl
push-IsCut b text (some (part, behind)) h = (ap (λ t. b ∷ t) h.0, omega arith)

cut_line-IsCut : (text : Text) → IsCut text (cut_line text)
unfolding cut_line
cut_line-IsCut [] = refl
cut_line-IsCut (b ∷ s) = elim (Bool-cases (b == 10)) [
  | inl feed ↦ let same : b ≡ 10 = ground arith in rw feed (ap (λ c. c ∷ s) same, omega arith)
  | inr other ↦ rw other (push-IsCut b s (cut_line s) (cut_line-IsCut s))
]

spec_end-LineSpec :
    (limit : ℕ) (text : Text) (o : Option (Text × Text))
    → IsCut text o
    → LineSpec limit text (spec_end limit o text)
unfolding spec_end check_line
spec_end-LineSpec limit text none h = elim (Bool-cases (ltb limit (length text))) [
  | inl long ↦ rw long (λ e. cc)
  | inr short ↦ rw short (λ e. cc)
]
spec_end-LineSpec limit text (some (part, behind)) h = elim (Bool-cases (ltb limit (length part))) [
  | inl long ↦ rw long (λ e. cc)
  | inr short ↦ rw short (
      checked (ends_with crlf part && not (any (λ b. b == 13) (take (length part - 2) part)))
        (ground (arith, short)))
]
  where
    checked :
        (b : Bool)
        → length part ≤ limit
        → LineSpec limit text ((guard b bad_line >>= λ u. ok part) >>= λ line. ok (line, behind))
    checked true short = (h.0, h.1, short)
    checked false short = λ e. cc

pub http_line-LineSpec :
    (limit : ℕ) (chunks : Chunks) → LineSpec limit (flat chunks) (flatten (http_line limit chunks))
unfolding line_spec
http_line-LineSpec limit chunks =
    subst (LineSpec limit (flat chunks)) (sym (http_line-flat limit chunks)) (
      spec_end-LineSpec limit (flat chunks) (cut_line (flat chunks)) (cut_line-IsCut (flat chunks)))

-- What is read behind `header`: no more than the limit, up to an empty line, and no error but those of the lines.
abbrev pub HeaderSpec : Text → Text → Result FrontError (Text × Chunks) → Type 0
HeaderSpec header text (ok (whole, rest)) =
    (header ++ text ≡ whole ++ flat rest)
    × (length whole ≤ max_header)
    × ((front : Text) × (whole ≡ front ++ crlf))
HeaderSpec header text (err e) = e ≢ out_of_fuel

more-HeaderSpec :
    (header line text : Text) (rest : Chunks) (r : Result FrontError (Text × Chunks))
    → text ≡ line ++ flat rest
    → HeaderSpec (header ++ line) (flat rest) r
    → HeaderSpec header text r
more-HeaderSpec header line text rest (ok (whole, left)) e h =
    (ap (λ t. header ++ t) e ∙ sym (append_assoc header line (flat rest)) ∙ h.0, h.1, h.2)
more-HeaderSpec header line text rest (err e') e h = h

abbrev EnoughLines : ℕ → Type 0
EnoughLines fuel =
    (header : Text) (chunks : Chunks)
    → max_header < length header + fuel
    → length header ≤ max_header
    → HeaderSpec header (flat chunks) (header_loop fuel header chunks)

with_line-HeaderSpec :
    (fuel : ℕ) (header text : Text) (r : Result FrontError (Text × Chunks))
    → EnoughLines fuel
    → max_header < length header + suc fuel
    → length header ≤ max_header
    → LineSpec (max_header - length header) text (flatten r)
    → HeaderSpec header text (with_line fuel header r)
unfolding flatten
with_line-HeaderSpec fuel header text (err e) again enough short h = h
with_line-HeaderSpec fuel header text (ok (line, rest)) again enough short h =
    let total = length-append header line in
    let grown : max_header < length (header ++ line) + fuel = omega (arith, total, h) in
    let fits : length (header ++ line) ≤ max_header = omega (arith, total, h) in
    more-HeaderSpec header line text rest _ h.0 (elim (Bool-cases (text_eq line crlf)) [
      | inl done ↦
          rw done (refl, fits, (header, ap (λ l. header ++ l) ((text_eq_iff line crlf).0 done)))
      | inr more ↦ rw more (again (header ++ line) rest grown fits)
    ])

-- `fuel` lines are enough where every line has a byte.
header_loop-HeaderSpec : (fuel : ℕ) → EnoughLines fuel
unfolding header_loop
header_loop-HeaderSpec zero header chunks enough short = absurd (omega arith)
header_loop-HeaderSpec (suc fuel) header chunks enough short =
    with_line-HeaderSpec fuel header (flat chunks) (http_line (max_header - length header) chunks)
      (header_loop-HeaderSpec fuel) enough short
      (http_line-LineSpec (max_header - length header) chunks)

-- The loop of `http_header` ends on every reader: with the first bytes of it, at most 16384 of them, which end
-- with CRLF, and the rest left in the reader; or with an error of one of its lines.
pub http_header-HeaderSpec : (chunks : Chunks) → HeaderSpec [] (flat chunks) (http_header chunks)
unfolding http_header
http_header-HeaderSpec chunks =
    header_loop-HeaderSpec (suc max_header) [] chunks (omega arith) (omega arith)

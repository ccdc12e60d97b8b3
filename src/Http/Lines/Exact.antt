-- ===== src/Http/Lines/Exact.antt =====
-- The lines and headers that `http_line` and `http_header` of src/runtime.rs take, as a grammar.
use zc.Prelude.{
  ℕ, zero, suc, ◌-◌, ◌≡◌, refl, sym, ap, ◌∙◌, subst, false, not, ◌&&◌, Option, none, some, [], ◌∷◌,
  ◌++◌, length, take, any, flat, ltb, ◌==◌, is_some, if-cases, inl, inr, append_assoc, Result, ok,
  err, guard, ok_injective, >>=-eq-ok, arith,
}
use zc.Prelude.Text.{Text, text_eq, text_eq_iff, ends_with}
use zc.Frontend.{FrontError, bad_line}
use zc.Http.{crlf}
use zc.Http.Lines.{
  Chunks, push, cut_line, check_line, http_line, max_header, header_loop, http_header,
}
use zc.Http.Lines.Flat.{flatten, spec_end, line_spec, http_line-flat, cut_line-some, before_text}

-- One line, within the limit and in the form that HTTP asks for.
abbrev pub IsLine : ℕ → Text → Type 0
IsLine limit line =
    (cut_line line ≡ some (line, []))
    × (ltb limit (length line) ≡ false)
    × (check_line line ≡ ok line)

push-eq :
    (b : ℕ) (o : Option (Text × Text)) {part behind : Text}
    → push b o ≡ some (part, behind)
    → (p : Text) × (o ≡ some (p, behind)) × (part ≡ b ∷ p)
unfolding push
push-eq b none h = cc
push-eq b (some (x, y)) h = (x, cc h, cc h)

-- What is cut off is a line of its own.
cut_line-cut :
    (text part behind : Text)
    → cut_line text ≡ some (part, behind)
    → (cut_line part ≡ some (part, [])) × (text ≡ part ++ behind)
unfolding cut_line
cut_line-cut [] part behind h = cc
cut_line-cut (b ∷ s) part behind h = elim (if-cases (b == 10) h) [
  | inl (feed, e) ↦
      let whole : 10 ∷ [] ≡ part = cc e in
      let rest : s ≡ behind = cc e in
      let same : b ≡ 10 = ground (arith, feed) in
      (subst (λ p. cut_line p ≡ some (p, [])) whole refl, cc (whole, rest, same))
  | inr (other, e) ↦
      let (p, h', whole) = push-eq b (cut_line s) e in
      let (again, parts) = cut_line-cut s p behind h' in
      (
        subst (λ q. cut_line q ≡ some (q, [])) (sym whole)
            (rw other (unfold push in rw again refl)),
        ap (λ t. b ∷ t) parts ∙ ap (λ q. q ++ behind) (sym whole),
      )
]

check_line-eq : (line : Text) {l : Text} → check_line line ≡ ok l → line ≡ l
unfolding check_line
check_line-eq line h =
    ok_injective
      (>>=-eq-ok
        (guard (ends_with crlf line && not (any (λ b. b == 13) (take (length line - 2) line)))
          bad_line)
        _ h).2

spec_end-ok :
    (limit : ℕ) (o : Option (Text × Text)) (text : Text) {line behind : Text}
    → spec_end limit o text ≡ ok (line, behind)
    → (o ≡ some (line, behind)) × (ltb limit (length line) ≡ false) × (check_line line ≡ ok line)
unfolding spec_end
spec_end-ok limit none text h = elim (if-cases (ltb limit (length text)) h) [
  | inl (long, e) ↦ cc
  | inr (short, e) ↦ cc
]
spec_end-ok limit (some (part, behind)) text {line} {behind = b} h =
    elim (if-cases (ltb limit (length part)) h) [
      | inl (long, e) ↦ cc
      | inr (short, e) ↦
          let (l, checks, returns) = >>=-eq-ok (check_line part) _ e in
          let same : part ≡ l = check_line-eq part checks in
          let line_is : l ≡ line = cc returns in
          let rest_is : behind ≡ b = cc returns in
          (
            cc (same, line_is, rest_is),
            ap (λ x. ltb limit (length x)) (sym (same ∙ line_is)) ∙ short,
            ap check_line (sym (same ∙ line_is)) ∙ checks ∙ ap ok line_is,
          )
    ]

unflatten :
    (r : Result FrontError (Text × Chunks)) {line behind : Text}
    → flatten r ≡ ok (line, behind)
    → (rest : Chunks) × (r ≡ ok (line, rest)) × (flat rest ≡ behind)
unfolding flatten
unflatten (ok (l, rest)) h = (rest, ap (λ x. ok (x, rest)) (cc h), cc h)
unflatten (err e) h = cc

pub http_line-IsLine :
    (limit : ℕ) (chunks rest : Chunks) (line : Text)
    → http_line limit chunks ≡ ok (line, rest)
    → IsLine limit line × (flat chunks ≡ line ++ flat rest)
unfolding flatten line_spec
http_line-IsLine limit chunks rest line h =
    let (cuts, short, checks) =
      spec_end-ok limit (cut_line (flat chunks)) (flat chunks)
        (sym (http_line-flat limit chunks) ∙ ap flatten h) in
    let (own, parts) = cut_line-cut (flat chunks) line (flat rest) cuts in
    ((own, short, checks), parts)

-- Where a line comes first it is read, whatever follows it.
pub IsLine-http_line :
    (limit : ℕ) (chunks : Chunks) (line more : Text)
    → IsLine limit line
    → flat chunks ≡ line ++ more
    → (rest : Chunks) × (http_line limit chunks ≡ ok (line, rest)) × (flat rest ≡ more)
unfolding line_spec spec_end
IsLine-http_line limit chunks line more (own, short, checks) h =
    let cuts : cut_line (line ++ more) ≡ some (line, more) =
      cut_line-some line more (ap is_some own) ∙ ap (λ o. before_text o more) own in
    unflatten (http_line limit chunks)
      (http_line-flat limit chunks ∙ ap (line_spec limit) h ∙ rw (cuts, short, checks) refl)

-- The lines of a header behind `header`, at most `fuel` of them, up to the empty line.
pub data IsLines : ℕ → Text → Text → Type 0 where
  last_line :
      (fuel : ℕ) (header : Text)
      → IsLine (max_header - length header) crlf
      → IsLines (suc fuel) header crlf
  first_line :
      (fuel : ℕ) (header line lines : Text)
      → IsLine (max_header - length header) line
      → text_eq line crlf ≡ false
      → IsLines fuel (header ++ line) lines
      → IsLines (suc fuel) header (line ++ lines)

abbrev pub IsHeader : Text → Type 0
IsHeader text = IsLines (suc max_header) [] text

header_loop-IsLines :
    (fuel : ℕ) (header whole : Text) (chunks rest : Chunks)
    → header_loop fuel header chunks ≡ ok (whole, rest)
    → (lines : Text) × IsLines fuel header lines
      × (whole ≡ header ++ lines)
      × (flat chunks ≡ lines ++ flat rest)
unfolding header_loop
header_loop-IsLines zero header whole chunks rest h = cc
header_loop-IsLines (suc fuel) header whole chunks rest h =
    let ((line, behind), reads, goes) =
      >>=-eq-ok (http_line (max_header - length header) chunks) _ h in
    let (is_line, parts) = http_line-IsLine (max_header - length header) chunks behind line reads in
    elim (if-cases (text_eq line crlf) goes) [
      | inl (blank, e) ↦
          let same : line ≡ crlf = (text_eq_iff line crlf).0 blank in
          let ends = ok_injective e in
          (
            line,
            subst (IsLines (suc fuel) header) (sym same)
                (last_line fuel header (subst (IsLine (max_header - length header)) same is_line)),
            sym (ap (λ p. p.0) ends),
            parts ∙ ap (λ p. line ++ flat p.1) ends,
          )
      | inr (other, e) ↦
          let (lines, valid, joins, after) =
            header_loop-IsLines fuel (header ++ line) whole behind rest e in
          (
            line ++ lines,
            first_line fuel header line lines is_line other valid,
            joins ∙ append_assoc header line lines,
            parts ∙ ap (λ t. line ++ t) after ∙ sym (append_assoc line lines (flat rest)),
          )
    ]

IsLines-header_loop :
    (fuel : ℕ) (header lines more : Text) (chunks : Chunks)
    → IsLines fuel header lines
    → flat chunks ≡ lines ++ more
    → (rest : Chunks) × (header_loop fuel header chunks ≡ ok (header ++ lines, rest))
      × (flat rest ≡ more)
unfolding header_loop
IsLines-header_loop _ _ _ more chunks (last_line fuel header is_line) h =
    let (rest, reads, after) =
      IsLine-http_line (max_header - length header) chunks crlf more is_line h in
    (rest, rw reads refl, after)
IsLines-header_loop _ _ _ more chunks (first_line fuel header line lines is_line other valid) h =
    let (behind, reads, after) =
      IsLine-http_line (max_header - length header) chunks line (lines ++ more) is_line
        (h ∙ append_assoc line lines more) in
    let (rest, again, left) =
      IsLines-header_loop fuel (header ++ line) lines more behind valid after in
    (
      rest,
      rw (reads, other) (again ∙ ap (λ t. ok (t, rest)) (append_assoc header line lines)),
      left,
    )

pub http_header-IsHeader :
    (chunks rest : Chunks) (whole : Text)
    → http_header chunks ≡ ok (whole, rest)
    → IsHeader whole × (flat chunks ≡ whole ++ flat rest)
unfolding http_header
http_header-IsHeader chunks rest whole h =
    let (lines, valid, same, parts) = header_loop-IsLines (suc max_header) [] whole chunks rest h in
    (subst IsHeader (sym same) valid, parts ∙ ap (λ t. t ++ flat rest) (sym same))

-- Where a header comes first it is read, whatever follows it.
pub IsHeader-http_header :
    (chunks : Chunks) (whole more : Text)
    → IsHeader whole
    → flat chunks ≡ whole ++ more
    → (rest : Chunks) × (http_header chunks ≡ ok (whole, rest)) × (flat rest ≡ more)
unfolding http_header
IsHeader-http_header chunks whole more valid h =
    IsLines-header_loop (suc max_header) [] whole more chunks valid h

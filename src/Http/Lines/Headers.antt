-- ===== src/Http/Lines/Headers.antt =====
-- The headers that `http_header` of src/runtime.rs reads.
use zc.Prelude.{
  ℕ, zero, suc, ◌-◌, ◌≡◌, refl, sym, ap, ◌∙◌, subst, [], ◌++◌, length, flat, if◌then◌else◌,
  Bool-cases, inl, inr, Result, ok, err, ◌>>=◌, ok_injective,
}
use zc.Prelude.Text.{Text, text_eq}
use zc.Frontend.{FrontError}
use zc.Http.{crlf}
use zc.Http.Lines.{Chunks, http_line, max_header, header_loop, http_header}
use zc.Http.Lines.Flat.{flatten, line_spec, http_line-flat}

-- What a header's loop does with a line.
abbrev pub with_line :
    ℕ → Text → Result FrontError (Text × Chunks) → Result FrontError (Text × Chunks)
with_line fuel header r = r >>= λ (line, rest).
    let more = header_loop fuel (header ++ line) rest in
    if text_eq line crlf then ok (header ++ line, rest) else more

abbrev SameHeaders : ℕ → Type 0
SameHeaders fuel =
    (header : Text) (chunks chunks' : Chunks)
    → flat chunks ≡ flat chunks'
    → flatten (header_loop fuel header chunks) ≡ flatten (header_loop fuel header chunks')

same_with_line :
    (fuel : ℕ) (header : Text) (r r' : Result FrontError (Text × Chunks))
    → SameHeaders fuel
    → flatten r ≡ flatten r'
    → flatten (with_line fuel header r) ≡ flatten (with_line fuel header r')
unfolding flatten
same_with_line fuel header (ok (line, rest)) (ok (line', rest')) again h =
    let both = ok_injective h in
    let same : line ≡ line' = ap (λ p. p.0) both in
    let bytes : flat rest ≡ flat rest' = ap (λ p. p.1) both in
    let later = again (header ++ line) rest rest' bytes in
    subst
      (λ l.
        flatten (with_line fuel header (ok (line, rest)))
        ≡ flatten (with_line fuel header (ok (l, rest'))))
      same
      (elim (Bool-cases (text_eq line crlf)) [
        | inl done ↦ rw done (ap (λ b. ok (header ++ line, b)) bytes)
        | inr more ↦ rw more later
      ])
same_with_line fuel header (ok (line, rest)) (err e') again h = cc
same_with_line fuel header (err e) (ok (line', rest')) again h = cc
same_with_line fuel header (err e) (err e') again h = h

-- Two readers of the same bytes: the lines agree, and so do the headers.
same_headers : (fuel : ℕ) → SameHeaders fuel
unfolding header_loop
same_headers zero header chunks chunks' h = refl
same_headers (suc fuel) header chunks chunks' h =
    let limit : ℕ = max_header - length header in
    same_with_line fuel header (http_line limit chunks) (http_line limit chunks')
      (same_headers fuel)
      (http_line-flat limit chunks ∙ ap (line_spec limit) h ∙ sym (http_line-flat limit chunks'))

-- For two readers of the same bytes, however each cuts them into chunks, `http_header` gives the same header and leaves
-- the same bytes, or fails with the same error.
pub http_header-flat :
    (chunks chunks' : Chunks)
    → flat chunks ≡ flat chunks'
    → flatten (http_header chunks) ≡ flatten (http_header chunks')
unfolding http_header
http_header-flat chunks chunks' h = same_headers (suc max_header) [] chunks chunks' h

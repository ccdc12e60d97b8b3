-- ===== src/Http/Chunked/Grammar.antt =====
-- Chunked bodies, as `copy_chunked` of src/runtime.rs reads them.
use zc.Prelude.{
  ℕ, suc, ◌+◌, ◌≤◌, ◌≡◌, sym, ap, ◌∙◌, subst, true, ◌&&◌, some, List, ◌++◌, length, flat, All,
  append_assoc, ok, take, all, within, ◌-◌, arith,
}
use zc.Prelude.Text.{Text}
use zc.Http.{crlf}
use zc.Http.Names.{validate_trailer}
use zc.Http.Lines.{Chunks}
use zc.Http.Lines.Exact.{IsLine, IsHeader}
use zc.Http.Chunked.{Calls, first_is_hexdigit}

-- What the reads of tokio document: they give the next bytes.
pub record Documented (calls : Calls) : Type 0 where
  pub copied :
      (n : ℕ) (chunks : Chunks) → (rest : Text) × (flat chunks ≡ (calls.copy n chunks).0 ++ rest)
  pub copied_all :
      (n : ℕ) (chunks rest : Chunks)
      → (calls.copy n chunks).1 ≡ some rest
      → flat chunks ≡ (calls.copy n chunks).0 ++ flat rest
  pub read :
      (n : ℕ) (chunks rest : Chunks) (text : Text)
      → calls.read_exact n chunks ≡ some (text, rest)
      → flat chunks ≡ text ++ flat rest

-- A line with a size, as the parser of another crate reads it.
abbrev pub IsSize : Calls → Text → ℕ → Type 0
IsSize calls line size =
    IsLine 4096 line
    × ((first_is_hexdigit line && all (within 32 126) (take (length line - 2) line)) ≡ true)
    × (calls.parse_chunk_size line ≡ some (length line, size))

-- The lines of a header, with permitted names only.
abbrev pub IsTrailers : Calls → Text → Type 0
IsTrailers calls trailers =
    IsHeader trailers
    × ((names : List Text) × (calls.parse_headers trailers ≡ some names)
        × All (λ name. validate_trailer name ≡ ok tt) names)

-- A chunked body, the number of its chunks and the length of its payload.
pub data IsChunked (calls : Calls) : ℕ → ℕ → Text → Type 0 where
  last :
      (line trailers : Text)
      → IsSize calls line 0
      → IsTrailers calls trailers
      → IsChunked calls 1 0 (line ++ trailers)
  chunk :
      (n size : ℕ) (line body more : Text)
      → IsSize calls line (length body)
      → 1 ≤ length body
      → IsChunked calls n size more
      → IsChunked calls (suc n) (length body + size) (line ++ (body ++ (crlf ++ more)))

abbrev pub IsData : Text → ℕ → Text → Type 0
IsData line size out = (body : Text) × (out ≡ line ++ (body ++ crlf)) × (length body ≡ size)

abbrev pub IsLast : Calls → Text → Text → Type 0
IsLast calls line out = (trailers : Text) × (out ≡ line ++ trailers) × IsTrailers calls trailers

-- A chunked body of at most `fuel` chunks whose payload fits in what the limit leaves.
abbrev pub IsBody : Calls → ℕ → ℕ → ℕ → Text → Type 0
IsBody calls limit fuel total out =
    (n : ℕ) × (size : ℕ) × IsChunked calls n size out × (n ≤ fuel) × (total + size ≤ limit)

pub last-IsBody :
    (calls : Calls) (limit fuel total size : ℕ) (line out : Text)
    → total ≤ limit
    → size ≡ 0
    → IsSize calls line size
    → IsLast calls line out
    → IsBody calls limit (suc fuel) total out
last-IsBody calls limit fuel total size line out short none_left parsed (trailers, written, valid) =
    (
      1,
      0,
      subst (IsChunked calls 1 0) (sym written)
          (last line trailers (subst (IsSize calls line) none_left parsed) valid),
      omega arith,
      omega arith,
    )

pub next-IsBody :
    (calls : Calls) (limit fuel total size sum : ℕ) (line out more : Text)
    → 1 ≤ size
    → sum ≡ total + size
    → IsSize calls line size
    → IsData line size out
    → IsBody calls limit fuel sum more
    → IsBody calls limit (suc fuel) total (out ++ more)
next-IsBody calls limit fuel total size sum line out more positive added parsed
      (body, written, whole) (n, behind, chunks, few, fits) =
    (
      suc n,
      length body + behind,
      subst (IsChunked calls (suc n) (length body + behind))
          (sym (
            ap (λ o. o ++ more) written
            ∙ append_assoc line (body ++ crlf) more
            ∙ ap (λ t. line ++ t) (append_assoc body crlf more)))
          (chunk n behind line body more (subst (IsSize calls line) (sym whole) parsed)
            (omega (arith, whole)) chunks),
      omega (arith, few),
      omega (arith, added, fits, whole),
    )

-- ===== src/Http/Lines.antt =====
-- `http_line` and `http_header` of src/runtime.rs: lines from a reader that gives its bytes in chunks.
pub mod Flat
pub mod Headers
pub mod Bounded
pub mod Exact
use zc.Prelude.{
  ℕ, zero, suc, ◌+◌, ◌-◌, ◌≤◌, ◌<◌, ◌≡◌, refl, sym, ap, ◌∙◌, subst, Bool, true, false, not, ◌&&◌,
  ◌||◌, Option, none, some, List, [], ◌∷◌, ◌++◌, length, take, drop, any, flat, is_empty, ltb, ◌==◌,
  is_some, if◌then◌else◌, if-cases, Bool-cases, inl, inr, length-append, append-nil, append_assoc,
  Result, ok, err, ◌>>=◌, ◌>>◌, guard, arith,
}
use zc.Prelude.Text.{Text, text_eq, ends_with}
use zc.Frontend.{FrontError, too_long, bad_line, unexpected_eof, out_of_fuel}
use zc.Http.{crlf}

-- The bytes to come, as `fill_buf` gives them; an empty chunk is a buffer that was used up.
abbrev pub Chunks : Type 0
Chunks = List Text

unfoldable pub push : ℕ → Option (Text × Text) → Option (Text × Text)
push b none = none
push b (some (x, y)) = some (b ∷ x, y)

-- What stands before the first line feed, with it, and the rest.
unfoldable pub cut_line : Text → Option (Text × Text)
unfolding push
cut_line [] = none
cut_line (b ∷ s) = let rest = cut_line s in if b == 10 then some (10 ∷ [], s) else push b rest

-- `HTTP requires CRLF`
unfoldable pub check_line : Text → Result FrontError Text
unfolding ends_with text_eq
check_line line = do
  guard (ends_with crlf line && not (any (λ b. b == 13) (take (length line - 2) line))) bad_line
  ok line

-- A line is complete: `consume` keeps what follows it in the buffer.
unfoldable pub end_line : ℕ → Text → Text → Text → Chunks → Result FrontError (Text × Chunks)
unfolding check_line
end_line limit line part behind chunks = do
  guard (not (ltb limit (length (line ++ part)))) too_long
  whole ← check_line (line ++ part)
  ok (whole, behind ∷ chunks)

unfoldable pub next_line :
    Option (Text × Text)
    → ℕ
    → Text
    → Text
    → Chunks
    → Result FrontError (Text × Chunks)
    → Result FrontError (Text × Chunks)
unfolding end_line
next_line (some (part, behind)) limit line chunk chunks more =
    end_line limit line part behind chunks
next_line none limit line chunk chunks more =
    if ltb limit (length (line ++ chunk)) then err too_long else more

-- The loop of `http_line`; `line` is read.
unfoldable pub line_loop : ℕ → Text → Chunks → Result FrontError (Text × Chunks)
unfolding cut_line next_line
line_loop limit line [] = err unexpected_eof
line_loop limit line ([] ∷ chunks) = line_loop limit line chunks
line_loop limit line ((b ∷ s) ∷ chunks) =
    next_line (cut_line (b ∷ s)) limit line (b ∷ s) chunks (line_loop limit (line ++ b ∷ s) chunks)

unfoldable pub http_line : ℕ → Chunks → Result FrontError (Text × Chunks)
unfolding line_loop
http_line limit chunks = line_loop limit [] chunks

abbrev pub max_header : ℕ
max_header = 16384

-- The loop of `http_header`, at most `fuel` lines of it.
unfoldable pub header_loop : ℕ → Text → Chunks → Result FrontError (Text × Chunks)
unfolding http_line text_eq
header_loop zero header chunks = err out_of_fuel
header_loop (suc fuel) header chunks =
    http_line (max_header - length header) chunks >>= λ (line, rest).
    let more = header_loop fuel (header ++ line) rest in
    if text_eq line crlf then ok (header ++ line, rest) else more

-- Each line has a byte, so that no header has more lines than it may have bytes.
unfoldable pub http_header : Chunks → Result FrontError (Text × Chunks)
unfolding header_loop
http_header chunks = header_loop (suc max_header) [] chunks

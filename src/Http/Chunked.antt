-- ===== src/Http/Chunked.antt =====
-- `copy_chunked` of src/runtime.rs: its checks of size lines and trailers. `Copy` holds its loop.
pub mod Copy
pub mod Grammar
pub mod Checks
pub mod Copied
pub mod Complete
pub mod Tests
use zc.Prelude.{
  ℕ, ◌+◌, ◌-◌, ◌^◌, Bool, false, not, ◌&&◌, ◌||◌, Option, none, some, List, [], ◌∷◌, length, take,
  all, ltb, within, ◌==◌, Result, ok, err, ◌>>=◌, ◌>>◌, guard, ok_or,
}
use zc.Prelude.Text.{Text}
use zc.Frontend.{FrontError, too_long, bad_framing, bad_field}
use zc.Http.Names.{validate_trailer}
use zc.Http.Lines.{Chunks}

-- What the function calls: httparse's parsers, and tokio's copy and exact read.
pub record Calls : Type 0 where
  -- The length of the size line and the size, when the line is complete.
  pub parse_chunk_size : Text → Option (ℕ × ℕ)
  -- The names of the fields, when they are complete.
  pub parse_headers : Text → Option (List Text)
  -- `copy(&mut reader.take(length), writer)`: what it wrote, and the reader behind it unless it failed.
  pub copy : ℕ → Chunks → Text × Option Chunks
  pub read_exact : ℕ → Chunks → Option (Text × Chunks)

unfoldable pub is_hexdigit : ℕ → Bool
is_hexdigit b = within b'0' b'9' b || within b'A' b'F' b || within b'a' b'f' b

unfoldable pub first_is_hexdigit : Text → Bool
unfolding is_hexdigit
first_is_hexdigit [] = false
first_is_hexdigit (b ∷ s) = is_hexdigit b

-- The size in a size line.
unfoldable pub chunk_size : Calls → Text → Result FrontError ℕ
unfolding first_is_hexdigit
chunk_size calls line = do
  guard (first_is_hexdigit line && all (within 32 126) (take (length line - 2) line)) bad_framing
  (end, size) ← ok_or bad_framing (calls.parse_chunk_size line)
  guard (end == length line) bad_framing
  ok size

-- `total.checked_add(size)` of `u64`, and the limit
unfoldable pub add_size : ℕ → ℕ → ℕ → Result FrontError ℕ
add_size limit total size = do
  guard (ltb (total + size) (2 ^ 64)) too_long
  guard (not (ltb limit (total + size))) too_long
  ok (total + size)

unfoldable pub check_names : List Text → Result FrontError (Unit {0})
unfolding validate_trailer
check_names [] = ok tt
check_names (name ∷ names) = validate_trailer name >> check_names names

unfoldable pub check_trailers : Calls → Text → Result FrontError (Unit {0})
unfolding check_names
check_trailers calls trailers = ok_or bad_field (calls.parse_headers trailers) >>= check_names

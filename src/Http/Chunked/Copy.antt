-- ===== src/Http/Chunked/Copy.antt =====
-- `copy_exact` and the loop of `copy_chunked` of src/runtime.rs. The writer takes all bytes.
use zc.Prelude.{
  ℕ, zero, suc, true, false, Option, none, some, length, ◌==◌, if◌then◌else◌, ok, err, ok_or,
}
use zc.Prelude.Text.{Text, text_eq}
use zc.Frontend.{too_long, bad_framing, unexpected_eof}
use zc.Http.{crlf}
use zc.Http.Lines.{Chunks, http_line, http_header}
use zc.Http.Relay.{Relay, write, lift, ◌>>=◌, ◌>>◌}
use zc.Http.Chunked.{Calls, chunk_size, add_size, check_trailers}

-- All of `size` bytes were copied, or the body is truncated.
unfoldable pub whole_copy : ℕ → Text × Option Chunks → Relay Chunks
whole_copy size (out, none) = (out, err unexpected_eof)
whole_copy size (out, some rest) = (out, if length out == size then ok rest else err unexpected_eof)

unfoldable pub copy_exact : Calls → ℕ → Chunks → Relay Chunks
unfolding whole_copy
copy_exact calls size chunks = whole_copy size (calls.copy size chunks)

-- The last chunk with its trailers, whose loop is that of `http_header`.
unfoldable pub last_chunk : Calls → Text → Chunks → Relay Chunks
unfolding http_header check_trailers
last_chunk calls line chunks = do
  (trailers, rest) ← lift (http_header chunks)
  lift (check_trailers calls trailers)
  write line
  write trailers
  lift (ok rest)

-- One chunk that is not the last.
unfoldable pub data_chunk : Calls → Text → ℕ → Chunks → Relay Chunks
unfolding copy_exact text_eq
data_chunk calls line size chunks = do
  write line
  behind ← copy_exact calls size chunks
  (mark, rest) ← lift (ok_or unexpected_eof (calls.read_exact 2 behind))
  lift (if text_eq mark crlf then ok tt else err bad_framing)
  write mark
  lift (ok rest)

-- At most `fuel` chunks.
unfoldable pub copy_loop : Calls → ℕ → ℕ → ℕ → Chunks → Relay Chunks
unfolding http_line chunk_size add_size last_chunk data_chunk
copy_loop calls limit zero total chunks = lift (err too_long)
copy_loop calls limit (suc fuel) total chunks = do
  (line, rest) ← lift (http_line 4096 chunks)
  size ← lift (chunk_size calls line)
  sum ← lift (add_size limit total size)
  elim (size == 0) [
    | true ↦ last_chunk calls line rest
    | false ↦ data_chunk calls line size rest >>= copy_loop calls limit fuel sum
  ]

abbrev pub max_chunks : ℕ
max_chunks = 262144

unfoldable pub copy_chunked : Calls → ℕ → Chunks → Relay Chunks
unfolding copy_loop
copy_chunked calls limit chunks = copy_loop calls limit max_chunks 0 chunks

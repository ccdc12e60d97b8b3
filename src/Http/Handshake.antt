-- ===== src/Http/Handshake.antt =====
-- `http_handshake` of src/runtime.rs: one request from the reader.
pub mod Accepted
use zc.Prelude.{ℕ, Option, ◌++◌, flat, List, [], ◌∷◌, Result, ok, ◌>>=◌, ◌>>◌, guard, ok_or}
use zc.Prelude.Text.{Text, bytes, decimal, starts_with}
use zc.Frontend.{FrontError, bad_request, bad_header}
use zc.Http.{Request, HttpRequest, crlf}
use zc.Http.Lines.{Chunks, http_header}
use zc.Http.Requests.{http_request}

-- The first line as it is written from its parts.
unfoldable pub request_line : Text → Text → ℕ → Text
unfolding decimal
request_line method path version =
    flat (method ∷ bytes " " ∷ path ∷ bytes " HTTP/1." ∷ decimal version ∷ crlf ∷ [])

-- The parser of another crate gives a request when it is complete; the reader keeps what follows the header.
unfoldable pub http_handshake :
    (Text → Option Request) → Chunks → Result FrontError (HttpRequest × Chunks)
unfolding http_header request_line starts_with http_request
http_handshake parse chunks = do
  (header, rest) ← http_header chunks
  request ← ok_or bad_header (parse header)
  method ← ok_or bad_request request.method
  path ← ok_or bad_request request.path
  version ← ok_or bad_request request.version
  guard (starts_with (request_line method path version) header) bad_request
  accepted ← http_request request
  ok (accepted, rest)

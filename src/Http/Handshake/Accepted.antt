-- ===== src/Http/Handshake/Accepted.antt =====
-- What `http_handshake` of src/runtime.rs accepts.
use zc.Prelude.{
  true, ℕ, ◌≡◌, Option, some, ◌++◌, flat, ok_or, ok_or-some, Ensures, Ensures-any, Ensures-guard,
  Ensures-pure,
}
use zc.Prelude.Text.{Text, starts_with}
use zc.Frontend.{bad_request, bad_header}
use zc.Http.{Request, HttpRequest}
use zc.Http.Lines.{Chunks, http_header}
use zc.Http.Lines.Exact.{IsHeader, http_header-IsHeader}
use zc.Http.Requests.{http_request}
use zc.Http.Forwarded.{IsAccepted, http_request-IsAccepted}
use zc.Http.Handshake.{request_line, http_handshake}

-- The header that was read, what the parser made of it, and how its first line is written.
pub record IsHandshake (parse : Text → Option Request) (chunks : Chunks) (r : HttpRequest × Chunks)
    : Type 0 where
  pub header : Text
  pub request : Request
  pub is_header : IsHeader header
  pub consumed : flat chunks ≡ header ++ flat r.1
  pub parsed : parse header ≡ some request
  pub method : Text
  pub path : Text
  pub version : ℕ
  pub method_is : request.method ≡ some method
  pub path_is : request.path ≡ some path
  pub version_is : request.version ≡ some version
  pub first : starts_with (request_line method path version) header ≡ true
  pub accepted : IsAccepted request r.0

-- For every parser: a request that `http_handshake` accepts comes from a header that stands first in the reader, which
-- keeps the rest. The parser's request begins as the header does, and meets what `http_request` promises.
pub http_handshake-IsHandshake :
    (parse : Text → Option Request) (chunks : Chunks)
    → Ensures (IsHandshake parse chunks) (http_handshake parse chunks)
unfolding http_handshake
http_handshake-IsHandshake parse chunks = Ensures-any (http_header chunks) _ λ (header, rest) reads.
    Ensures-any (ok_or bad_header (parse header)) _ λ request parsed.
      Ensures-any (ok_or bad_request request.method) _ λ method m.
        Ensures-any (ok_or bad_request request.path) _ λ path p.
          Ensures-any (ok_or bad_request request.version) _ λ version v.
            Ensures-guard (starts_with (request_line method path version) header) bad_request _
              λ first. Ensures-any (http_request request) _ λ accepted a.
                let (valid, parts) = http_header-IsHeader chunks rest header reads in
                Ensures-pure _ (accepted, rest)
                  (record {
                    header = header;
                    request = request;
                    is_header = valid;
                    consumed = parts;
                    parsed = ok_or-some bad_header _ parsed;
                    method = method;
                    path = path;
                    version = version;
                    method_is = ok_or-some bad_request _ m;
                    path_is = ok_or-some bad_request _ p;
                    version_is = ok_or-some bad_request _ v;
                    first = first;
                    accepted = (http_request-IsAccepted request).holds accepted a;
                  })

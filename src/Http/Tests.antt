-- ===== src/Http/Tests.antt =====
-- HTTP requests of src/runtime.rs at concrete values.
use zc.Prelude.{Option, ◌++◌, ◌≡◌, refl, true, some, List, [], ◌∷◌, err, is_ok, Ensures}
use zc.Prelude.Text.{Text, bytes}
use zc.Frontend.{bad_framing, bad_request}
use zc.Http.Lines.{Chunks}
use zc.Http.Handshake.{http_handshake}
use zc.Http.Handshake.Accepted.{IsHandshake, http_handshake-IsHandshake}
use zc.Http.{Field, Request, crlf}
use zc.Http.Requests.{http_request}
use zc.Http.Forwarded.{IsAccepted, http_request-IsAccepted}

abbrev post : List Field → Request
post headers = record {
  method = some (bytes "POST");
  path = some (bytes "http://example.com/a?b");
  version = some 1;
  headers = record { name = bytes "Host"; value = bytes "example.com" } ∷ headers;
}

abbrev sized : Request
sized = post (
    record { name = bytes "Connection"; value = bytes "X-Hop, close" }
    ∷ record { name = bytes "X-Hop"; value = bytes "1" }
    ∷ record { name = bytes "Accept"; value = bytes "text/html" }
    ∷ record { name = bytes "Content-Length"; value = bytes " 5" }
    ∷ [])

http_request-IsAccepted_example : Ensures (IsAccepted sized) (http_request sized)
http_request-IsAccepted_example = http_request-IsAccepted sized

accepts : is_ok (http_request sized) ≡ true
unfolding http_request
accepts = refl

refuses_two_framings :
    http_request (
      post (
        record { name = bytes "transfer-encoding"; value = bytes "Chunked" }
        ∷ record { name = bytes "content-length"; value = bytes "5" }
        ∷ []))
    ≡ err bad_framing
unfolding http_request
refuses_two_framings = refl

refuses_a_hidden_length :
    http_request (post (record { name = bytes "connection"; value = bytes "content-length" } ∷ []))
    ≡ err bad_framing
unfolding http_request
refuses_a_hidden_length = refl

abbrev posted : Chunks
posted = (bytes "POST http://example.com/a?b HTTP/1.1" ++ (crlf ++ crlf)) ∷ bytes "12345" ∷ []

abbrev parse_posted : Text → Option Request
parse_posted header = some sized

http_handshake-IsHandshake_example :
    Ensures (IsHandshake parse_posted posted) (http_handshake parse_posted posted)
http_handshake-IsHandshake_example = http_handshake-IsHandshake parse_posted posted

reads_a_request : is_ok (http_handshake parse_posted posted) ≡ true
unfolding http_handshake
reads_a_request = refl

refuses_another_line :
    http_handshake parse_posted ((bytes "GET / HTTP/1.1" ++ (crlf ++ crlf)) ∷ []) ≡ err bad_request
unfolding http_handshake
refuses_another_line = refl

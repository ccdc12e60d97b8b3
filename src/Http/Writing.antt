-- ===== src/Http/Writing.antt =====
-- What `http_request` of src/runtime.rs makes of a request for the other side.
use zc.Prelude.{
  ℕ, not, ◌&&◌, ◌||◌, Option, none, some, List, [], ◌∷◌, ◌++◌, length, any, map, flat, ◌==◌,
  if◌then◌else◌,
}
use zc.Prelude.Text.{Text, bytes, text_eq, one_of, decimal, starts_with, lowercase}
use zc.Target.{Target}
use zc.Http.{Field, Request, Forward, crlf}
use zc.Http.Names.{probe_header}
use zc.Http.Scanning.{Scan, is_version_1}

-- Fields that are not passed on.
abbrev pub hop_names : List Text
hop_names =
    bytes "host"
    ∷ bytes "content-length"
    ∷ bytes "connection"
    ∷ bytes "proxy-authorization"
    ∷ bytes "proxy-connection"
    ∷ probe_header
    ∷ bytes "keep-alive"
    ∷ bytes "te"
    ∷ []

unfoldable pub passed_fields : List Text → List Field → List Field
unfolding lowercase one_of
passed_fields connection [] = []
passed_fields connection (field ∷ fields) =
    let rest = passed_fields connection fields in
    if one_of hop_names (lowercase field.name) || one_of connection (lowercase field.name)
    then rest
    else field ∷ rest

unfoldable pub write_field : Field → Text
write_field field = field.name ++ bytes ": " ++ field.value ++ crlf

unfoldable pub write_length : Option ℕ → Text
unfolding decimal
write_length none = []
write_length (some n) = bytes "Content-Length: " ++ decimal n ++ crlf

unfoldable pub bracketed_host : Text → Text
bracketed_host host = if any (λ b. b == b':') host then bytes "[" ++ host ++ bytes "]" else host

unfoldable pub first_lines : Text → Text → Target → Text
unfolding bracketed_host decimal
first_lines method origin target =
    method
    ++ bytes " "
    ++ origin
    ++ bytes " HTTP/1.1"
    ++ crlf
    ++ bytes "Host: "
    ++ bracketed_host target.host
    ++ bytes ":"
    ++ decimal target.port
    ++ crlf

unfoldable pub write_header : Text → Text → Target → List Field → Option ℕ → Text
unfolding first_lines write_field write_length
write_header method origin target fields length =
    first_lines method origin target
    ++ flat (map write_field fields)
    ++ write_length length
    ++ bytes "Connection: close"
    ++ crlf
    ++ crlf

unfoldable pub length_or_zero : Option ℕ → ℕ
length_or_zero none = 0
length_or_zero (some n) = n

unfoldable pub forward_of : Text → Text → Text → Request → Target → Scan → Forward
unfolding write_header passed_fields length_or_zero one_of is_version_1 text_eq starts_with
forward_of method path origin request target s = record {
  header = write_header method origin target (passed_fields s.connection request.headers) s.length;
  length = length_or_zero s.length;
  chunked = s.chunked;
  keep_alive =
      not (one_of s.connection (bytes "close"))
      && (is_version_1 request.version || one_of s.connection (bytes "keep-alive"));
  head = text_eq method (bytes "HEAD");
  tls = starts_with (bytes "https://") path;
}

-- ===== src/Http/Scanning.antt =====
-- The loop over the fields in `http_request` of src/runtime.rs.
use zc.Prelude.{
  ℕ, Bool, true, false, not, ◌&&◌, ◌||◌, Option, none, some, List, [], ◌∷◌, ◌++◌, length, all,
  is_empty, is_some, ltb, ◌==◌, if◌then◌else◌, Result, ok, err, ◌>>=◌, ◌>>◌, guard, ok_or,
}
use zc.Prelude.Text.{
  Text, bytes, text_eq, one_of, is_digit, parse_uint, split, lowercase, eq_ignore_ascii_case, trim,
}
use zc.Target.{Target}
use zc.Frontend.{FrontError, bad_request, bad_field, bad_framing, authority, same_target}
use zc.Http.{Field}
use zc.Http.Names.{probe_header, is_token, validate_trailers}
use zc.Http.Origins.{as_str}

-- The variables of the loop over the fields.
pub record Scan : Type 0 where
  pub length : Option ℕ
  pub chunked : Bool
  pub expect_seen : Bool
  pub trailers : Bool
  pub host_seen : Bool
  pub probe_token : Option Text
  pub connection : List Text

abbrev pub no_fields : Scan
no_fields = record {
  length = none;
  chunked = false;
  expect_seen = false;
  trailers = false;
  host_seen = false;
  probe_token = none;
  connection = [];
}

-- Names that no `Connection` option may take away.
abbrev pub framing_names : List Text
framing_names =
    bytes "host"
    ∷ bytes "content-length"
    ∷ bytes "transfer-encoding"
    ∷ bytes "upgrade"
    ∷ bytes "expect"
    ∷ bytes "trailer"
    ∷ []

unfoldable pub add_options : List Text → List Text → Result FrontError (List Text)
unfolding trim lowercase is_token one_of
add_options [] connection = ok connection
add_options (option ∷ options) connection = do
  guard (is_token (lowercase (trim option))) bad_field
  guard (not (one_of framing_names (lowercase (trim option)))) bad_framing
  add_options options (connection ++ lowercase (trim option) ∷ [])

-- The method and target of the request, for the fields.
pub record Line : Type 0 where
  pub connect : Bool
  pub version : Option ℕ
  pub target : Target
  pub port : ℕ

unfoldable pub is_version_1 : Option ℕ → Bool
is_version_1 none = false
is_version_1 (some v) = v == 1

unfoldable pub scan_probe : Line → Text → Scan → Result FrontError Scan
unfolding as_str
scan_probe line value s = do
  guard (not (is_some s.probe_token || line.connect)) bad_field
  token ← as_str value
  guard (length token == 65) bad_field
  ok (record s { probe_token = some token })

unfoldable pub scan_encoding : Line → Text → Scan → Result FrontError Scan
unfolding is_version_1 eq_ignore_ascii_case
scan_encoding line value s = do
  guard
      (not (
        s.chunked
        || line.connect
        || not (is_version_1 line.version)
        || not (eq_ignore_ascii_case value (bytes "chunked"))))
      bad_framing
  ok (record s { chunked = true })

unfoldable pub scan_expect : Line → Text → Scan → Result FrontError Scan
unfolding is_version_1 eq_ignore_ascii_case
scan_expect line value s = do
  guard
      (not (
        s.expect_seen
        || line.connect
        || not (is_version_1 line.version)
        || not (eq_ignore_ascii_case value (bytes "100-continue"))))
      bad_field
  ok (record s { expect_seen = true })

unfoldable pub scan_trailer : Text → Scan → Result FrontError Scan
unfolding as_str split validate_trailers
scan_trailer value s = do
  text ← as_str value
  validate_trailers (split b',' text)
  ok (record s { trailers = true })

unfoldable pub scan_host : Line → Text → Scan → Result FrontError Scan
unfolding as_str trim authority same_target
scan_host line value s = do
  guard (not s.host_seen) bad_field
  text ← as_str value
  host ← authority (trim text) (some line.port)
  guard (same_target line.target host) bad_request
  ok (record s { host_seen = true })

abbrev pub max_body : ℕ
max_body = 16777216

unfoldable pub scan_length : Line → Text → Scan → Result FrontError Scan
unfolding as_str trim is_digit parse_uint
scan_length line value s = do
  guard (not (is_some s.length)) bad_framing
  text ← as_str value
  guard (not (is_empty (trim text) || not (all is_digit (trim text)))) bad_framing
  count ← ok_or bad_framing (parse_uint 18446744073709551615 (trim text))
  guard (not (ltb max_body count || (line.connect && not (count == 0)))) bad_framing
  ok (record s { length = some count })

unfoldable pub scan_connection : Text → Scan → Result FrontError Scan
unfolding as_str split add_options
scan_connection value s = do
  text ← as_str value
  connection ← add_options (split b',' text) s.connection
  ok (record s { connection = connection })

-- The match on the name in lower case.
unfoldable pub scan_named : Line → Text → Text → Scan → Result FrontError Scan
unfolding text_eq scan_probe scan_encoding scan_expect scan_trailer scan_host scan_length
    scan_connection
scan_named line name value s =
    if text_eq name probe_header
    then scan_probe line value s
    else if text_eq name (bytes "transfer-encoding")
    then scan_encoding line value s
    else if text_eq name (bytes "expect")
    then scan_expect line value s
    else if text_eq name (bytes "trailer")
    then scan_trailer value s
    else if text_eq name (bytes "upgrade")
    then err bad_field
    else if text_eq name (bytes "host")
    then scan_host line value s
    else if text_eq name (bytes "content-length")
    then scan_length line value s
    else if text_eq name (bytes "connection")
    then scan_connection value s
    else ok s

unfoldable pub scan_fields : Line → List Field → Scan → Result FrontError Scan
unfolding lowercase scan_named
scan_fields line [] s = ok s
scan_fields line (field ∷ fields) s =
    scan_named line (lowercase field.name) field.value s >>= λ s'. scan_fields line fields s'

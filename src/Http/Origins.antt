-- ===== src/Http/Origins.antt =====
-- The target of a request in `http_request` of src/runtime.rs.
use zc.Prelude.{
  ℕ, Bool, true, false, not, ◌&&◌, ◌||◌, Option, none, some, List, [], ◌∷◌, is_some, leb, ◌==◌,
  if◌then◌else◌, Result, ok, ◌>>=◌, ◌>>◌, guard, ok_or,
}
use zc.Prelude.Text.{
  Text, bytes, text_eq, strip_prefix, starts_with, decode_utf8, eq_ignore_ascii_case, trim,
}
use zc.Target.{Target}
use zc.Frontend.{FrontError, bad_request, not_utf8, authority}
use zc.Http.{Field}

unfoldable pub is_path_byte : ℕ → Bool
is_path_byte b = leb 33 b && leb b 126 && not (b == b'#') && not (b == 92)

-- `std::str::from_utf8(value)?`
unfoldable pub as_str : Text → Result FrontError Text
unfolding decode_utf8
as_str value = guard (is_some (decode_utf8 value)) not_utf8 >> ok value

-- `find(['/', '?'])`: what stands before, and the rest.
unfoldable pub split_url : Text → Text × Text
split_url [] = ([], [])
split_url (b ∷ s) =
    let rest = split_url s in if b == b'/' || b == b'?' then ([], b ∷ s) else (b ∷ rest.0, rest.1)

unfoldable pub origin_of : Text → Text
origin_of [] = bytes "/"
origin_of (b ∷ s) = if b == b'?' then b'/' ∷ b ∷ s else b ∷ s

unfoldable pub find_host : List Field → Option Text
unfolding eq_ignore_ascii_case
find_host [] = none
find_host (field ∷ fields) =
    let rest = find_host fields in
    if eq_ignore_ascii_case field.name (bytes "host") then some field.value else rest

-- `strip_prefix("http://").or_else(..)`
unfoldable pub strip_scheme : Option Text → Option Text → Option Text
strip_scheme (some url) other = some url
strip_scheme none other = other

unfoldable pub default_port : Text → ℕ
unfolding starts_with
default_port path = if starts_with (bytes "https://") path then 443 else 80

unfoldable pub absolute_form : Text → Result FrontError (Target × Text)
unfolding strip_scheme strip_prefix split_url authority default_port origin_of
absolute_form path = do
  url ←
      ok_or bad_request
        (strip_scheme (strip_prefix (bytes "http://") path) (strip_prefix (bytes "https://") path))
  target ← authority (split_url url).0 (some (default_port path))
  ok (target, origin_of (split_url url).1)

unfoldable pub origin_form : Text → List Field → Result FrontError (Target × Text)
unfolding find_host as_str trim authority
origin_form path headers = do
  host ← ok_or bad_request (find_host headers)
  value ← as_str host
  target ← authority (trim value) (some 80)
  ok (target, path)

unfoldable pub request_target : Bool → Text → List Field → Result FrontError (Target × Text)
unfolding authority starts_with text_eq origin_form absolute_form
request_target true path headers = authority path none >>= λ target. ok (target, [])
request_target false path headers =
    if starts_with (bytes "/") path || text_eq path (bytes "*")
    then origin_form path headers
    else absolute_form path

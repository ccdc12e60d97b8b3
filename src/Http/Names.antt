-- ===== src/Http/Names.antt =====
-- Names of fields in src/runtime.rs, and `validate_trailer`.
use zc.Prelude.{
  ℕ, Bool, not, ◌&&◌, ◌||◌, List, [], ◌∷◌, all, any, is_empty, ◌==◌, Result, ok, ◌>>◌, guard,
}
use zc.Prelude.Text.{Text, bytes, is_alphanumeric, eq_ignore_ascii_case, trim}
use zc.Frontend.{FrontError, bad_field}

abbrev pub probe_header : Text
probe_header = bytes "x-zc-probe-token"

unfoldable pub is_token_byte : ℕ → Bool
unfolding is_alphanumeric
is_token_byte b = is_alphanumeric b || any (λ c. c == b) (bytes "!#$%&'*+-.^_`|~")

unfoldable pub is_token : Text → Bool
unfolding is_token_byte
is_token name = not (is_empty name) && all is_token_byte name

-- `validate_trailer`
unfoldable pub validate_trailer : Text → Result FrontError (Unit {0})
unfolding is_token eq_ignore_ascii_case
validate_trailer name = do
  guard (is_token name) bad_field
  guard
      (not (
        any (λ forbidden. eq_ignore_ascii_case name forbidden)
          (bytes "host"
            ∷ bytes "content-length"
            ∷ bytes "transfer-encoding"
            ∷ bytes "connection"
            ∷ bytes "trailer"
            ∷ bytes "authorization"
            ∷ bytes "proxy-authorization"
            ∷ probe_header
            ∷ bytes "upgrade"
            ∷ bytes "expect"
            ∷ bytes "te"
            ∷ bytes "proxy-connection"
            ∷ bytes "keep-alive"
            ∷ [])))
      bad_field
  ok tt

unfoldable pub validate_trailers : List Text → Result FrontError (Unit {0})
unfolding validate_trailer trim
validate_trailers [] = ok tt
validate_trailers (name ∷ names) = validate_trailer (trim name) >> validate_trailers names

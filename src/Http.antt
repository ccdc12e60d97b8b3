-- ===== src/Http.antt =====
-- HTTP in src/runtime.rs: a request as the parser of another crate splits it, and what becomes of it.
pub mod Names
pub mod Origins
pub mod Scanning
pub mod Writing
pub mod Requests
pub mod Fields
pub mod Lines
pub mod Relay
pub mod Chunked
pub mod Nominated
pub mod Forwarded
pub mod Handshake
pub mod Tests
use zc.Prelude.{
  ℕ, ◌+◌, Bool, true, false, not, ◌&&◌, ◌||◌, Option, none, some, List, [], ◌∷◌, ◌++◌, length, all,
  any, map, flat, is_empty, is_some, leb, ltb, ◌==◌, if◌then◌else◌, Result, ok, err, ◌>>=◌, ◌>>◌,
  guard, ok_or,
}
use zc.Prelude.Text.{
  Text, bytes, text_eq, one_of, is_digit, is_alphanumeric, parse_uint, decimal, split, strip_prefix,
  starts_with, decode_utf8, lowercase, eq_ignore_ascii_case, trim,
}
use zc.Target.{Target}
use zc.Frontend.{FrontError, bad_request, bad_field, bad_framing, not_utf8, authority, same_target}

pub record Field : Type 0 where
  pub name : Text
  pub value : Text

pub record Request : Type 0 where
  pub method : Option Text
  pub path : Option Text
  pub version : Option ℕ
  pub headers : List Field

pub record Forward : Type 0 where
  pub header : Text
  pub length : ℕ
  pub chunked : Bool
  pub keep_alive : Bool
  pub head : Bool
  pub tls : Bool

pub record HttpRequest : Type 0 where
  pub target : Target
  pub forward : Option Forward
  pub probe_token : Option Text

abbrev pub crlf : Text
crlf = 13 ∷ 10 ∷ []

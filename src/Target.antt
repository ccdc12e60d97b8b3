-- ===== src/Target.antt =====
-- src/target.rs: a destination host and port.
pub mod Names
pub mod Tests
use zc.Prelude.{
  ℕ, Bool, true, false, not, ◌&&◌, ◌||◌, Option, none, some, List, [], ◌∷◌, length, all, is_empty,
  leb, ltb, ◌==◌, if◌then◌else◌, Result, ok, err, ◌>>=◌, ◌>>◌, guard,
}
use zc.Prelude.Text.{
  Text, text_eq, split, strip_suffix, starts_with_byte, is_alphanumeric, ends_with, is_digit,
}
use zc.IpAddr.{IpAddr, parse_ip}

pub record Target : Type 0 where
  pub host : Text
  pub port : ℕ

pub data TargetError : Type 0 where
  zero_port not_a_name : TargetError

unfoldable pub is_label_byte : ℕ → Bool
unfolding is_alphanumeric is_digit
is_label_byte b = is_alphanumeric b || b == b'-'

unfoldable pub is_label : Text → Bool
unfolding is_label_byte starts_with_byte ends_with text_eq
is_label label =
    not (is_empty label)
    && leb (length label) 63
    && all is_label_byte label
    && not (starts_with_byte b'-' label)
    && not (ends_with (b'-' ∷ []) label)

-- `host.strip_suffix('.').unwrap_or(&host)`
unfoldable pub without_dot : Option Text → Text → Text
without_dot none host = host
without_dot (some domain) host = domain

unfoldable pub is_domain : Text → Bool
unfolding is_label split strip_suffix text_eq without_dot
is_domain host =
    let domain = without_dot (strip_suffix (b'.' ∷ []) host) host in
    not (is_empty domain) && not (ltb 253 (length domain)) && all is_label (split b'.' domain)

unfoldable pub is_host : Option IpAddr → Text → Bool
unfolding is_domain
is_host none host = is_domain host
is_host (some ip) host = true

-- `Target::new`
unfoldable pub new : Text → ℕ → Result TargetError Target
unfolding is_host parse_ip
new host port = do
  guard (not (port == 0)) zero_port
  guard (is_host (parse_ip host) host) not_a_name
  ok (record { host = host; port = port })

-- `Target::from_socks`
unfoldable pub from_socks : Text → ℕ → Result TargetError Target
from_socks host port =
    if is_empty host || ltb 255 (length host) || port == 0
    then err not_a_name
    else ok (record { host = host; port = port })

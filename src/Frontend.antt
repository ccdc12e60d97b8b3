-- ===== src/Frontend.antt =====
-- The parsers of src/runtime.rs for what clients send: authorities of HTTP requests and SOCKS datagrams.
pub mod Accepted
pub mod Datagrams
pub mod Tests
use zc.Prelude.{
  ℕ, ◌+◌, ◌-◌, ◌*◌, ◌≤◌, Bool, true, false, not, ◌&&◌, ◌||◌, Option, none, some, List, [], ◌∷◌,
  ◌++◌, length, take, drop, all, get_elem?, is_empty, is_some, get_or, leb, ltb, ◌==◌,
  if◌then◌else◌, Result, ok, err, ◌>>=◌, ◌>>◌, guard, ok_or,
}
use zc.Prelude.Text.{
  Text, text_eq, is_digit, parse_uint, split_once, strip_prefix, starts_with, decode_utf8,
  eq_ignore_ascii_case,
}
use zc.IpAddr.{IpAddr, v4, v6, parse_ip}
use zc.IpAddr.Display.{show_v4, show_v6}
use zc.Target.{Target, TargetError, new, from_socks}

pub data FrontError : Type 0 where
  bad_port missing_port bad_authority bad_target bad_header truncated not_utf8 bad_type too_long
        bad_request bad_field bad_framing unexpected_eof bad_line out_of_fuel :
      FrontError

unfoldable pub map_target : {A : Type 0} → Result TargetError A → Result FrontError A
map_target (ok a) = ok a
map_target (err e) = err bad_target

-- `authority_port`
unfoldable pub authority_port : Text → Result FrontError ℕ
unfolding is_digit parse_uint
authority_port value = do
  guard (not (is_empty value || not (all is_digit value))) bad_port
  ok_or bad_port (parse_uint 65535 value)

unfoldable pub is_v6 : Option IpAddr → Bool
is_v6 (some (v6 groups)) = true
is_v6 _ = false

-- The port behind a bracket: one behind a colon, or the default when nothing follows.
unfoldable pub bracket_port : Option Text → Text → Option ℕ → Result FrontError ℕ
unfolding authority_port
bracket_port (some port) suffix default_port = authority_port port
bracket_port none suffix default_port =
    if is_empty suffix then ok_or missing_port default_port else err missing_port

-- An authority with a bracket.
unfoldable pub bracketed : Text → Option ℕ → Result FrontError (Text × ℕ)
unfolding split_once parse_ip is_v6 strip_prefix bracket_port
bracketed rest default_port = do
  (host, suffix) ← ok_or bad_authority (split_once b']' rest)
  guard (is_v6 (parse_ip host)) bad_authority
  port ← bracket_port (strip_prefix (b':' ∷ []) suffix) suffix default_port
  ok (host, port)

unfoldable pub unbracketed : Option (Text × Text) → Text → Option ℕ → Result FrontError (Text × ℕ)
unfolding authority_port
unbracketed (some (host, text)) value default_port = authority_port text >>= λ port. ok (host, port)
unbracketed none value default_port = ok_or missing_port default_port >>= λ port. ok (value, port)

unfoldable pub authority_parts : Option Text → Text → Option ℕ → Result FrontError (Text × ℕ)
unfolding bracketed unbracketed split_once
authority_parts (some rest) value default_port = bracketed rest default_port
authority_parts none value default_port = unbracketed (split_once b':' value) value default_port

-- `authority`
unfoldable pub authority : Text → Option ℕ → Result FrontError Target
unfolding authority_parts strip_prefix map_target new
authority value default_port =
    authority_parts (strip_prefix (b'[' ∷ []) value) value default_port >>= λ (host, port).
    map_target (new host port)

-- `bytes.get(first..last)`
unfoldable pub slice : ℕ → ℕ → Text → Option Text
slice first last bytes =
    if leb last (length bytes) then some (take (last - first) (drop first bytes)) else none

unfoldable pub groups_of : Text → List ℕ
groups_of (a ∷ b ∷ rest) = (a * 256 + b) ∷ groups_of rest
groups_of _ = []

unfoldable pub v4_host : Text → Result FrontError (Text × ℕ)
unfolding slice show_v4
v4_host bytes = ok_or truncated (slice 4 8 bytes) >>= λ octets. ok (show_v4 octets, 8)

unfoldable pub v6_host : Text → Result FrontError (Text × ℕ)
unfolding slice show_v6 groups_of
v6_host bytes = ok_or truncated (slice 4 20 bytes) >>= λ octets. ok (show_v6 (groups_of octets), 20)

unfoldable pub domain_host : Text → Result FrontError (Text × ℕ)
unfolding slice decode_utf8
domain_host bytes = do
  len ← ok_or truncated (get_elem? bytes 4)
  name ← ok_or truncated (slice 5 (5 + len) bytes)
  guard (is_some (decode_utf8 name)) not_utf8
  ok (name, 5 + len)

-- The match on the type of the address: the host, and where it ends.
unfoldable pub datagram_host : Option ℕ → Text → Result FrontError (Text × ℕ)
unfolding v4_host v6_host domain_host
datagram_host none bytes = err bad_type
datagram_host (some kind) bytes =
    if kind == 1
    then v4_host bytes
    else if kind == 4
    then v6_host bytes
    else if kind == 3
    then domain_host bytes
    else err bad_type

abbrev pub max_wire_bytes : ℕ
max_wire_bytes = 65507

-- `u16::from_be_bytes`
unfoldable pub read_u16 : Text → ℕ
read_u16 s = get_or s 0 0 * 256 + get_or s 1 0

-- `udp_request`
unfoldable pub udp_request : Text → Result FrontError (Target × Text)
unfolding starts_with datagram_host slice read_u16 map_target from_socks
udp_request bytes = do
  guard (not (ltb max_wire_bytes (length bytes) || not (starts_with (0 ∷ 0 ∷ 0 ∷ []) bytes)))
      bad_header
  (host, end) ← datagram_host (get_elem? bytes 3) bytes
  port ← ok_or truncated (slice end (end + 2) bytes)
  target ← map_target (from_socks host (read_u16 port))
  ok (target, drop (end + 2) bytes)

-- The addresses of SOCKS 5, whose writer is of another crate.
pub data Address : Type 0 where
  socket_address : IpAddr → ℕ → Address
  domain_name_address : Text → ℕ → Address

-- `destination` of src/outbound.rs
unfoldable pub destination : Target → Address
unfolding parse_ip
destination target = elim (parse_ip target.host) [
  | some ip ↦ socket_address ip target.port
  | none ↦ domain_name_address target.host target.port
]

-- `udp_response`; `write` is `write_to_buf` of an address.
unfoldable pub udp_response : (Address → Text) → Target → Text → Result FrontError Text
unfolding destination
udp_response write source payload = do
  guard
      (not (
        ltb max_wire_bytes
          (length ((0 ∷ 0 ∷ 0 ∷ []) ++ write (destination source)) + length payload)))
      too_long
  ok ((0 ∷ 0 ∷ 0 ∷ []) ++ write (destination source) ++ payload)

unfoldable pub same_host : Option IpAddr → Option IpAddr → Text → Text → Bool
unfolding text_eq eq_ignore_ascii_case
same_host (some (v4 a)) (some (v4 b)) left right = text_eq a b
same_host (some (v6 a)) (some (v6 b)) left right = text_eq a b
same_host (some (v4 a)) (some (v6 b)) left right = false
same_host (some (v6 a)) (some (v4 b)) left right = false
same_host _ _ left right = eq_ignore_ascii_case left right

-- `same_target`
unfoldable pub same_target : Target → Target → Bool
unfolding same_host parse_ip
same_target left right =
    left.port == right.port
    && same_host (parse_ip left.host) (parse_ip right.host) left.host right.host

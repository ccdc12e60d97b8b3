-- ===== src/Config/Rules.antt =====
-- The rules of src/config.rs: their forms, and `Rule::parse`.
pub mod Valid
use zc.Prelude.{
  ℕ, ◌-◌, ◌^◌, ◌≤◌, Bool, true, false, not, ◌&&◌, ◌||◌, Option, none, some, List, [], ◌∷◌, map,
  length, take, all, any, is_empty, ltb, leb, ◌==◌, if◌then◌else◌, Result, ok, err, ◌>>=◌, ◌>>◌,
  guard, ok_or, is_ok,
}
use zc.Prelude.Text.{
  Text, bytes, text_eq, one_of, is_digit, parse_uint, split, split_once, strip_suffix, lowercase,
  trim,
}
use zc.IpAddr.{IpAddr}
use zc.Target.{Target, TargetError, new, without_dot}

-- `IpNet` is of another crate: how it is read, which addresses it has, and its family.
pub record Networks (N : Type 0) : Type 0 where
  pub parse_network : Text → Option N
  pub contains : N → IpAddr → Bool
  pub is_ipv4 : N → Bool

pub data Matcher (N : Type 0) : Type 0 where
  domain domain_suffix domain_keyword : Text → Matcher N
  -- The network, and `no_resolve`.
  ip_in : N → Bool → Matcher N
  destination_port source_port : ℕ → ℕ → Matcher N
  source_ip : N → Matcher N
  process_name : Text → Matcher N
  geo_ip : Text → Bool → Matcher N
  match_all : Matcher N

pub record Rule (N : Type 0) : Type 0 where
  pub matcher : Matcher N
  pub proxy : ℕ
  pub kind : Text
  pub payload : Text

pub data RuleError : Type 0 where
  bad_port bad_domain bad_network wrong_family descending unsupported unknown_proxy : RuleError

unfoldable pub parse_port : Text → Result RuleError ℕ
unfolding is_digit parse_uint
parse_port text = do
  guard (not (is_empty text) && all is_digit text) bad_port
  port ← ok_or bad_port (parse_uint 65535 text)
  guard (not (port == 0)) bad_port
  ok port

unfoldable pub canonical_domain : Text → Text
unfolding strip_suffix text_eq lowercase without_dot
canonical_domain name = lowercase (without_dot (strip_suffix (b'.' ∷ []) name) name)

-- `is_ascii_whitespace() || is_ascii_control()`, or no ASCII at all.
unfoldable pub is_bad_byte : ℕ → Bool
is_bad_byte b = leb b 32 || b == 127 || ltb 127 b

-- `HashMap::get` on the names of the proxies and the groups.
abbrev pub Names : Type 0
Names = List (Text × ℕ)

unfoldable pub get_name : Text → Names → Option ℕ
unfolding text_eq
get_name name [] = none
get_name name ((k, v) ∷ names) =
    let rest = get_name name names in if text_eq k name then some v else rest

-- `split_once('-').unwrap_or((payload, payload))`
unfoldable pub port_range : Option (Text × Text) → Text → Text × Text
port_range none payload = (payload, payload)
port_range (some range) payload = range

module _ {N : Type 0} (nets : Networks N) where
  unfoldable pub parse_domain : Text → Text → Result RuleError (Matcher N)
  unfolding text_eq new canonical_domain is_bad_byte
  parse_domain kind payload = do
    guard (text_eq kind (bytes "DOMAIN-KEYWORD") || is_ok (new payload 1)) bad_domain
    let name = canonical_domain payload
    guard (not (is_empty name || any is_bad_byte name)) bad_domain
    ok (
        if text_eq kind (bytes "DOMAIN")
        then domain name
        else if text_eq kind (bytes "DOMAIN-SUFFIX")
        then domain_suffix name
        else domain_keyword name)

  unfoldable pub parse_ip_rule : Text → Text → Bool → Result RuleError (Matcher N)
  unfolding text_eq
  parse_ip_rule kind payload no_resolve = do
    network ← ok_or bad_network (nets.parse_network payload)
    guard
        (if text_eq kind (bytes "IP-CIDR")
          then nets.is_ipv4 network
          else not (nets.is_ipv4 network))
        wrong_family
    ok (ip_in network no_resolve)

  unfoldable pub parse_source_ip : Text → Result RuleError (Matcher N)
  parse_source_ip payload = do
    network ← ok_or bad_network (nets.parse_network payload)
    guard (nets.is_ipv4 network) wrong_family
    ok (source_ip network)

  unfoldable pub parse_ports : Text → Text → Result RuleError (Matcher N)
  unfolding text_eq split_once port_range parse_port
  parse_ports kind payload = do
    let range = port_range (split_once b'-' payload) payload
    first ← parse_port range.0
    last ← parse_port range.1
    guard (not (ltb last first)) descending
    ok (
        if text_eq kind (bytes "DST-PORT")
        then destination_port first last
        else source_port first last)

  -- The patterns with three fields. Those with a guard fall through to the last one.
  unfoldable pub parse_three : Text → Text → Result RuleError (Matcher N)
  unfolding one_of text_eq parse_domain parse_ip_rule parse_source_ip parse_ports
  parse_three kind payload =
      if one_of (bytes "DOMAIN" ∷ bytes "DOMAIN-SUFFIX" ∷ bytes "DOMAIN-KEYWORD" ∷ []) kind
      then parse_domain kind payload
      else if one_of (bytes "IP-CIDR" ∷ bytes "IP-CIDR6" ∷ []) kind
      then parse_ip_rule kind payload false
      else if text_eq kind (bytes "SRC-IP-CIDR")
      then parse_source_ip payload
      else if text_eq kind (bytes "PROCESS-NAME") && not (is_empty payload)
      then ok (process_name payload)
      else if text_eq kind (bytes "GEOIP") && not (is_empty payload)
      then ok (geo_ip payload false)
      else if one_of (bytes "DST-PORT" ∷ bytes "SRC-PORT" ∷ []) kind
      then parse_ports kind payload
      else err unsupported

  -- The patterns with `no-resolve` as their fourth field.
  unfoldable pub parse_four : Text → Text → Text → Result RuleError (Matcher N)
  unfolding one_of text_eq parse_ip_rule
  parse_four kind payload flag =
      if not (text_eq flag (bytes "no-resolve"))
      then err unsupported
      else if one_of (bytes "IP-CIDR" ∷ bytes "IP-CIDR6" ∷ []) kind
      then parse_ip_rule kind payload true
      else if text_eq kind (bytes "GEOIP") && not (is_empty payload)
      then ok (geo_ip payload true)
      else err unsupported

  -- The match on the fields: the matcher, its kind and payload, and the name of the proxy.
  unfoldable pub parse_fields : List Text → Result RuleError (Matcher N × Text × Text × Text)
  unfolding text_eq parse_three parse_four
  parse_fields (kind ∷ name ∷ []) = do
    guard (text_eq kind (bytes "MATCH")) unsupported
    ok (match_all, kind, [], name)
  parse_fields (kind ∷ payload ∷ name ∷ []) = do
    matcher ← parse_three kind payload
    ok (matcher, kind, payload, name)
  parse_fields (kind ∷ payload ∷ name ∷ flag ∷ []) = do
    matcher ← parse_four kind payload flag
    ok (matcher, kind, payload, name)
  parse_fields _ = err unsupported

  -- `Rule::parse`
  unfoldable pub parse_rule : Names → Text → Result RuleError (Rule N)
  unfolding split trim parse_fields get_name
  parse_rule names source = do
    (matcher, kind, payload, name) ← parse_fields (map trim (take 5 (split b',' source)))
    proxy ← ok_or unknown_proxy (get_name name names)
    ok (record { matcher = matcher; proxy = proxy; kind = kind; payload = payload })

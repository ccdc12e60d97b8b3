-- ===== src/Config/Rules/Valid.antt =====
-- What `Rule::parse` of src/config.rs accepts.
use zc.Prelude.{
  ℕ, ◌<◌, ◌≤◌, ◌≡◌, true, false, not, ◌&&◌, some, length, all, any, is_empty, ◌==◌, ok_or,
  ok_or-some, Ensures, Ensures-pure, Ensures-guard, Ensures-any, arith,
}
use zc.Prelude.Text.{Text, bytes, text_eq, is_digit, parse_uint, parse_uint-le, lowercase}
use zc.Config.Rules.{
  Networks, Matcher, Rule, bad_port, domain, domain_suffix, domain_keyword, ip_in, destination_port,
  source_port, source_ip, process_name, geo_ip, match_all, parse_port, is_bad_byte, Names, get_name,
}

abbrev pub IsPort : ℕ → Type 0
IsPort port = (0 < port) × (port ≤ 65535)

pub parse_port-IsPort : (text : Text) → Ensures IsPort (parse_port text)
unfolding parse_port
parse_port-IsPort text =
    Ensures-guard (not (is_empty text) && all is_digit text) bad_port _ λ digits.
      Ensures-any (ok_or bad_port (parse_uint 65535 text)) _ λ port e.
        Ensures-guard (not (port == 0)) bad_port _ λ positive. Ensures-pure IsPort port (
          ground arith,
          parse_uint-le 65535 text port (ok_or-some bad_port (parse_uint 65535 text) e),
        )

-- A name as the router compares it: not empty, lower-case ASCII, with no blank or control character.
pub record IsCanonical (name : Text) : Type 0 where
  pub nonempty : 0 < length name
  pub lower : lowercase name ≡ name
  pub clean : any is_bad_byte name ≡ false

module _ {N : Type 0} (nets : Networks N) where
  -- What the parts of an accepted rule keep to. A network of `IP-CIDR` is one of IPv4 addresses, and
  -- one of `IP-CIDR6` is not.
  abbrev pub IsMatcher : Text → Matcher N → Type 0
  IsMatcher kind (domain name) = IsCanonical name
  IsMatcher kind (domain_suffix name) = IsCanonical name
  IsMatcher kind (domain_keyword name) = IsCanonical name
  IsMatcher kind (ip_in network no_resolve) = text_eq kind (bytes "IP-CIDR") ≡ nets.is_ipv4 network
  IsMatcher kind (destination_port first last) = IsPort first × IsPort last × (first ≤ last)
  IsMatcher kind (source_port first last) = IsPort first × IsPort last × (first ≤ last)
  IsMatcher kind (source_ip network) = nets.is_ipv4 network ≡ true
  IsMatcher kind (process_name name) = 0 < length name
  IsMatcher kind (geo_ip country no_resolve) = 0 < length country
  IsMatcher kind match_all = Unit

  abbrev IsParts : Matcher N × Text × Text × Text → Type 0
  IsParts (matcher, kind, payload, name) = IsMatcher kind matcher

  pub record IsRule (names : Names) (r : Rule N) : Type 0 where
    pub keeps : IsMatcher r.kind r.matcher
    pub name : Text
    pub known : get_name name names ≡ some r.proxy

-- ===== src/Config/Routing/Tests.antt =====
-- Routing of src/config.rs at a concrete configuration.
use zc.Prelude.{
  ℕ, ◌≡◌, refl, Bool, true, false, Option, none, some, List, [], ◌∷◌, within, if◌then◌else◌, ok,
  err, Ensures,
}
use zc.Prelude.Text.{Text, bytes, text_eq}
use zc.IpAddr.{IpAddr, v4, v6}
use zc.GeoIp.{to_u32}
use zc.Target.{Target}
use zc.Config.Proxies.{direct, reject, trojan}
use zc.Config.Rules.{
  Networks, Names, domain_suffix, ip_in, match_all, destination_port, parse_rule, wrong_family,
  descending,
}
use zc.Config.Routing.{Context, Router, Resolver, route_inner}
use zc.Config.Routing.Dialed.{Routed, route_inner-Routed}

-- A network is a range of IPv4 addresses.
abbrev has_ip : ℕ × ℕ → IpAddr → Bool
has_ip (first, last) (v4 octets) = within first last (to_u32 octets 0)
has_ip (first, last) (v6 groups) = false

abbrev read_range : Text → Option (ℕ × ℕ)
read_range text = if text_eq text (bytes "10.0.0.0/8") then some (0xa000000, 0xaffffff) else none

abbrev ranges : Networks (ℕ × ℕ)
ranges = record { parse_network = read_range; contains = has_ip; is_ipv4 = λ n. true }

abbrev names : Names
names = (bytes "DIRECT", 0) ∷ (bytes "tokyo", 2) ∷ (bytes "auto", 3) ∷ []

parses_a_port_range :
    parse_rule ranges names (bytes "DST-PORT, 80-443 ,auto")
    ≡ ok (record {
      matcher = destination_port 80 443;
      proxy = 3;
      kind = bytes "DST-PORT";
      payload = bytes "80-443";
    })
unfolding parse_rule
parses_a_port_range = refl

refuses_the_family : parse_rule ranges names (bytes "IP-CIDR6,10.0.0.0/8,DIRECT") ≡ err wrong_family
unfolding parse_rule
refuses_the_family = refl

refuses_a_falling_range : parse_rule ranges names (bytes "SRC-PORT,9-8,auto") ≡ err descending
unfolding parse_rule
refuses_a_falling_range = refl

abbrev router : Router (ℕ × ℕ)
router = record {
  kinds = direct ∷ reject ∷ trojan (bytes "a.example") 443 (bytes "secret") none false ∷ [];
  edges = (2 ∷ 0 ∷ []) ∷ [];
  selections = 0 ∷ [];
  rules =
      record {
        matcher = ip_in (0xa000000, 0xaffffff) false;
        proxy = 0;
        kind = bytes "IP-CIDR";
        payload = bytes "10.0.0.0/8";
      }
      ∷ record {
        matcher = domain_suffix (bytes "example.com");
        proxy = 3;
        kind = bytes "DOMAIN-SUFFIX";
        payload = bytes "example.com";
      }
      ∷ record { matcher = match_all; proxy = 1; kind = bytes "MATCH"; payload = [] }
      ∷ [];
}

abbrev no_context : Context
no_context = record { from_ip = none; from_port = none; process = none }

abbrev addresses : List IpAddr
addresses = v4 (93 ∷ 184 ∷ 216 ∷ 34 ∷ []) ∷ []

abbrev resolver : Resolver
resolver n = ok addresses

abbrev target : Target
target = record { host = bytes "www.Example.com."; port = 443 }

route_inner-Routed_example :
    Ensures
      (Routed target router ranges resolver no_context 0 router.rules true)
      (route_inner ranges resolver no_context target router true)
route_inner-Routed_example = route_inner-Routed target router ranges resolver no_context true

-- The address was looked up for the first rule, which sends to `DIRECT`; the name goes to the proxy.
keeps_the_name :
    route_inner ranges resolver no_context target router true
    ≡ ok (
      record { rule_index = 1; leaf_index = 2; target = target },
      record { resolved = some addresses; lookups = 1 },
    )
unfolding route_inner
keeps_the_name = refl

-- For UDP the looked-up address is kept.
keeps_the_address :
    route_inner ranges resolver no_context target router false
    ≡ ok (
      record {
        rule_index = 1;
        leaf_index = 2;
        target = record { host = bytes "93.184.216.34"; port = 443 };
      },
      record { resolved = some addresses; lookups = 1 },
    )
unfolding route_inner
keeps_the_address = refl

-- ===== src/Config/Routing.antt =====
-- `route_inner` of src/config.rs: the first rule that matches gives the proxy and the destination.
pub mod Once
pub mod Led
pub mod Dialed
pub mod First
pub mod Tests
use zc.Prelude.{
  ℕ, zero, suc, ◌+◌, ◌≤◌, Bool, true, false, not, ◌&&◌, ◌||◌, Option, none, some, List, [], ◌∷◌,
  length, get_elem?, any, is_some, leb, within, ◌==◌, if◌then◌else◌, Result, ok, err, ◌>>=◌, ◌>>◌,
  guard, ok_or, map, is_ok,
}
use zc.Prelude.Text.{Text, text_eq, ends_with, strip_suffix, contains_text}
use zc.IpAddr.{IpAddr, parse_ip}
use zc.IpAddr.Display.{show_ip}
use zc.Target.{Target, TargetError, new}
use zc.GeoIp.{geoip_country}
use zc.Dns.{DnsError}
use zc.Config.Rules.{
  Networks, Matcher, Rule, domain, domain_suffix, domain_keyword, ip_in, destination_port,
  source_port, source_ip, process_name, geo_ip, match_all, canonical_domain,
}
use zc.Config.Proxies.{ProxyKind, direct, reject, shadowsocks, any_tls, trojan}
use zc.Config.Groups.{resolve_proxy}

-- `MatchContext`
pub record Context : Type 0 where
  pub from_ip : Option IpAddr
  pub from_port : Option ℕ
  pub process : Option Text

-- The parts of `Config` that routing reads: the kinds of the proxies, the members of the groups, the
-- selections and the rules.
pub record Router (N : Type 0) : Type 0 where
  pub kinds : List ProxyKind
  pub edges : List (List ℕ)
  pub selections : List ℕ
  pub rules : List (Rule N)

pub data RouteError : Type 0 where
  no_match bad_address no_leaf : RouteError
  dns_failed : DnsError → RouteError

-- What is known of the destination's addresses, and how many lookups were made.
pub record Lookup : Type 0 where
  pub resolved : Option (List IpAddr)
  pub lookups : ℕ

abbrev pub fresh : Lookup
fresh = record { resolved = none; lookups = 0 }

pub record Route : Type 0 where
  pub rule_index : ℕ
  pub leaf_index : ℕ
  pub target : Target

-- `Iterator::find`
unfoldable pub find_ip : (IpAddr → Bool) → List IpAddr → Option IpAddr
find_ip test [] = none
find_ip test (ip ∷ ips) = let rest = find_ip test ips in if test ip then some ip else rest

unfoldable pub map_err : {A : Type 0} → Result DnsError A → Result RouteError A
map_err (ok a) = ok a
map_err (err e) = err (dns_failed e)

-- What `Dns::resolve` answers to each lookup, the first one first.
abbrev pub Resolver : Type 0
Resolver = ℕ → Result DnsError (List IpAddr)

-- `if resolved.is_none() { resolved = Some(self.dns.resolve(target).await?) }`
unfoldable pub ensure_resolved : Resolver → Lookup → Result RouteError (List IpAddr × Lookup)
unfolding map_err
ensure_resolved resolver s = elim s.resolved [
  | some addresses ↦ ok (addresses, s)
  | none ↦ map_err (resolver s.lookups) >>= λ addresses.
      ok (addresses, record { resolved = some addresses; lookups = s.lookups + 1 })
]

-- What a rule says: whether it matches, and the address that it pins.
abbrev pub Verdict : Type 0
Verdict = Bool × Option IpAddr

unfoldable pub pin : Option IpAddr → Verdict
pin none = (false, none)
pin (some ip) = (true, some ip)

-- The two matchers that test the destination's address.
unfoldable pub match_address :
    Resolver
    → Option IpAddr
    → Bool
    → (IpAddr → Bool)
    → Lookup
    → Result RouteError (Verdict × Lookup)
unfolding ensure_resolved pin find_ip
match_address resolver (some ip) no_resolve test s = ok ((test ip, none), s)
match_address resolver none true test s = ok ((false, none), s)
match_address resolver none false test s =
    ensure_resolved resolver s >>= λ (addresses, s'). ok (pin (find_ip test addresses), s')

unfoldable pub opt_any : {A : Type 0} → (A → Bool) → Option A → Bool
opt_any test none = false
opt_any test (some a) = test a

-- `domain == suffix`, or a proper prefix of the name ends in a dot.
unfoldable pub has_suffix : Text → Text → Bool
unfolding text_eq ends_with strip_suffix opt_any
has_suffix suffix name =
    text_eq name suffix
    || opt_any (λ prefix. ends_with (b'.' ∷ []) prefix) (strip_suffix suffix name)

-- `geoip_country(ip) == Some(country)`
unfoldable pub in_country : Text → IpAddr → Bool
unfolding geoip_country opt_any text_eq
in_country country ip = opt_any (λ c. text_eq c country) (geoip_country ip)

unfoldable pub is_resolving : {N : Type 0} → Matcher N → Bool
is_resolving (ip_in network no_resolve) = not no_resolve
is_resolving (geo_ip country no_resolve) = not no_resolve
is_resolving _ = false

unfoldable pub is_direct : Option ProxyKind → Bool
is_direct (some direct) = true
is_direct _ = false

-- The kinds that dial through a remote server.
unfoldable pub is_remote : Option ProxyKind → Bool
is_remote (some (shadowsocks s p w c)) = true
is_remote (some (trojan s p w n k)) = true
is_remote (some (any_tls s p w n k)) = true
is_remote _ = false

-- `domain`: a destination that is an address has none.
unfoldable pub domain_of : Option IpAddr → Text → Option Text
unfolding canonical_domain
domain_of (some ip) host = none
domain_of none host = some (canonical_domain host)

-- `resolved.as_ref().map(|addresses| addresses[0])`
unfoldable pub first_address : Option (List IpAddr) → Result RouteError (Option IpAddr)
first_address none = ok none
first_address (some []) = err bad_address
first_address (some (ip ∷ ips)) = ok (some ip)

-- The address to dial, if it is pinned.
unfoldable pub pinned_address :
    Option IpAddr → Bool → Option (List IpAddr) → Result RouteError (Option IpAddr)
unfolding first_address
pinned_address (some ip) remote_domain resolved = ok (some ip)
pinned_address none true resolved = ok none
pinned_address none false resolved = first_address resolved

unfoldable pub or_bad_address : Result TargetError Target → Result RouteError Target
or_bad_address (ok t) = ok t
or_bad_address (err e) = err bad_address

unfoldable pub dial_target : Target → Option IpAddr → Result RouteError Target
unfolding or_bad_address new show_ip
dial_target target none = ok target
dial_target target (some ip) = or_bad_address (new (show_ip ip) target.port)

-- What follows a match.
unfoldable pub finish_route :
    {N : Type 0}
    → Target
    → Router N
    → ℕ
    → Rule N
    → Option IpAddr
    → Bool
    → Option (List IpAddr)
    → Result RouteError Route
unfolding resolve_proxy is_remote pinned_address dial_target
finish_route target router index rule pinned allowed resolved = do
  leaf ←
      ok_or no_leaf (resolve_proxy (length router.kinds) router.edges router.selections rule.proxy)
  address ← pinned_address pinned (allowed && is_remote (get_elem? router.kinds leaf)) resolved
  to ← dial_target target address
  ok (record { rule_index = index; leaf_index = leaf; target = to })

-- `remote_domain_allowed` after a rule was looked at.
unfoldable pub still_allowed : {N : Type 0} → Router N → Rule N → Bool → Bool
unfolding is_resolving is_direct
still_allowed router rule allowed =
    allowed && (not (is_resolving rule.matcher) || is_direct (get_elem? router.kinds rule.proxy))

module _ {N : Type 0} (nets : Networks N) (resolver : Resolver) (context : Context)
    (target : Target) where
  unfoldable pub match_rule : Matcher N → Lookup → Result RouteError (Verdict × Lookup)
  unfolding opt_any match_address has_suffix in_country domain_of parse_ip text_eq contains_text
  match_rule match_all s = ok ((true, none), s)
  match_rule (source_ip network) s = ok ((opt_any (nets.contains network) context.from_ip, none), s)
  match_rule (source_port first last) s =
      ok ((opt_any (within first last) context.from_port, none), s)
  match_rule (process_name name) s =
      ok ((opt_any (λ process. text_eq process name) context.process, none), s)
  match_rule (geo_ip country no_resolve) s =
      match_address resolver (parse_ip target.host) no_resolve (in_country country) s
  match_rule (destination_port first last) s = ok ((within first last target.port, none), s)
  match_rule (ip_in network no_resolve) s =
      match_address resolver (parse_ip target.host) no_resolve (nets.contains network) s
  match_rule (domain expected) s = ok (
    (opt_any (λ name. text_eq name expected) (domain_of (parse_ip target.host) target.host), none),
    s,
  )
  match_rule (domain_suffix suffix) s =
      ok ((opt_any (has_suffix suffix) (domain_of (parse_ip target.host) target.host), none), s)
  match_rule (domain_keyword keyword) s =
      ok ((opt_any (contains_text keyword) (domain_of (parse_ip target.host) target.host), none), s)

  -- The loop over the rules from number `index` on; the lookups are passed on for the record.
  unfoldable pub route_rules :
      Router N → ℕ → List (Rule N) → Bool → Lookup → Result RouteError (Route × Lookup)
  unfolding match_rule finish_route still_allowed
  route_rules router index [] allowed s = err no_match
  route_rules router index (rule ∷ rules) allowed s = match_rule rule.matcher s >>= λ (verdict, s').
      let later = route_rules router (suc index) rules (still_allowed router rule allowed) s' in
      if verdict.0
      then (finish_route target router index rule verdict.1 (still_allowed router rule allowed)
            s'.resolved
          >>= λ route. ok (route, s'))
      else later

  -- `route_inner`
  unfoldable pub route_inner : Router N → Bool → Result RouteError (Route × Lookup)
  unfolding route_rules
  route_inner router allowed = route_rules router 0 router.rules allowed fresh

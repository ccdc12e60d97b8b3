-- ===== src/Config/Routing/First.antt =====
-- `route_inner` of src/config.rs against a description that knows the addresses in advance.
use zc.Prelude.{
  ℕ, ◌+◌, ◌≡◌, Bool, true, false, Option, none, some, List, ◌⊎◌, any, within, Result, ok, err,
}
use zc.Prelude.Text.{text_eq, contains_text}
use zc.IpAddr.{IpAddr, parse_ip}
use zc.Target.{Target}
use zc.Config.Routing.Led.{leaf_of, Leads, LeadsNowhere}
use zc.Config.Rules.{
  Networks, Matcher, Rule, domain, domain_suffix, domain_keyword, ip_in, destination_port,
  source_port, source_ip, process_name, geo_ip, match_all,
}
use zc.Config.Selections.{position}
use zc.Config.Routing.{
  Context, Router, RouteError, no_match, bad_address, no_leaf, dns_failed, Lookup, Route, Resolver,
  in_country, opt_any, has_suffix, domain_of,
}

-- Whether the destination's address passes a test: its own, or one of the known ones, which a rule
-- with `no-resolve` does not see.
address_hits : List IpAddr → Option IpAddr → Bool → (IpAddr → Bool) → Bool
address_hits addresses (some ip) no_resolve test = test ip
address_hits addresses none true test = false
address_hits addresses none false test = any test addresses

module _ {N : Type 0} (nets : Networks N) (context : Context) (target : Target)
    (addresses : List IpAddr) where
  -- Whether a rule applies, without an account of lookups.
  unfoldable pub hits : Matcher N → Bool
  unfolding address_hits parse_ip in_country opt_any has_suffix domain_of text_eq contains_text
  hits match_all = true
  hits (source_ip network) = opt_any (nets.contains network) context.from_ip
  hits (source_port first last) = opt_any (within first last) context.from_port
  hits (process_name name) = opt_any (λ process. text_eq process name) context.process
  hits (geo_ip country no_resolve) =
      address_hits addresses (parse_ip target.host) no_resolve (in_country country)
  hits (destination_port first last) = within first last target.port
  hits (ip_in network no_resolve) =
      address_hits addresses (parse_ip target.host) no_resolve (nets.contains network)
  hits (domain expected) =
      opt_any (λ name. text_eq name expected) (domain_of (parse_ip target.host) target.host)
  hits (domain_suffix suffix) =
      opt_any (has_suffix suffix) (domain_of (parse_ip target.host) target.host)
  hits (domain_keyword keyword) =
      opt_any (contains_text keyword) (domain_of (parse_ip target.host) target.host)

  -- The number of the first rule that applies.
  unfoldable pub first_hit : List (Rule N) → Option ℕ
  unfolding hits position
  first_hit rules = position (λ rule. hits rule.matcher) rules

-- What a match of the rule may end with: its proxy, that it has none, or a name for an address that is refused.
abbrev Ends : {N : Type 0} → Router N → ℕ → Rule N → Result RouteError Route → Type 0
Ends router index rule (ok route) =
    (route.rule_index ≡ index) × (leaf_of router rule ≡ some route.leaf_index)
Ends router index rule (err no_match) = ⊥
Ends router index rule (err (dns_failed e)) = ⊥
Ends router index rule (err bad_address) = (leaf : ℕ) × (leaf_of router rule ≡ some leaf)
Ends router index rule (err no_leaf) = leaf_of router rule ≡ none

-- Dialing fails only with a refused address.
abbrev IsRefused : {A : Type 0} → Result RouteError A → Type 0
IsRefused r = (e : RouteError) → r ≡ err e → e ≡ bad_address

module _ (resolver : Resolver) (addresses : List IpAddr) (answers : resolver 0 ≡ ok addresses) where
  -- Nothing was looked up, or the answer is at hand.
  abbrev Knows : Lookup → Type 0
  Knows s = ((s.resolved ≡ none) × (s.lookups ≡ 0)) ⊎ (s.resolved ≡ some addresses)

  abbrev Gives : {A : Type 0} → A → Result RouteError (A × Lookup) → Type 0
  Gives a r = (s : Lookup) × (r ≡ ok (a, s)) × Knows s

  module _ {N : Type 0} (nets : Networks N) (context : Context) (target : Target) where
    -- What the answer says of the first rule that applies, which is number `k` of those from `index` on.
    abbrev pub Decides :
        Router N → ℕ → List (Rule N) → Option ℕ → Result RouteError (Route × Lookup) → Type 0
    Decides router index rules hit (ok (route, s)) =
        (k : ℕ) × (hit ≡ some k)
        × (route.rule_index ≡ index + k)
        × Leads router rules k route.leaf_index
    Decides router index rules hit (err no_match) = hit ≡ none
    Decides router index rules hit (err (dns_failed e)) = ⊥
    Decides router index rules hit (err bad_address) =
        (k : ℕ) × (leaf : ℕ) × (hit ≡ some k) × Leads router rules k leaf
    Decides router index rules hit (err no_leaf) =
        (k : ℕ) × (hit ≡ some k) × LeadsNowhere router rules k

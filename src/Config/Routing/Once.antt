-- ===== src/Config/Routing/Once.antt =====
-- What `route_inner` of src/config.rs resolves, and what it hands on to be dialed.
use mathlib.Core.List.{Mem, mem-cons_self, mem-cons_of_mem}
use zc.Prelude.{
  ◌+◌, ◌≡◌, refl, subst, Bool, true, false, Option, none, some, List, [], ◌∷◌, ◌⊎◌, inl, inr,
  Result, ok, err, ◌>>=◌, Ensures, Ensures-pure, Ensures-bind, Ensures-err, arith, if-cases,
}
use zc.IpAddr.{IpAddr, parse_ip}
use zc.Target.{Target}
use zc.Dns.{DnsError}
use zc.Config.Rules.{
  Networks, Matcher, domain, domain_suffix, domain_keyword, ip_in, destination_port, source_port,
  source_ip, process_name, geo_ip, match_all,
}
use zc.Config.Routing.{
  Context, Lookup, fresh, find_ip, map_err, Resolver, ensure_resolved, Verdict, pin, match_address,
  in_country, match_rule,
}

-- Either nothing was looked up, or one lookup gave the addresses that are at hand.
abbrev pub IsOnce : Lookup → Type 0
IsOnce s =
    ((s.resolved ≡ none) × (s.lookups ≡ 0))
    ⊎ ((addresses : List IpAddr) × (s.resolved ≡ some addresses) × (s.lookups ≡ 1))

-- A pinned address is one of those that were looked up.
abbrev pub IsPinned : Option IpAddr → Lookup → Type 0
IsPinned none s = Unit
IsPinned (some ip) s = (addresses : List IpAddr) × (s.resolved ≡ some addresses) × Mem ip addresses

abbrev pub IsVerdict : Verdict × Lookup → Type 0
IsVerdict (verdict, s) = IsOnce s × IsPinned verdict.1 s

pub IsOnce-fresh : IsOnce fresh
IsOnce-fresh = inl (refl, refl)

find_ip-Mem :
    (test : IpAddr → Bool) (ips : List IpAddr) (ip : IpAddr)
    → find_ip test ips ≡ some ip
    → Mem ip ips
unfolding find_ip
find_ip-Mem test [] ip h = cc
find_ip-Mem test (x ∷ ips) ip h = elim (if-cases (test x) h) [
  | inl (hit, e) ↦ let same : x ≡ ip = cc e in subst (λ y. Mem y (x ∷ ips)) same mem-cons_self
  | inr (miss, e) ↦ mem-cons_of_mem x (find_ip-Mem test ips ip e)
]

pin-IsVerdict :
    (test : IpAddr → Bool) (addresses : List IpAddr) (found : Option IpAddr) (s : Lookup)
    → find_ip test addresses ≡ found
    → s.resolved ≡ some addresses
    → IsOnce s
    → IsVerdict (pin found, s)
unfolding pin
pin-IsVerdict test addresses none s e h once = (once, tt)
pin-IsVerdict test addresses (some ip) s e h once =
    (once, (addresses, h, find_ip-Mem test addresses ip e))

abbrev IsResolved : List IpAddr × Lookup → Type 0
IsResolved (addresses, s) = (s.resolved ≡ some addresses) × IsOnce s

map_err-ok :
    (r : Result DnsError (List IpAddr)) (s : Lookup)
    → s.lookups ≡ 0
    → Ensures IsResolved (
        map_err r >>= λ addresses.
        ok (addresses, record { resolved = some addresses; lookups = s.lookups + 1 }))
unfolding map_err
map_err-ok (err e) s zero_before = Ensures-err _
map_err-ok (ok addresses) s zero_before =
    Ensures-pure IsResolved _ (refl, inr (addresses, refl, omega (arith, zero_before)))

ensure_resolved-IsResolved :
    (resolver : Resolver) (s : Lookup) → IsOnce s → Ensures IsResolved (ensure_resolved resolver s)
unfolding ensure_resolved
ensure_resolved-IsResolved resolver s (inl (e, z)) =
    rw (e, ensure_resolved) (map_err-ok (resolver s.lookups) s z)
ensure_resolved-IsResolved resolver s (inr (addresses, e, z)) =
    rw (e, ensure_resolved) (Ensures-pure IsResolved (addresses, s) (e, inr (addresses, e, z)))

match_address-IsVerdict :
    (resolver : Resolver) (literal : Option IpAddr) (no_resolve : Bool) (test : IpAddr → Bool)
    (s : Lookup)
    → IsOnce s
    → Ensures IsVerdict (match_address resolver literal no_resolve test s)
unfolding match_address
match_address-IsVerdict resolver (some ip) no_resolve test s once =
    Ensures-pure IsVerdict ((test ip, none), s) (once, tt)
match_address-IsVerdict resolver none true test s once =
    Ensures-pure IsVerdict ((false, none), s) (once, tt)
match_address-IsVerdict resolver none false test s once =
    Ensures-bind (ensure_resolved resolver s) _ (ensure_resolved-IsResolved resolver s once)
      λ (addresses, s') (e, once').
        Ensures-pure IsVerdict (pin (find_ip test addresses), s')
          (pin-IsVerdict test addresses (find_ip test addresses) s' refl e once')

module _ {N : Type 0} (nets : Networks N) (resolver : Resolver) (context : Context)
    (target : Target) where
  pub match_rule-IsVerdict :
      (m : Matcher N) (s : Lookup)
      → IsOnce s
      → Ensures IsVerdict (match_rule nets resolver context target m s)
  unfolding match_rule
  match_rule-IsVerdict match_all s once = Ensures-pure IsVerdict _ (once, tt)
  match_rule-IsVerdict (source_ip network) s once = Ensures-pure IsVerdict _ (once, tt)
  match_rule-IsVerdict (source_port first last) s once = Ensures-pure IsVerdict _ (once, tt)
  match_rule-IsVerdict (process_name name) s once = Ensures-pure IsVerdict _ (once, tt)
  match_rule-IsVerdict (geo_ip country no_resolve) s once =
      match_address-IsVerdict resolver (parse_ip target.host) no_resolve (in_country country) s once
  match_rule-IsVerdict (destination_port first last) s once = Ensures-pure IsVerdict _ (once, tt)
  match_rule-IsVerdict (ip_in network no_resolve) s once =
      match_address-IsVerdict resolver (parse_ip target.host) no_resolve (nets.contains network) s
        once
  match_rule-IsVerdict (domain expected) s once = Ensures-pure IsVerdict _ (once, tt)
  match_rule-IsVerdict (domain_suffix suffix) s once = Ensures-pure IsVerdict _ (once, tt)
  match_rule-IsVerdict (domain_keyword keyword) s once = Ensures-pure IsVerdict _ (once, tt)

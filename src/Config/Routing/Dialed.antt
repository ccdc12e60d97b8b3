-- ===== src/Config/Routing/Dialed.antt =====
-- What a route of src/config.rs hands on to be dialed.
use mathlib.Core.List.{Mem, mem-cons_self}
use zc.Prelude.{
  ℕ, suc, ◌+◌, ◌≡◌, refl, ap, ◌∙◌, subst, Bool, true, false, not, ◌&&◌, ◌||◌, Option, none, some,
  List, [], ◌∷◌, ◌⊎◌, inl, inr, length, get_elem?, take, all, Result, ok, err, ◌>>=◌, ok_or,
  Ensures, Ensures-pure, Ensures-bind, Ensures-any, Ensures-err, Ensures-if, Ensures-map, arith,
  >>=-eq-ok, ok_injective, ok_or-some,
}
use zc.IpAddr.{IpAddr}
use zc.IpAddr.Display.{show_ip}
use zc.Target.{Target, TargetError, new}
use zc.Target.Names.{new-IsTarget}
use zc.Config.Groups.{resolve_proxy}
use zc.Config.Routing.Led.{leaf_of}
use zc.Config.Rules.{Networks, Rule}
use zc.Config.Routing.{
  Context, Router, no_match, bad_address, no_leaf, Lookup, fresh, Route, Resolver, is_resolving,
  is_direct, is_remote, match_rule, first_address, pinned_address, dial_target, or_bad_address,
  finish_route, still_allowed, route_rules, route_inner,
}
use zc.Config.Routing.Once.{IsOnce, IsOnce-fresh, IsPinned, match_rule-IsVerdict}

-- The destination with one of its addresses in the place of its name.
abbrev pub at_address : Target → IpAddr → Target
at_address target ip = record { host = show_ip ip; port = target.port }

-- A name is dialed as it is only when nothing was looked up, or when the proxy is a remote one and all
-- rules on the way that look addresses up send to `DIRECT`; an address that is dialed was looked up.
abbrev pub Dials : Target → Option IpAddr → Lookup → Bool → Target → Type 0
Dials target pinned s remote to =
    ((to ≡ target) × (pinned ≡ none) × ((s.resolved ≡ none) ⊎ (remote ≡ true)))
    ⊎ ((ip : IpAddr) × (addresses : List IpAddr) × (s.resolved ≡ some addresses)
        × Mem ip addresses
        × (to ≡ at_address target ip))

new-at_address :
    (target : Target) (ip : IpAddr)
    → Ensures (λ t. t ≡ at_address target ip) (new (show_ip ip) target.port)
new-at_address target ip = record {
  holds = λ t e.
      let v = (new-IsTarget (show_ip ip) target.port).holds t e in cc (v.host_kept, v.port_kept);
}

or_bad_address-Ensures :
    (P : Target → Type 0) (r : Result TargetError Target)
    → Ensures P r
    → Ensures P (or_bad_address r)
unfolding or_bad_address
or_bad_address-Ensures P (ok t) h = Ensures-pure P t (h.holds t refl)
or_bad_address-Ensures P (err e) h = Ensures-err bad_address

at_address-Dials :
    (target : Target) (s : Lookup) (pinned : Option IpAddr) (remote : Bool) (ip : IpAddr)
    (addresses : List IpAddr)
    → s.resolved ≡ some addresses
    → Mem ip addresses
    → Ensures (Dials target pinned s remote) (or_bad_address (new (show_ip ip) target.port))
at_address-Dials target s pinned remote ip addresses e m = record {
  holds = λ t h. inr (
    ip,
    addresses,
    e,
    m,
    (or_bad_address-Ensures (λ t. t ≡ at_address target ip) (new (show_ip ip) target.port)
          (new-at_address target ip)).holds
        t h,
  );
}

first-Dials :
    (target : Target) (s : Lookup) (resolved : Option (List IpAddr))
    → s.resolved ≡ resolved
    → Ensures
        (Dials target none s false)
        (first_address resolved >>= λ address. dial_target target address)
unfolding first_address dial_target
first-Dials target s none e =
    Ensures-pure (Dials target none s false) target (inl (refl, refl, inl e))
first-Dials target s (some []) e = Ensures-err bad_address
first-Dials target s (some (ip ∷ ips)) e =
    at_address-Dials target s none false ip (ip ∷ ips) e mem-cons_self

-- What the pinned address of a rule and the addresses at hand make of the destination.
dial-Dials :
    (target : Target) (s : Lookup) (pinned : Option IpAddr) (remote : Bool)
    → IsPinned pinned s
    → Ensures
        (Dials target pinned s remote)
        (pinned_address pinned remote s.resolved >>= λ address. dial_target target address)
unfolding pinned_address dial_target
dial-Dials target s (some ip) remote (addresses, e, m) =
    at_address-Dials target s (some ip) remote ip addresses e m
dial-Dials target s none true p =
    Ensures-pure (Dials target none s true) target (inl (refl, refl, inr refl))
dial-Dials target s none false p = first-Dials target s s.resolved refl

module _ {N : Type 0} (target : Target) (router : Router N) where
  -- A rule that is no reason to keep to an address: it looks none up, or it sends to `DIRECT`.
  abbrev pub is_hint : Rule N → Bool
  is_hint rule = not (is_resolving rule.matcher) || is_direct (get_elem? router.kinds rule.proxy)

  abbrev Finishes : ℕ → Rule N → Option IpAddr → Bool → Lookup → Route → Type 0
  Finishes index rule pinned allowed s route =
      (route.rule_index ≡ index)
      × (leaf_of router rule ≡ some route.leaf_index)
      × Dials target pinned s (allowed && is_remote (get_elem? router.kinds route.leaf_index))
          route.target

  finish_route-Finishes :
      (index : ℕ) (rule : Rule N) (pinned : Option IpAddr) (allowed : Bool) (s : Lookup)
      → IsPinned pinned s
      → Ensures
          (Finishes index rule pinned allowed s)
          (finish_route target router index rule pinned allowed s.resolved)
  unfolding finish_route
  finish_route-Finishes index rule pinned allowed s p =
      Ensures-any
        (ok_or no_leaf
          (resolve_proxy (length router.kinds) router.edges router.selections rule.proxy))
        _
        λ leaf e.
          let remote = allowed && is_remote (get_elem? router.kinds leaf) in
          record {
            holds = λ route h.
                let (address, ea, h') = >>=-eq-ok (pinned_address pinned remote s.resolved) _ h in
                let (to, et, h'') = >>=-eq-ok (dial_target target address) _ h' in
                let dialed : (pinned_address pinned remote s.resolved >>= λ address.
                dial_target target address)
                    ≡ ok to =
                  ap (λ r. r >>= λ address. dial_target target address) ea ∙ et in
                let same : record { rule_index = index; leaf_index = leaf; target = to } ≡ route =
                  ok_injective h'' in
                subst (Finishes index rule pinned allowed s) same (
                  refl,
                  ok_or-some no_leaf _ e,
                  (dial-Dials target s pinned remote p).holds to dialed,
                );
          }

  hint_here :
      (rule : Rule N) (allowed r : Bool)
      → (still_allowed router rule allowed && r) ≡ (allowed && (is_hint rule && true) && r)
  unfolding still_allowed
  hint_here rule allowed r = ground arith

  hint_later :
      (rule : Rule N) (allowed later r : Bool)
      → (still_allowed router rule allowed && later && r)
        ≡ (allowed && (is_hint rule && later) && r)
  unfolding still_allowed
  hint_later rule allowed later r = ground arith

  module _ (nets : Networks N) (resolver : Resolver) (context : Context) where
    -- Rule number `k` of those from `index` on was the one: it matched, with what was known `before` it, and
    -- leads to the route's proxy.
    abbrev pub Routed : ℕ → List (Rule N) → Bool → Route × Lookup → Type 0
    Routed index rules allowed (route, s) =
        (k : ℕ) × (rule : Rule N) × (pinned : Option IpAddr) × (before : Lookup) × (route.rule_index
          ≡ index + k)
        × (get_elem? rules k ≡ some rule)
        × (leaf_of router rule ≡ some route.leaf_index)
        × (match_rule nets resolver context target rule.matcher before ≡ ok ((true, pinned), s))
        × IsOnce s
        × Dials target pinned s
            (allowed
              && all is_hint (take (suc k) rules)
              && is_remote (get_elem? router.kinds route.leaf_index))
            route.target

    route_rules-Routed :
        (index : ℕ) (rules : List (Rule N)) (allowed : Bool) (s : Lookup)
        → IsOnce s
        → Ensures
            (Routed index rules allowed)
            (route_rules nets resolver context target router index rules allowed s)
    unfolding route_rules
    route_rules-Routed index [] allowed s once = Ensures-err no_match
    route_rules-Routed index (rule ∷ rules) allowed s once =
        Ensures-any (match_rule nets resolver context target rule.matcher s) _
          λ (verdict, s') matches.
            let (once', p) =
              (match_rule-IsVerdict nets resolver context target rule.matcher s once).holds
                (verdict, s') matches in
            let allowed' = still_allowed router rule allowed in
            Ensures-if verdict.0 _ _
              (λ hit.
                Ensures-bind (finish_route target router index rule verdict.1 allowed' s'.resolved)
                  _ (finish_route-Finishes index rule verdict.1 allowed' s' p)
                  λ route (e, leads, d).
                    Ensures-pure (Routed index (rule ∷ rules) allowed) (route, s')
                      (
                        0,
                        rule,
                        verdict.1,
                        s,
                        omega (arith, e),
                        refl,
                        leads,
                        matches ∙ ap (λ b. ok ((b, verdict.1), s')) hit,
                        once',
                        subst (λ b. Dials target verdict.1 s' b route.target)
                            (hint_here rule allowed
                              (is_remote (get_elem? router.kinds route.leaf_index)))
                            d,
                      ))
              (λ miss.
                Ensures-map
                  (route_rules nets resolver context target router (suc index) rules allowed' s')
                  (λ (route, t) (k, found, pinned, before, e, here, leads, matched, last, d). (
                    suc k,
                    found,
                    pinned,
                    before,
                    omega (arith, e),
                    here,
                    leads,
                    matched,
                    last,
                    subst (λ b. Dials target pinned t b route.target)
                        (hint_later rule allowed (all is_hint (take (suc k) rules))
                          (is_remote (get_elem? router.kinds route.leaf_index)))
                        d,
                  ))
                  (route_rules-Routed (suc index) rules allowed' s' once'))

    -- A route is the one of some rule that matched, with that rule's number and the proxy that the rule leads
    -- to; there was at most one lookup on the way to it. The destination
    -- is dialed by its name only when nothing was looked up, or when the caller allows it, the proxy is
    -- a remote one, and all rules up to that one that look addresses up send to `DIRECT`. In every
    -- other case one of the addresses that were looked up takes the name's place, with the same port.
    pub route_inner-Routed :
        (allowed : Bool)
        → Ensures
            (Routed 0 router.rules allowed)
            (route_inner nets resolver context target router allowed)
    unfolding route_inner
    route_inner-Routed allowed = route_rules-Routed 0 router.rules allowed fresh IsOnce-fresh

-- ===== src/Registry/Probes/History.antt =====
-- What later calls of src/connection/probes.rs can do to a ticket.
use zc.Prelude.{
  ℕ, ◌≡◌, ◌≢◌, refl, sym, ap, ◌∙◌, subst, true, false, not, Option, none, some, List, is_some,
  Bool-cases, Option-cases, inl, inr, Result, ok, err, ok_or, Ensures, Ensures-pure, Ensures-guard,
  Ensures-any, ok_or-some,
}
use zc.Prelude.Text.{Text, text_eq, text_eq_iff}
use zc.Target.{Target}
use zc.Registry.Probes.{
  ProbeError, missing, consumed, wrong_target, Claim, Ticket, Tickets, find_ticket, erase_ticket,
  modify_ticket, expire, normalized, validate_token, insert_reserved, erase_checked, target_eq,
  claimable, set_claim, claim_checked, first_route, route_claim, route_ticket,
}
use zc.Registry.Probes.Tokens.{IsIssued, new_token-ne}
use zc.Registry.Probes.Entries.{
  find_ticket-erase_self, find_ticket-erase_ne, find_ticket-put_ne, find_ticket-modify_self,
  find_ticket-modify_ne, find_ticket-modify_none, retained-cases,
}
use zc.Registry.Probes.Valid.{IsTickets, IsReservation}

-- A route stays the first one.
abbrev pub KeepsRoute : Option (ℕ × ℕ) → Option (ℕ × ℕ) → Type 0
KeepsRoute none later = Unit {0}
KeepsRoute (some r) later = later ≡ some r

pub record IsSameClaim (c d : Claim) : Type 0 where
  pub connection : d.connection_id ≡ c.connection_id
  pub index : d.request_index ≡ c.request_index
  pub route : KeepsRoute c.route d.route

-- A claim is never taken back, and goes to no other connection.
abbrev pub KeepsClaim : Option Claim → Option Claim → Type 0
KeepsClaim none later = Unit {0}
KeepsClaim (some c) later = (d : Claim) × (later ≡ some d) × IsSameClaim c d

pub record IsLater (t u : Ticket) : Type 0 where
  pub reserved : u.reserved ≡ t.reserved
  pub target : u.target ≡ t.target
  pub claim : KeepsClaim t.claim u.claim

-- A ticket that is gone does not come back.
abbrev pub Follows : Option Ticket → Option Ticket → Type 0
Follows none later = later ≡ none
Follows (some t) none = Unit {0}
Follows (some t) (some u) = IsLater t u

KeepsRoute-refl : (r : Option (ℕ × ℕ)) → KeepsRoute r r
KeepsRoute-refl none = tt
KeepsRoute-refl (some r) = refl

KeepsRoute-trans : (a b c : Option (ℕ × ℕ)) → KeepsRoute a b → KeepsRoute b c → KeepsRoute a c
KeepsRoute-trans none b c f g = tt
KeepsRoute-trans (some r) none c f g = cc
KeepsRoute-trans (some r) (some r') c f g = g ∙ f

KeepsClaim-refl : (c : Option Claim) → KeepsClaim c c
KeepsClaim-refl none = tt
KeepsClaim-refl (some c) =
    (c, refl, record { connection = refl; index = refl; route = KeepsRoute-refl c.route })

KeepsClaim-trans : (a b c : Option Claim) → KeepsClaim a b → KeepsClaim b c → KeepsClaim a c
KeepsClaim-trans none b c f g = tt
KeepsClaim-trans (some x) none c (d, e, s) g = cc
KeepsClaim-trans (some x) (some y) c (d, e, s) (d', e', s') =
    let same : y ≡ d = cc e in
    (
      d',
      e',
      record {
        connection = s'.connection ∙ ap (λ z. z.connection_id) same ∙ s.connection;
        index = s'.index ∙ ap (λ z. z.request_index) same ∙ s.index;
        route =
            KeepsRoute-trans x.route y.route d'.route
              (subst (λ z. KeepsRoute x.route z.route) (sym same) s.route) s'.route;
      },
    )

IsLater-trans : (t u w : Ticket) → IsLater t u → IsLater u w → IsLater t w
IsLater-trans t u w f g = record {
  reserved = g.reserved ∙ f.reserved;
  target = g.target ∙ f.target;
  claim = KeepsClaim-trans t.claim u.claim w.claim f.claim g.claim;
}

pub IsLater-refl : (t : Ticket) → IsLater t t
IsLater-refl t = record { reserved = refl; target = refl; claim = KeepsClaim-refl t.claim }

pub Follows-refl : (o : Option Ticket) → Follows o o
Follows-refl none = refl
Follows-refl (some t) = IsLater-refl t

Follows-none : (o : Option Ticket) → Follows o none
Follows-none none = refl
Follows-none (some t) = tt

pub Follows-trans : (a b c : Option Ticket) → Follows a b → Follows b c → Follows a c
Follows-trans none b c f g = subst (λ x. Follows x c) f g
Follows-trans (some t) none c f g = subst (Follows (some t)) (sym g) tt
Follows-trans (some t) (some u) none f g = tt
Follows-trans (some t) (some u) (some w) f g = IsLater-trans t u w f g

Follows-eq : (a b : Option Ticket) → b ≡ a → Follows a b
Follows-eq a b e = subst (Follows a) (sym e) (Follows-refl a)

pub expire-Follows :
    (now : ℕ) (token : Text) (s : Tickets)
    → IsTickets s
    → Follows (find_ticket token s.entries) (find_ticket token (expire now s).entries)
unfolding expire
expire-Follows now token s v = elim (retained-cases now token s.entries v.once) [
  | inl gone ↦
      subst (Follows (find_ticket token s.entries)) (sym gone)
        (Follows-none (find_ticket token s.entries))
  | inr same ↦ Follows-eq (find_ticket token s.entries) _ same
]

text_eq-ne : (a b : Text) → text_eq a b ≡ false → a ≢ b
text_eq-ne a b other = λ e. let same = (text_eq_iff a b).1 e in cc

erase_ticket-Follows :
    (k token : Text) (es : List (Text × Ticket))
    → Follows (find_ticket token es) (find_ticket token (erase_ticket k es))
erase_ticket-Follows k token es = elim (Bool-cases (text_eq k token)) [
  | inl same ↦
      subst (Follows (find_ticket token es))
        (sym (
          subst (λ j. find_ticket token (erase_ticket j es) ≡ none)
            (sym ((text_eq_iff k token).0 same)) (find_ticket-erase_self token es)))
        (Follows-none (find_ticket token es))
  | inr other ↦
      Follows-eq (find_ticket token es) _
        (find_ticket-erase_ne k token es (text_eq-ne k token other))
]

pub modify_ticket-Follows :
    (k token : Text) (f : Ticket → Ticket) (es : List (Text × Ticket))
    → ((t : Ticket) → find_ticket k es ≡ some t → IsLater t (f t))
    → Follows (find_ticket token es) (find_ticket token (modify_ticket k f es))
modify_ticket-Follows k token f es later = elim (Bool-cases (text_eq k token)) [
  | inr other ↦
      Follows-eq (find_ticket token es) _
        (find_ticket-modify_ne k token f es (text_eq-ne k token other))
  | inl same ↦ elim (Option-cases (find_ticket token es)) [
    | inl gone ↦ rw (gone, find_ticket-modify_none k token f es gone) refl
    | inr (t, there) ↦
        let key : k ≡ token = (text_eq_iff k token).0 same in
        let changed : find_ticket token (modify_ticket k f es) ≡ some (f t) =
          subst (λ j. find_ticket token (modify_ticket j f es) ≡ some (f t)) (sym key)
            (find_ticket-modify_self token f es t there) in
        rw (there, changed) (later t (subst (λ j. find_ticket j es ≡ some t) (sym key) there))
  ]
]

pub insert_reserved-Follows :
    (nonce token : Text) (now : ℕ) (r : Result ProbeError (Target × Text)) (s : Tickets)
    → IsIssued token s.sequence
    → Ensures (IsReservation nonce s) r
    → Follows (find_ticket token s.entries) (find_ticket token (insert_reserved now r s).1.entries)
unfolding insert_reserved
insert_reserved-Follows nonce token now (err e) s issued h =
    Follows-refl (find_ticket token s.entries)
insert_reserved-Follows nonce token now (ok (target, fresh)) s issued h =
    let p : IsReservation nonce s (target, fresh) = h.holds (target, fresh) refl in
    Follows-eq (find_ticket token s.entries) _ (
      find_ticket-put_ne fresh token (record { reserved = now; target = target; claim = none })
        s.entries
        (λ e. new_token-ne token nonce p.random s.sequence issued p.next (sym p.token ∙ e)))

pub erase_checked-Follows :
    (k token : Text) (r : Result ProbeError Ticket) (s : Tickets)
    → Follows (find_ticket token s.entries) (find_ticket token (erase_checked k r s).1.entries)
unfolding erase_checked
erase_checked-Follows k token (err e) s = Follows-refl (find_ticket token s.entries)
erase_checked-Follows k token (ok t) s = erase_ticket-Follows k token s.entries

some_injective : {t u : Ticket} → ◌≡◌ {A = Option Ticket} (some t) (some u) → t ≡ u
some_injective e = cc

-- The ticket that `claim_probe` finds has no claim, and the target that it was reserved for.
pub record IsClaimable (token : Text) (s : Tickets) (t : Ticket) : Type 0 where
  pub there : find_ticket token s.entries ≡ some t
  pub free : t.claim ≡ none

claim-none : (c : Option Claim) → not (is_some c) ≡ true → c ≡ none
claim-none none h = refl
claim-none (some c) h = cc

pub claimable-IsClaimable :
    (nonce token : Text) (target : Target) (s : Tickets)
    → Ensures (IsClaimable token s) (claimable nonce token target s)
unfolding claimable
claimable-IsClaimable nonce token target s = Ensures-any (validate_token nonce token) _ λ u proper.
    Ensures-any (normalized target) _ λ normal valid.
      Ensures-any (ok_or missing (find_ticket token s.entries)) _ λ t found.
        Ensures-guard (not (is_some t.claim)) consumed _ λ free.
          Ensures-guard (target_eq t.target normal) wrong_target _ λ same.
            Ensures-pure (IsClaimable token s) t (record {
              there = ok_or-some missing (find_ticket token s.entries) found;
              free = claim-none t.claim free;
            })

set_claim-IsLater : (c : Claim) (t : Ticket) → t.claim ≡ none → IsLater t (set_claim c t)
unfolding set_claim
set_claim-IsLater c t free = record {
  reserved = refl;
  target = refl;
  claim = subst (λ x. KeepsClaim x (some c)) (sym free) tt;
}

pub claim_checked-Follows :
    (k token : Text) (c : Claim) (r : Result ProbeError Ticket) (s : Tickets)
    → Ensures (IsClaimable k s) r
    → Follows (find_ticket token s.entries) (find_ticket token (claim_checked k c r s).1.entries)
unfolding claim_checked
claim_checked-Follows k token c (err e) s h = Follows-refl (find_ticket token s.entries)
claim_checked-Follows k token c (ok t) s h =
    let p : IsClaimable k s t = h.holds t refl in
    modify_ticket-Follows k token (set_claim c) s.entries (λ u there.
      set_claim-IsLater c u
        (subst (λ x. x.claim ≡ none) (some_injective (sym p.there ∙ there)) p.free))

first_route-KeepsRoute : (r : Option (ℕ × ℕ)) (route : ℕ × ℕ) → KeepsRoute r (first_route r route)
unfolding first_route
first_route-KeepsRoute none route = tt
first_route-KeepsRoute (some r) route = refl

route_claim-KeepsClaim : (route : ℕ × ℕ) (c : Option Claim) → KeepsClaim c (route_claim route c)
unfolding route_claim first_route
route_claim-KeepsClaim route none = tt
route_claim-KeepsClaim route (some c) = (
  record c { route = first_route c.route route },
  refl,
  record { connection = refl; index = refl; route = first_route-KeepsRoute c.route route },
)

pub route_ticket-IsLater : (route : ℕ × ℕ) (t : Ticket) → IsLater t (route_ticket route t)
unfolding route_ticket
route_ticket-IsLater route t = record {
  reserved = refl;
  target = refl;
  claim = route_claim-KeepsClaim route t.claim;
}

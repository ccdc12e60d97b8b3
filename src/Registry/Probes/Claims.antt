-- ===== src/Registry/Probes/Claims.antt =====
-- Runs of calls of src/connection/probes.rs: a token is claimed at most once.
use zc.Prelude.{
  ℕ, ◌≤◌, ◌≡◌, ◌≢◌, refl, sym, ◌∙◌, subst, Option, none, some, List, [], ◌∷◌, inl, inr, arith, All,
  Result, ok, err, Ensures, if-cases,
}
use zc.Prelude.Text.{Text, text_eq, text_eq_iff}
use zc.Target.{Target}
use zc.Registry.State.{format_id}
use zc.Registry.Probes.{
  ProbeError, Claim, Ticket, Tickets, find_ticket, expire, reservation, insert_reserved,
  reserve_probe, checked_ticket, erase_checked, release_probe, claimable, set_claim, claim_checked,
  claim_probe, route_ticket, routed, view_probe, Call, reserve_call, release_call, view_call,
  claim_call, routed_call, run_call, run_calls,
}
use zc.Registry.Probes.Tokens.{IsIssued, IsIssued-le}
use zc.Registry.Probes.Entries.{find_ticket-modify_self}
use zc.Registry.Probes.Valid.{
  IsTickets, IsTicket, expire-IsTickets, reservation-IsReservation, run_call-IsTickets, no_tickets,
  run_calls-IsTickets, run_calls-keeps,
}
use zc.Registry.Probes.History.{
  KeepsClaim, Follows, Follows-refl, Follows-trans, expire-Follows, modify_ticket-Follows,
  insert_reserved-Follows, erase_checked-Follows, claimable-IsClaimable, claim_checked-Follows,
  route_ticket-IsLater, IsClaimable,
}

run_call-Follows :
    (nonce token : Text) (call : Call) (s : Tickets)
    → IsTickets s
    → IsIssued token s.sequence
    → Follows (find_ticket token s.entries) (find_ticket token (run_call nonce call s).entries)
unfolding run_call reserve_probe release_probe view_probe claim_probe routed expire
run_call-Follows nonce token (reserve_call target random now) s v issued =
    Follows-trans (find_ticket token s.entries) (find_ticket token (expire now s).entries) _
      (expire-Follows now token s v)
      (insert_reserved-Follows nonce token now (reservation nonce target random (expire now s))
        (expire now s) issued (reservation-IsReservation nonce target random (expire now s)))
run_call-Follows nonce token (release_call k now) s v issued =
    Follows-trans (find_ticket token s.entries) (find_ticket token (expire now s).entries) _
      (expire-Follows now token s v)
      (erase_checked-Follows k token (checked_ticket nonce k (expire now s)) (expire now s))
run_call-Follows nonce token (view_call k now) s v issued = expire-Follows now token s v
run_call-Follows nonce token (claim_call number k target index now) s v issued =
    Follows-trans (find_ticket token s.entries) (find_ticket token (expire now s).entries) _
      (expire-Follows now token s v)
      (claim_checked-Follows k token
        (record { connection_id = format_id nonce number; request_index = index; route = none })
        (claimable nonce k target (expire now s)) (expire now s)
        (claimable-IsClaimable nonce k target (expire now s)))
run_call-Follows nonce token (routed_call k route now) s v issued =
    Follows-trans (find_ticket token s.entries) (find_ticket token (expire now s).entries) _
      (expire-Follows now token s v)
      (modify_ticket-Follows k token (route_ticket route) (expire now s).entries
        (λ t there. route_ticket-IsLater route t))

insert_reserved-sequence :
    (now : ℕ) (r : Result ProbeError (Target × Text)) (s : Tickets)
    → s.sequence ≤ (insert_reserved now r s).1.sequence
unfolding insert_reserved
insert_reserved-sequence now (err e) s = omega arith
insert_reserved-sequence now (ok r) s = omega arith

erase_checked-sequence :
    (k : Text) (r : Result ProbeError Ticket) (s : Tickets)
    → s.sequence ≤ (erase_checked k r s).1.sequence
unfolding erase_checked
erase_checked-sequence k (err e) s = omega arith
erase_checked-sequence k (ok t) s = omega arith

claim_checked-sequence :
    (k : Text) (c : Claim) (r : Result ProbeError Ticket) (s : Tickets)
    → s.sequence ≤ (claim_checked k c r s).1.sequence
unfolding claim_checked
claim_checked-sequence k c (err e) s = omega arith
claim_checked-sequence k c (ok t) s = omega arith

run_call-sequence :
    (nonce : Text) (call : Call) (s : Tickets) → s.sequence ≤ (run_call nonce call s).sequence
unfolding run_call reserve_probe release_probe view_probe claim_probe routed expire
run_call-sequence nonce (reserve_call target random now) s =
    insert_reserved-sequence now (reservation nonce target random (expire now s)) (expire now s)
run_call-sequence nonce (release_call k now) s =
    erase_checked-sequence k (checked_ticket nonce k (expire now s)) (expire now s)
run_call-sequence nonce (view_call k now) s = omega arith
run_call-sequence nonce (claim_call number k target index now) s =
    claim_checked-sequence k
      (record { connection_id = format_id nonce number; request_index = index; route = none })
      (claimable nonce k target (expire now s)) (expire now s)
run_call-sequence nonce (routed_call k route now) s = omega arith

run_calls-Follows_valid :
    (nonce token : Text) (calls : List Call) (s : Tickets)
    → IsTickets s
    → IsIssued token s.sequence
    → Follows (find_ticket token s.entries) (find_ticket token (run_calls nonce calls s).entries)
unfolding run_calls
run_calls-Follows_valid nonce token [] s v issued = Follows-refl (find_ticket token s.entries)
run_calls-Follows_valid nonce token (call ∷ calls) s v issued =
    Follows-trans (find_ticket token s.entries) (find_ticket token (run_call nonce call s).entries)
      _ (run_call-Follows nonce token call s v issued)
      (run_calls-Follows_valid nonce token calls (run_call nonce call s)
        (run_call-IsTickets nonce call s v)
        (IsIssued-le token s.sequence (run_call nonce call s).sequence
          (run_call-sequence nonce call s) issued))

find_ticket-IsTicket :
    (n : ℕ) (token : Text) (es : List (Text × Ticket)) (t : Ticket)
    → All (IsTicket n) es
    → find_ticket token es ≡ some t
    → IsIssued token n
unfolding find_ticket
find_ticket-IsTicket n token [] t h e = cc
find_ticket-IsTicket n token ((k, u) ∷ es) t (h, hs) e = elim (if-cases (text_eq k token) e) [
  | inl (same, e') ↦ subst (λ j. IsIssued j n) ((text_eq_iff k token).0 same) h.issued
  | inr (other, e') ↦ find_ticket-IsTicket n token es t hs e'
]

-- Claimed, or gone after it was.
abbrev IsTaken : Option Ticket → Type 0
IsTaken none = Unit {0}
IsTaken (some t) = (c : Claim) × (t.claim ≡ some c)

IsTaken-Follows : (a b : Option Ticket) → IsTaken a → Follows a b → IsTaken b
IsTaken-Follows none b h f = subst IsTaken (sym f) tt
IsTaken-Follows (some t) none h f = tt
IsTaken-Follows (some t) (some u) (c, e) f =
    let (d, later, same) = subst (λ x. KeepsClaim x u.claim) e f.claim in (d, later)

claim_checked-ok :
    (token : Text) (c : Claim) (r : Result ProbeError Ticket) (s : Tickets)
    → Ensures (IsClaimable token s) r
    → (claim_checked token c r s).0 ≡ ok tt
    → ((t : Ticket) × IsClaimable token s t)
      × IsTaken (find_ticket token (claim_checked token c r s).1.entries)
unfolding claim_checked set_claim
claim_checked-ok token c (err e) s h done = cc
claim_checked-ok token c (ok t) s h done =
    let p : IsClaimable token s t = h.holds t refl in
    (
      (t, p),
      subst IsTaken (sym (find_ticket-modify_self token (set_claim c) s.entries t p.there))
          (c, refl),
    )

none-ne : {c : Claim} → ◌≢◌ {A = Option Claim} none (some c)
none-ne = λ e. cc

claimed_cannot :
    (nonce token : Text) (number index now : ℕ) (target : Target) (s : Tickets)
    → IsTickets s
    → IsTaken (find_ticket token s.entries)
    → (claim_probe nonce number token target index now s).0 ≢ ok tt
unfolding claim_probe
claimed_cannot nonce token number index now target s v taken = λ done.
    let (found, more) =
      claim_checked-ok token
        (record { connection_id = format_id nonce number; request_index = index; route = none })
        (claimable nonce token target (expire now s)) (expire now s)
        (claimable-IsClaimable nonce token target (expire now s)) done in
    let (t, p) = found in
    let still =
      IsTaken-Follows (find_ticket token s.entries) (find_ticket token (expire now s).entries) taken
        (expire-Follows now token s v) in
    let (c, e) = subst IsTaken p.there still in none-ne (sym p.free ∙ e)

-- A token is claimed at most once: after any calls and a claim of it that succeeds, whatever calls
-- follow, at any time, no connection's claim of the same token succeeds.
pub claim_probe_once :
    (nonce token : Text) (before after : List Call) (number index now number' index' now' : ℕ)
    (target target' : Target)
    → (claim_probe nonce number token target index now (run_calls nonce before no_tickets)).0
      ≡ ok tt
    → (claim_probe nonce number' token target' index' now' (
        run_calls nonce after
          (claim_probe nonce number token target index now
            (run_calls nonce before no_tickets)).1)).0
      ≢ ok tt
unfolding claim_probe run_call expire
claim_probe_once nonce token before after number index now number' index' now' target target'
      first =
    let s = run_calls nonce before no_tickets in
    let v : IsTickets (run_calls nonce before no_tickets) = run_calls-IsTickets nonce before in
    let c : Claim = record {
      connection_id = format_id nonce number;
      request_index = index;
      route = none;
    } in
    let ((t, p), taken) =
      claim_checked-ok token c (claimable nonce token target (expire now s)) (expire now s)
        (claimable-IsClaimable nonce token target (expire now s)) first in
    let w : IsTickets (claim_probe nonce number token target index now s).1 =
      run_call-IsTickets nonce (claim_call number token target index now) s v in
    let issued : IsIssued token (claim_probe nonce number token target index now s).1.sequence =
      IsIssued-le token s.sequence (claim_probe nonce number token target index now s).1.sequence
        (run_call-sequence nonce (claim_call number token target index now) s)
        (find_ticket-IsTicket s.sequence token (expire now s).entries t
          (expire-IsTickets now s v).entries_valid p.there) in
    claimed_cannot nonce token number' index' now' target'
      (run_calls nonce after (claim_probe nonce number token target index now s).1)
      (run_calls-keeps nonce after (claim_probe nonce number token target index now s).1 w)
      (IsTaken-Follows
        (find_ticket token (claim_probe nonce number token target index now s).1.entries) _ taken
        (run_calls-Follows_valid nonce token after
          (claim_probe nonce number token target index now s).1 w issued))

run_calls-sequence :
    (nonce : Text) (calls : List Call) (s : Tickets)
    → s.sequence ≤ (run_calls nonce calls s).sequence
unfolding run_calls
run_calls-sequence nonce [] s = omega arith
run_calls-sequence nonce (call ∷ calls) s =
    omega (
      arith,
      run_call-sequence nonce call s,
      run_calls-sequence nonce calls (run_call nonce call s),
    )

-- What becomes of a ticket that stands after some calls, at two later points, with any calls in between: when it is
-- gone at the first point it is gone at the second, and where it stays it keeps its target, its time
-- and, once it is claimed, its connection, its request and its first route.
pub run_calls-Follows :
    (nonce token : Text) (before between after : List Call) (t : Ticket)
    → find_ticket token (run_calls nonce before no_tickets).entries ≡ some t
    → Follows
        (some t)
        (find_ticket token (run_calls nonce between (run_calls nonce before no_tickets)).entries)
      × Follows
          (find_ticket token (run_calls nonce between (run_calls nonce before no_tickets)).entries)
          (find_ticket token
            (run_calls nonce after
              (run_calls nonce between (run_calls nonce before no_tickets))).entries)
run_calls-Follows nonce token before between after t there =
    let s = run_calls nonce before no_tickets in
    let v : IsTickets (run_calls nonce before no_tickets) = run_calls-IsTickets nonce before in
    let issued = find_ticket-IsTicket s.sequence token s.entries t v.entries_valid there in
    let s' = run_calls nonce between s in
    (
      subst (λ x. Follows x (find_ticket token s'.entries)) there
          (run_calls-Follows_valid nonce token between s v issued),
      run_calls-Follows_valid nonce token after s' (run_calls-keeps nonce between s v)
          (IsIssued-le token s.sequence s'.sequence (run_calls-sequence nonce between s) issued),
    )

-- ===== src/Registry/Probes/Valid.antt =====
-- The invariant of the tickets of src/connection/probes.rs.
use zc.Prelude.{
  ℕ, suc, ◌-◌, ◌≤◌, ◌<◌, ◌≡◌, refl, sym, ap, ◌∙◌, subst, true, not, Option, none, List, [], ◌∷◌,
  length, leb, ltb, Bool-cases, inl, inr, arith, All, Result, ok, err, is_ok, Ensures, Ensures-pure,
  Ensures-guard, Ensures-bind, Ensures-any, Ensures-err, ok_or,
}
use zc.Prelude.Text.{Text, text_eq}
use zc.IpAddr.{parse_ip}
use zc.Target.{Target, TargetError, new}
use zc.Target.Names.{new-IsTarget}
use zc.Registry.State.{format_id}
use zc.Registry.Probes.{
  ProbeError, quota, unavailable, Claim, Ticket, Tickets, erase_ticket, put_ticket, modify_ticket,
  retained, retention, expire, canonical_host, or_invalid, normalized, new_token, reservation,
  insert_reserved, reserve_probe, checked_ticket, erase_checked, release_probe, claimable,
  set_claim, claim_checked, claim_probe, route_ticket, routed, view_probe, Call, reserve_call,
  release_call, view_call, claim_call, routed_call, run_call, run_calls, max_tickets,
}
use zc.Registry.Probes.Tokens.{IsIssued, IsIssued-le}
use zc.Registry.Probes.Entries.{
  IsMap, erase_ticket-IsMap, put_ticket-IsMap, modify_ticket-IsMap, retained-IsMap,
}

-- What holds of every entry.
pub record IsTicket (sequence : ℕ) (kt : Text × Ticket) : Type 0 where
  pub issued : IsIssued kt.0 sequence
  -- `Target::new` accepts the target.
  pub valid : is_ok (new kt.1.target.host kt.1.target.port) ≡ true

pub record IsTickets (s : Tickets) : Type 0 where
  pub few : length s.entries ≤ 256
  pub bounded : s.sequence ≤ 4294967295
  pub once : IsMap s.entries
  pub entries_valid : All (IsTicket s.sequence) s.entries

module _ (P : Text × Ticket → Type 0) where
  All-erase_ticket : (k : Text) (es : List (Text × Ticket)) → All P es → All P (erase_ticket k es)
  unfolding erase_ticket
  All-erase_ticket k [] h = tt
  All-erase_ticket k ((j, t) ∷ es) (h, hs) = elim (Bool-cases (text_eq j k)) [
    | inl same ↦ rw same (All-erase_ticket k es hs)
    | inr other ↦ rw other (h, All-erase_ticket k es hs)
  ]

  All-retained : (now : ℕ) (es : List (Text × Ticket)) → All P es → All P (retained now es)
  unfolding retained
  All-retained now [] h = tt
  All-retained now ((j, t) ∷ es) (h, hs) = elim (Bool-cases (ltb (now - t.reserved) retention)) [
    | inl young ↦ rw young (h, All-retained now es hs)
    | inr old ↦ rw old (All-retained now es hs)
  ]

  All-modify_ticket :
      (k : Text) (f : Ticket → Ticket) (es : List (Text × Ticket))
      → ((j : Text) (t : Ticket) → P (j, t) → P (j, f t))
      → All P es
      → All P (modify_ticket k f es)
  unfolding modify_ticket
  All-modify_ticket k f [] keeps h = tt
  All-modify_ticket k f ((j, t) ∷ es) keeps (h, hs) = elim (Bool-cases (text_eq j k)) [
    | inl same ↦ rw same (keeps j t h, All-modify_ticket k f es keeps hs)
    | inr other ↦ rw other (h, All-modify_ticket k f es keeps hs)
  ]

length-erase_ticket :
    (k : Text) (es : List (Text × Ticket)) → length (erase_ticket k es) ≤ length es
unfolding erase_ticket
length-erase_ticket k [] = omega arith
length-erase_ticket k ((j, t) ∷ es) = ground (arith, length-erase_ticket k es)

length-retained : (now : ℕ) (es : List (Text × Ticket)) → length (retained now es) ≤ length es
unfolding retained
length-retained now [] = omega arith
length-retained now ((j, t) ∷ es) = ground (arith, length-retained now es)

length-modify_ticket :
    (k : Text) (f : Ticket → Ticket) (es : List (Text × Ticket))
    → length (modify_ticket k f es) ≡ length es
unfolding modify_ticket
length-modify_ticket k f [] = refl
length-modify_ticket k f ((j, t) ∷ es) = ground (arith, length-modify_ticket k f es)

pub expire-IsTickets : (now : ℕ) (s : Tickets) → IsTickets s → IsTickets (expire now s)
unfolding expire
expire-IsTickets now s v = record {
  few = omega (arith, v.few, length-retained now s.entries);
  bounded = v.bounded;
  once = retained-IsMap now s.entries v.once;
  entries_valid = All-retained (IsTicket s.sequence) now s.entries v.entries_valid;
}

erase_checked-IsTickets :
    (token : Text) (r : Result ProbeError Ticket) (s : Tickets)
    → IsTickets s
    → IsTickets (erase_checked token r s).1
unfolding erase_checked
erase_checked-IsTickets token (err e) s v = v
erase_checked-IsTickets token (ok t) s v = record {
  few = omega (arith, v.few, length-erase_ticket token s.entries);
  bounded = v.bounded;
  once = erase_ticket-IsMap token s.entries v.once;
  entries_valid = All-erase_ticket (IsTicket s.sequence) token s.entries v.entries_valid;
}

modify-IsTickets :
    (token : Text) (f : Ticket → Ticket) (s : Tickets)
    → ((t : Ticket) → (f t).target ≡ t.target)
    → IsTickets s
    → IsTickets (record s { entries = modify_ticket token f s.entries })
modify-IsTickets token f s same v = record {
  few = omega (arith, v.few, length-modify_ticket token f s.entries);
  bounded = v.bounded;
  once = modify_ticket-IsMap token f s.entries v.once;
  entries_valid =
      All-modify_ticket (IsTicket s.sequence) token f s.entries
        (λ j t p. record {
          issued = p.issued;
          valid = subst (λ x. is_ok (new x.host x.port) ≡ true) (sym (same t)) p.valid;
        })
        v.entries_valid;
}

claim_checked-IsTickets :
    (token : Text) (c : Claim) (r : Result ProbeError Ticket) (s : Tickets)
    → IsTickets s
    → IsTickets (claim_checked token c r s).1
unfolding claim_checked set_claim
claim_checked-IsTickets token c (err e) s v = v
claim_checked-IsTickets token c (ok t) s v = modify-IsTickets token (set_claim c) s (λ t. refl) v

abbrev IsValid : Target → Type 0
IsValid t = is_ok (new t.host t.port) ≡ true

or_invalid-Ensures :
    {A : Type 0} {P : A → Type 0} (r : Result TargetError A)
    → ((a : A) → r ≡ ok a → P a)
    → Ensures P (or_invalid r)
unfolding or_invalid
or_invalid-Ensures {P = P} (ok a) h = Ensures-pure P a (h a refl)
or_invalid-Ensures (err e) h = Ensures-err _

new-IsValid : (host : Text) (port : ℕ) (t : Target) → new host port ≡ ok t → IsValid t
new-IsValid host port t e =
    let v = (new-IsTarget host port).holds t e in
    ap is_ok (ap (λ h. new h t.port) v.host_kept ∙ ap (new host) v.port_kept ∙ e)

normalized-IsValid : (t : Target) → Ensures IsValid (normalized t)
unfolding normalized
normalized-IsValid t =
    or_invalid-Ensures (new (canonical_host (parse_ip t.host) t.host) t.port)
      (λ n e. new-IsValid (canonical_host (parse_ip t.host) t.host) t.port n e)

-- What a reservation is made with.
pub record IsReservation (nonce : Text) (s : Tickets) (r : Target × Text) : Type 0 where
  pub random : List ℕ
  pub token : r.1 ≡ new_token nonce random (suc s.sequence)
  pub room : length s.entries < 256
  pub next : s.sequence < 4294967295
  pub target : IsValid r.0

pub reservation-IsReservation :
    (nonce : Text) (target : Target) (random : Option (List ℕ)) (s : Tickets)
    → Ensures (IsReservation nonce s) (reservation nonce target random s)
unfolding reservation
reservation-IsReservation nonce target random s =
    Ensures-bind (normalized target) _ (normalized-IsValid target) λ normal valid.
      Ensures-guard (not (leb max_tickets (length s.entries))) quota _ λ room.
        Ensures-guard (ltb s.sequence 4294967295) quota _ λ next.
          Ensures-any (ok_or unavailable random) _ λ drawn e.
            Ensures-pure (IsReservation nonce s) (normal, new_token nonce drawn (suc s.sequence))
              (record {
                random = drawn;
                token = refl;
                room = ground arith;
                next = ground arith;
                target = valid;
              })

IsTicket-le : (n m : ℕ) (kt : Text × Ticket) → n ≤ m → IsTicket n kt → IsTicket m kt
IsTicket-le n m kt h v = record { issued = IsIssued-le kt.0 n m h v.issued; valid = v.valid }

All-map :
    {P Q : Text × Ticket → Type 0} (es : List (Text × Ticket))
    → ((kt : Text × Ticket) → P kt → Q kt)
    → All P es
    → All Q es
All-map [] f h = tt
All-map (e ∷ es) f (h, hs) = (f e h, All-map es f hs)

insert_reserved-IsTickets :
    (nonce : Text) (now : ℕ) (r : Result ProbeError (Target × Text)) (s : Tickets)
    → IsTickets s
    → Ensures (IsReservation nonce s) r
    → IsTickets (insert_reserved now r s).1
unfolding insert_reserved put_ticket
insert_reserved-IsTickets nonce now (err e) s v h = v
insert_reserved-IsTickets nonce now (ok (target, token)) s v h =
    let p : IsReservation nonce s (target, token) = h.holds (target, token) refl in
    record {
      few = omega (arith, p.room, length-erase_ticket token s.entries);
      bounded = omega (arith, p.next);
      once =
          put_ticket-IsMap token (record { reserved = now; target = target; claim = none })
            s.entries v.once;
      entries_valid = (
        record {
          issued = record {
            nonce = nonce;
            random = p.random;
            number = suc s.sequence;
            given = omega arith;
            written = p.token;
          };
          valid = p.target;
        },
        All-erase_ticket (IsTicket (suc s.sequence)) token s.entries (
            All-map s.entries (λ kt. IsTicket-le s.sequence (suc s.sequence) kt (omega arith))
              v.entries_valid),
      );
    }

pub run_call-IsTickets :
    (nonce : Text) (call : Call) (s : Tickets) → IsTickets s → IsTickets (run_call nonce call s)
unfolding run_call reserve_probe release_probe view_probe claim_probe routed route_ticket expire
run_call-IsTickets nonce (reserve_call target random now) s v =
    insert_reserved-IsTickets nonce now (reservation nonce target random (expire now s))
      (expire now s) (expire-IsTickets now s v)
      (reservation-IsReservation nonce target random (expire now s))
run_call-IsTickets nonce (release_call token now) s v =
    erase_checked-IsTickets token (checked_ticket nonce token (expire now s)) (expire now s)
      (expire-IsTickets now s v)
run_call-IsTickets nonce (view_call token now) s v = expire-IsTickets now s v
run_call-IsTickets nonce (claim_call number token target index now) s v =
    claim_checked-IsTickets token
      (record { connection_id = format_id nonce number; request_index = index; route = none })
      (claimable nonce token target (expire now s)) (expire now s) (expire-IsTickets now s v)
run_call-IsTickets nonce (routed_call token route now) s v =
    modify-IsTickets token (route_ticket route) (expire now s) (λ t. refl)
      (expire-IsTickets now s v)

abbrev pub no_tickets : Tickets
no_tickets = record { sequence = 0; entries = [] }

pub run_calls-keeps :
    (nonce : Text) (calls : List Call) (s : Tickets)
    → IsTickets s
    → IsTickets (run_calls nonce calls s)
unfolding run_calls
run_calls-keeps nonce [] s v = v
run_calls-keeps nonce (call ∷ calls) s v =
    run_calls-keeps nonce calls (run_call nonce call s) (run_call-IsTickets nonce call s v)

-- After any calls there are at most 256 tickets, each token stands once and has a number of at most 32
-- bits that was given out, and `Target::new` accepts every ticket's target.
pub run_calls-IsTickets :
    (nonce : Text) (calls : List Call) → IsTickets (run_calls nonce calls no_tickets)
run_calls-IsTickets nonce calls =
    run_calls-keeps nonce calls no_tickets
      (record { few = omega arith; bounded = omega arith; once = tt; entries_valid = tt })

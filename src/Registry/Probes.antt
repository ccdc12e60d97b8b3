-- ===== src/Registry/Probes.antt =====
-- The request tickets of src/connection/probes.rs. The lock is held through a call, and each call takes
-- the time at which it expires old tickets, in nanoseconds. The random source gives 12 bytes or fails.
pub mod Tokens
pub mod Entries
pub mod Valid
pub mod History
pub mod Claims
pub mod Tests
use zc.Prelude.{
  ℕ, zero, suc, ◌+◌, ◌-◌, ◌/◌, ◌%◌, ◌^◌, Bool, true, false, not, ◌&&◌, ◌||◌, Option, none, some,
  List, [], ◌∷◌, ◌++◌, length, all, leb, ltb, ◌==◌, is_some, if◌then◌else◌, Result, ok, err, ◌>>=◌,
  ◌>>◌, guard, ok_or,
}
use zc.Prelude.Text.{Text, text_eq, is_digit, lowercase, split_once}
use zc.IpAddr.{IpAddr, parse_ip}
use zc.IpAddr.Display.{show_ip}
use zc.Target.{Target, TargetError, new}
use zc.Registry.State.{format_id}

abbrev pub max_tickets : ℕ
max_tickets = 256

abbrev pub retention : ℕ
retention = 120000000000

pub data ProbeError : Type 0 where
  invalid instance_changed missing consumed wrong_target quota unavailable : ProbeError

pub record Claim : Type 0 where
  pub connection_id : Text
  pub request_index : ℕ
  pub route : Option (ℕ × ℕ)

pub record Ticket : Type 0 where
  pub reserved : ℕ
  pub target : Target
  pub claim : Option Claim

-- The order of the map's keys is never seen.
pub record Tickets : Type 0 where
  pub sequence : ℕ
  pub entries : List (Text × Ticket)

unfoldable pub find_ticket : Text → List (Text × Ticket) → Option Ticket
unfolding text_eq
find_ticket token [] = none
find_ticket token ((k, t) ∷ entries) =
    let rest = find_ticket token entries in if text_eq k token then some t else rest

unfoldable pub erase_ticket : Text → List (Text × Ticket) → List (Text × Ticket)
unfolding text_eq
erase_ticket token [] = []
erase_ticket token ((k, t) ∷ entries) =
    let rest = erase_ticket token entries in if text_eq k token then rest else (k, t) ∷ rest

-- `insert`
unfoldable pub put_ticket : Text → Ticket → List (Text × Ticket) → List (Text × Ticket)
unfolding erase_ticket
put_ticket token t entries = (token, t) ∷ erase_ticket token entries

-- A change through `get_mut`.
unfoldable pub modify_ticket :
    Text → (Ticket → Ticket) → List (Text × Ticket) → List (Text × Ticket)
unfolding text_eq
modify_ticket token f [] = []
modify_ticket token f ((k, t) ∷ entries) =
    let rest = modify_ticket token f entries in
    if text_eq k token then (k, f t) ∷ rest else (k, t) ∷ rest

-- `duration_since` is zero for a later time, as the subtraction here.
unfoldable pub retained : ℕ → List (Text × Ticket) → List (Text × Ticket)
retained now [] = []
retained now ((k, t) ∷ entries) =
    let rest = retained now entries in
    if ltb (now - t.reserved) retention then (k, t) ∷ rest else rest

unfoldable pub expire : ℕ → Tickets → Tickets
unfolding retained
expire now s = record s { entries = retained now s.entries }

-- The host in the form in which tickets are compared.
unfoldable pub canonical_host : Option IpAddr → Text → Text
unfolding show_ip lowercase
canonical_host none host = lowercase host
canonical_host (some ip) host = show_ip ip

unfoldable pub or_invalid : {A : Type 0} → Result TargetError A → Result ProbeError A
or_invalid (ok a) = ok a
or_invalid (err e) = err invalid

unfoldable pub normalized : Target → Result ProbeError Target
unfolding canonical_host parse_ip new or_invalid
normalized t = or_invalid (new (canonical_host (parse_ip t.host) t.host) t.port)

unfoldable pub is_hex_text : Text → Bool
unfolding is_digit
is_hex_text s = length s == 32 && all (λ b. is_digit b || (leb b'a' b && leb b b'f')) s

unfoldable pub validate_token : Text → Text → Result ProbeError (Unit {0})
unfolding split_once is_hex_text text_eq
validate_token nonce token = do
  (own, random) ← ok_or invalid (split_once b'.' token)
  guard (is_hex_text own && is_hex_text random) invalid
  guard (text_eq own nonce) instance_changed
  ok tt

unfoldable pub hex_digit : ℕ → ℕ
hex_digit n = if ltb n 10 then n + b'0' else n - 10 + b'a'

-- `{:02x}` and `{:08x}` of a number that fits.
unfoldable pub hex_digits : ℕ → ℕ → Text
unfolding hex_digit
hex_digits zero n = []
hex_digits (suc width) n = hex_digits width (n / 16) ++ hex_digit (n % 16) ∷ []

unfoldable pub hex_bytes : List ℕ → Text
unfolding hex_digits
hex_bytes [] = []
hex_bytes (b ∷ bs) = hex_digits 2 b ++ hex_bytes bs

unfoldable pub new_token : Text → List ℕ → ℕ → Text
unfolding hex_bytes hex_digits
new_token nonce random sequence = (nonce ++ b'.' ∷ hex_bytes random) ++ hex_digits 8 sequence

-- What `reserve_probe` decides before it changes the tickets: the target and the token.
unfoldable pub reservation :
    Text → Target → Option (List ℕ) → Tickets → Result ProbeError (Target × Text)
unfolding normalized new_token
reservation nonce target random s = do
  normal ← normalized target
  guard (not (leb max_tickets (length s.entries))) quota
  guard (ltb s.sequence 4294967295) quota
  drawn ← ok_or unavailable random
  ok (normal, new_token nonce drawn (suc s.sequence))

unfoldable pub insert_reserved :
    ℕ → Result ProbeError (Target × Text) → Tickets → Result ProbeError Text × Tickets
unfolding put_ticket
insert_reserved now (err e) s = (err e, s)
insert_reserved now (ok (target, token)) s = (
  ok token,
  record {
    sequence = suc s.sequence;
    entries = put_ticket token (record { reserved = now; target = target; claim = none }) s.entries;
  },
)

unfoldable pub reserve_probe :
    Text → Target → Option (List ℕ) → ℕ → Tickets → Result ProbeError Text × Tickets
unfolding expire reservation insert_reserved
reserve_probe nonce target random now s =
    insert_reserved now (reservation nonce target random (expire now s)) (expire now s)

-- The ticket of a token that passes the checks.
unfoldable pub checked_ticket : Text → Text → Tickets → Result ProbeError Ticket
unfolding validate_token find_ticket
checked_ticket nonce token s = do
  validate_token nonce token
  ok_or missing (find_ticket token s.entries)

unfoldable pub erase_checked :
    Text → Result ProbeError Ticket → Tickets → Result ProbeError (Unit {0}) × Tickets
unfolding erase_ticket
erase_checked token (err e) s = (err e, s)
erase_checked token (ok t) s = (ok tt, record s { entries = erase_ticket token s.entries })

unfoldable pub release_probe : Text → Text → ℕ → Tickets → Result ProbeError (Unit {0}) × Tickets
unfolding expire checked_ticket erase_checked
release_probe nonce token now s =
    erase_checked token (checked_ticket nonce token (expire now s)) (expire now s)

unfoldable pub target_eq : Target → Target → Bool
unfolding text_eq
target_eq a b = text_eq a.host b.host && a.port == b.port

-- The checks of `claim_probe`, in their order.
unfoldable pub claimable : Text → Text → Target → Tickets → Result ProbeError Ticket
unfolding validate_token normalized find_ticket target_eq
claimable nonce token target s = do
  validate_token nonce token
  normal ← normalized target
  t ← ok_or missing (find_ticket token s.entries)
  guard (not (is_some t.claim)) consumed
  guard (target_eq t.target normal) wrong_target
  ok t

unfoldable pub set_claim : Claim → Ticket → Ticket
set_claim c t = record t { claim = some c }

unfoldable pub claim_checked :
    Text → Claim → Result ProbeError Ticket → Tickets → Result ProbeError (Unit {0}) × Tickets
unfolding modify_ticket set_claim
claim_checked token c (err e) s = (err e, s)
claim_checked token c (ok t) s =
    (ok tt, record s { entries = modify_ticket token (set_claim c) s.entries })

-- `claim_probe` of the guard with that number; a probe that results holds the token.
unfoldable pub claim_probe :
    Text → ℕ → Text → Target → ℕ → ℕ → Tickets → Result ProbeError (Unit {0}) × Tickets
unfolding expire claimable claim_checked format_id
claim_probe nonce number token target index now s =
    claim_checked token
      (record { connection_id = format_id nonce number; request_index = index; route = none })
      (claimable nonce token target (expire now s)) (expire now s)

unfoldable pub first_route : Option (ℕ × ℕ) → ℕ × ℕ → Option (ℕ × ℕ)
first_route none route = some route
first_route (some old) route = some old

unfoldable pub route_claim : ℕ × ℕ → Option Claim → Option Claim
unfolding first_route
route_claim route none = none
route_claim route (some c) = some (record c { route = first_route c.route route })

unfoldable pub route_ticket : ℕ × ℕ → Ticket → Ticket
unfolding route_claim
route_ticket route t = record t { claim = route_claim route t.claim }

-- `Probe::routed`
unfoldable pub routed : Text → ℕ × ℕ → ℕ → Tickets → Tickets
unfolding expire modify_ticket route_ticket
routed token route now s = record s {
  entries = modify_ticket token (route_ticket route) (retained now s.entries);
}

-- The word that `write_probe` reports.
pub data ProbeState : Type 0 where
  reserved_state claimed_state routed_state : ProbeState

pub record View : Type 0 where
  pub state : ProbeState
  pub target : Target
  pub connection : Option (Text × ℕ)
  pub leaf : Option ℕ

unfoldable pub view_claim : Target → Option Claim → View
view_claim target none = record {
  state = reserved_state;
  target = target;
  connection = none;
  leaf = none;
}
view_claim target (some c) = record {
  state = elim c.route [ none ↦ claimed_state | some r ↦ routed_state ];
  target = target;
  connection = some (c.connection_id, c.request_index);
  leaf = elim c.route [ none ↦ none | some r ↦ some r.1 ];
}

-- `write_probe` before it writes: the view, with the leaf's number for the proxy.
unfoldable pub view_probe : Text → Text → ℕ → Tickets → Result ProbeError View × Tickets
unfolding expire checked_ticket view_claim
view_probe nonce token now s = (
  checked_ticket nonce token (expire now s) >>= λ t. ok (view_claim t.target t.claim),
  expire now s,
)

-- One call, by whatever task makes it.
pub data Call : Type 0 where
  reserve_call : Target → Option (List ℕ) → ℕ → Call
  release_call : Text → ℕ → Call
  view_call : Text → ℕ → Call
  claim_call : ℕ → Text → Target → ℕ → ℕ → Call
  routed_call : Text → ℕ × ℕ → ℕ → Call

unfoldable pub run_call : Text → Call → Tickets → Tickets
unfolding reserve_probe release_probe view_probe claim_probe routed
run_call nonce (reserve_call target random now) s = (reserve_probe nonce target random now s).1
run_call nonce (release_call token now) s = (release_probe nonce token now s).1
run_call nonce (view_call token now) s = (view_probe nonce token now s).1
run_call nonce (claim_call number token target index now) s =
    (claim_probe nonce number token target index now s).1
run_call nonce (routed_call token route now) s = routed token route now s

unfoldable pub run_calls : Text → List Call → Tickets → Tickets
unfolding run_call
run_calls nonce [] s = s
run_calls nonce (call ∷ calls) s = run_calls nonce calls (run_call nonce call s)

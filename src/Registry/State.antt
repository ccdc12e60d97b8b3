-- ===== src/Registry/State.antt =====
-- The registry of src/connection.rs: its entries, and each operation that changes them. The lock is
-- held through an operation, so that a run is a sequence of calls. `std`'s socket addresses are only
-- carried.
use zc.Prelude.{
  ℕ, suc, ◌-◌, ◌^◌, Bool, true, false, not, ◌||◌, Option, none, some, List, [], ◌∷◌, ◌++◌, length,
  all, leb, within, ◌==◌, if◌then◌else◌, Result, ok, err,
}
use zc.Prelude.Text.{Text, text_eq, is_digit, parse_uint, decimal, starts_with_byte, rsplit_once}
use zc.Prelude.Maps.{Map, find, put, erase, modify}
use zc.Target.{Target}

pub data Phase : Type 0 where
  handshake routing connecting active idle udp_wait rejected closing : Phase

pub data Protocol : Type 0 where
  tcp udp : Protocol

pub data Inbound : Type 0 where
  http_connect http_forward socks5_connect socks5_udp : Inbound

pub record SocketAddr : Type 0 where
  pub ip : List ℕ
  pub port : ℕ

-- `first_datagram` is the only scope.
pub data TargetScope : Type 0 where
  first_datagram : TargetScope

pub record Metadata : Type 0 where
  pub id : Text
  pub source : SocketAddr
  pub protocol : Protocol
  pub phase : Phase
  pub inbound : Option Inbound
  pub target : Option Target
  pub routed_target : Option Target
  pub datagram_source : Option SocketAddr
  pub target_scope : Option TargetScope

-- `cancel` is the last value of the watch channel.
pub record Entry : Type 0 where
  pub metadata : Metadata
  pub route : Option (ℕ × ℕ)
  pub cancel : Bool

pub record State : Type 0 where
  pub sequence : ℕ
  pub entries : Map Entry

abbrev pub empty : State
empty = record { sequence = 0; entries = [] }

abbrev pub max_connections : ℕ
max_connections = 1024

pub data CloseError : Type 0 where
  invalid instance_changed missing : CloseError

-- `format!("{nonce}-{sequence}")`
unfoldable pub format_id : Text → ℕ → Text
format_id nonce sequence = nonce ++ b'-' ∷ decimal sequence

unfoldable pub new_entry : Text → ℕ → SocketAddr → Entry
unfolding format_id
new_entry nonce sequence source = record {
  metadata = record {
    id = format_id nonce sequence;
    source = source;
    protocol = tcp;
    phase = handshake;
    inbound = none;
    target = none;
    routed_target = none;
    datagram_source = none;
    target_scope = none;
  };
  route = none;
  cancel = false;
}

-- `register`: the sequence number is the guard's.
unfoldable pub register : Text → SocketAddr → State → Option ℕ × State
unfolding new_entry put
register nonce source s =
    let sequence = suc s.sequence in
    if leb max_connections (length s.entries)
    then (none, s)
    else if leb (2 ^ 64) sequence
    then (none, s)
    else (
      some sequence,
      record {
        sequence = sequence;
        entries = put sequence (new_entry nonce sequence source) s.entries;
      },
    )

unfoldable pub is_hex : ℕ → Bool
unfolding is_digit
is_hex b = is_digit b || within b'a' b'f' b

-- The checks of `split_id` on the two parts.
unfoldable pub check_parts : Option (Text × Text) → Option (Text × ℕ)
unfolding is_hex is_digit starts_with_byte parse_uint
check_parts none = none
check_parts (some (nonce, sequence)) =
    if not (length nonce == 32)
      || not (all is_hex nonce)
      || starts_with_byte b'0' sequence
      || not (all is_digit sequence)
    then none
    else elim (parse_uint (2 ^ 64 - 1) sequence) [ none ↦ none | some n ↦ some (nonce, n) ]

unfoldable pub split_id : Text → Option (Text × ℕ)
unfolding rsplit_once check_parts
split_id id = check_parts (rsplit_once b'-' id)

unfoldable pub close_entry : Entry → Entry
close_entry e = record e { metadata = record e.metadata { phase = closing }; cancel = true }

-- `close`, after its id was taken apart.
unfoldable pub close_parts : Text → Option (Text × ℕ) → State → Result CloseError (Unit {0}) × State
unfolding text_eq find modify close_entry
close_parts nonce none s = (err invalid, s)
close_parts nonce (some (n, sequence)) s =
    if not (text_eq n nonce) then (err instance_changed, s) else elim (find sequence s.entries) [
      | none ↦ (err missing, s)
      | some e ↦ (ok tt, record s { entries = modify sequence close_entry s.entries })
    ]

unfoldable pub close : Text → Text → State → Result CloseError (Unit {0}) × State
unfolding split_id close_parts
close nonce id s = close_parts nonce (split_id id) s

abbrev pub is_closing : Phase → Bool
is_closing closing = true
is_closing _ = false

-- `Guard::update`: an entry that is closing is left alone.
unfoldable pub unless_closing : (Entry → Entry) → Entry → Entry
unless_closing change e = if is_closing e.metadata.phase then e else change e

unfoldable pub update : ℕ → (Entry → Entry) → State → State
unfolding modify unless_closing
update sequence change s = record s { entries = modify sequence (unless_closing change) s.entries }

-- The changes of `Guard::phase`, `inbound`, `target`, `routed` and `idle`.
unfoldable pub set_phase : Phase → Entry → Entry
set_phase phase e = record e { metadata = record e.metadata { phase = phase } }

unfoldable pub set_inbound : Inbound → Entry → Entry
set_inbound socks5_udp e = record e {
  metadata = record e.metadata { inbound = some socks5_udp; protocol = udp; phase = udp_wait };
}
set_inbound inbound e = record e { metadata = record e.metadata { inbound = some inbound } }

unfoldable pub scope_of : Option SocketAddr → Option TargetScope
scope_of none = none
scope_of (some a) = some first_datagram

unfoldable pub set_target : Target → Option SocketAddr → Inbound → Entry → Entry
unfolding scope_of
set_target target datagram_source inbound e = record e {
  metadata = record e.metadata {
    inbound = some inbound;
    target = some target;
    routed_target = none;
    phase = routing;
    datagram_source = datagram_source;
    target_scope = scope_of datagram_source;
  };
  route = none;
}

unfoldable pub set_routed : Target → ℕ → ℕ → Entry → Entry
set_routed target rule_index leaf_index e = record e {
  metadata = record e.metadata { routed_target = some target; phase = connecting };
  route = some (rule_index, leaf_index);
}

unfoldable pub set_idle : Entry → Entry
set_idle e = record e {
  metadata = record e.metadata { phase = idle; target = none; routed_target = none };
  route = none;
}

-- `Drop for Guard`
unfoldable pub drop_guard : ℕ → State → State
unfolding erase
drop_guard sequence s = record s { entries = erase sequence s.entries }

-- The calls that reach a registry. A guard's calls carry its sequence number.
pub data Call : Type 0 where
  register_call : SocketAddr → Call
  close_call : Text → Call
  phase_call : ℕ → Phase → Call
  inbound_call : ℕ → Inbound → Call
  target_call : ℕ → Target → Option SocketAddr → Inbound → Call
  routed_call : ℕ → Target → ℕ → ℕ → Call
  idle_call drop_call : ℕ → Call

unfoldable pub run_call : Text → Call → State → State
unfolding register close update set_phase set_inbound set_target set_routed set_idle drop_guard
run_call nonce (register_call source) s = (register nonce source s).1
run_call nonce (close_call id) s = (close nonce id s).1
run_call nonce (phase_call k phase) s = update k (set_phase phase) s
run_call nonce (inbound_call k inbound) s = update k (set_inbound inbound) s
run_call nonce (target_call k target source inbound) s =
    update k (set_target target source inbound) s
run_call nonce (routed_call k target rule leaf) s = update k (set_routed target rule leaf) s
run_call nonce (idle_call k) s = update k set_idle s
run_call nonce (drop_call k) s = drop_guard k s

unfoldable pub run_calls : Text → List Call → State → State
unfolding run_call
run_calls nonce [] s = s
run_calls nonce (call ∷ calls) s = run_calls nonce calls (run_call nonce call s)

-- ===== src/Registry/Tests.antt =====
-- The theorems on src/connection.rs at concrete calls.
use zc.Prelude.{
  ℕ, ◌≡◌, ◌≢◌, ◌<◌, refl, false, none, some, List, [], ◌∷◌, ◌++◌, replicate, arith, ok,
}
use zc.Prelude.Text.{Text, bytes, is_digit}
use zc.Prelude.Maps.{find}
use zc.Target.{Target}
use zc.Registry.State.{
  SocketAddr, Call, Entry, State, tcp, active, socks5_connect, register_call, phase_call,
  target_call, routed_call, drop_call, idle_call, empty, is_hex, format_id, register, close,
  split_id, run_calls,
}
use zc.Registry.Ids.{IsNonce, split_id-format_id}
use zc.Registry.Live.{IsRegistry, run_calls-IsRegistry, AllEntries}
use zc.Registry.Numbers.{register-lt}
use zc.Registry.Closing.{IsClosing, close-IsClosing}

abbrev nonce : Text
nonce = replicate 31 b'a' ++ b'7' ∷ []

nonce-IsNonce : IsNonce nonce
unfolding is_hex is_digit
nonce-IsNonce = record { length_32 = refl; hex = refl }

abbrev source : SocketAddr
source = record { ip = 127 ∷ 0 ∷ 0 ∷ 1 ∷ []; port = 40000 }

abbrev target : Target
target = record { host = bytes "example.com"; port = 443 }

abbrev opened : List Call
opened =
    register_call source
    ∷ register_call source
    ∷ target_call 2 target none socks5_connect
    ∷ routed_call 2 target 3 1
    ∷ phase_call 2 active
    ∷ drop_call 1
    ∷ []

empty-IsRegistry : IsRegistry nonce empty
unfolding AllEntries
empty-IsRegistry = record { bounded = omega arith; counted = omega arith; entries_valid = tt }

run_calls-IsRegistry_example : IsRegistry nonce (run_calls nonce opened empty)
run_calls-IsRegistry_example =
    run_calls-IsRegistry nonce opened empty (tt, (tt, (tt, (tt, (refl, (tt, tt))))))
      empty-IsRegistry

split_id-format_id_example : split_id (format_id nonce 1024) ≡ some (nonce, 1024)
split_id-format_id_example = split_id-format_id nonce 1024 nonce-IsNonce (omega arith) (omega arith)

abbrev live : State
live = run_calls nonce opened empty

abbrev entry : Entry
entry = record {
  metadata = record {
    id = format_id nonce 2;
    source = source;
    protocol = tcp;
    phase = active;
    inbound = some socks5_connect;
    target = some target;
    routed_target = some target;
    datagram_source = none;
    target_scope = none;
  };
  route = some (3, 1);
  cancel = false;
}

entry_2 : find 2 live.entries ≡ some entry
unfolding run_calls find
entry_2 = refl

one_ne : ◌≢◌ {A = ℕ} 1 2
one_ne e = omega (arith, e)

live-IsRegistry : IsRegistry nonce live
live-IsRegistry =
    run_calls-IsRegistry nonce opened empty (tt, (tt, (tt, (tt, (refl, (tt, tt))))))
      empty-IsRegistry

close-IsClosing_example :
    ((close nonce (format_id nonce 2) live).0 ≡ ok tt)
    × IsClosing 2 (
        run_calls nonce
          (phase_call 2 active ∷ drop_call 1 ∷ idle_call 2 ∷ [])
          (close nonce (format_id nonce 2) live).1)
close-IsClosing_example =
    close-IsClosing nonce 2 entry live (phase_call 2 active ∷ drop_call 1 ∷ idle_call 2 ∷ [])
      nonce-IsNonce live-IsRegistry entry_2 (refl, (tt, (tt, tt))) (tt, (one_ne, (tt, tt)))

register_3 : (register nonce source live).0 ≡ some 3
unfolding register run_calls
register_3 = refl

register_4 :
    (register nonce source (run_calls nonce (drop_call 3 ∷ []) (register nonce source live).1)).0
    ≡ some 4
unfolding register run_calls
register_4 = refl

register-lt_example : ◌<◌ 3 4
register-lt_example =
    register-lt nonce source source (drop_call 3 ∷ []) live 3 4 register_3 register_4

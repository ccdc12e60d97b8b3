-- ===== src/Registry/Probes/Tests.antt =====
-- Request tickets of src/connection/probes.rs at concrete values.
use zc.Prelude.{◌≡◌, ◌≢◌, refl, none, some, List, [], ◌∷◌, replicate, ok, err}
use zc.Prelude.Text.{Text, bytes}
use zc.Target.{Target}
use zc.Registry.Probes.{
  Call, reserve_call, routed_call, claim_probe, run_calls, new_token, find_ticket, Ticket,
  wrong_target,
}
use zc.Registry.Probes.Valid.{IsTickets, no_tickets, run_calls-IsTickets}
use zc.Registry.Probes.History.{Follows}
use zc.Registry.Probes.Claims.{claim_probe_once, run_calls-Follows}

abbrev nonce : Text
nonce = bytes "0123456789abcdef0123456789abcdef"

abbrev token : Text
token = bytes "0123456789abcdef0123456789abcdef.07070707070707070707070700000001"

abbrev site : Target
site = record { host = bytes "Example.com"; port = 443 }

abbrev lower_site : Target
lower_site = record { host = bytes "example.com"; port = 443 }

abbrev before : List Call
before = reserve_call site (some (replicate 12 7)) 1000 ∷ []

abbrev after : List Call
after = routed_call token (3, 2) 3000 ∷ routed_call token (5, 1) 4000 ∷ []

is_the_token : new_token nonce (replicate 12 7) 1 ≡ token
unfolding new_token
is_the_token = refl

claims : (claim_probe nonce 9 token lower_site 0 2000 (run_calls nonce before no_tickets)).0 ≡ ok tt
unfolding claim_probe run_calls
claims = refl

refuses_another_target :
    (claim_probe nonce 9 token
      (record { host = bytes "example.org"; port = 443 })
      0
      2000
      (run_calls nonce before no_tickets)).0
    ≡ err wrong_target
unfolding claim_probe run_calls
refuses_another_target = refl

claim_probe_once_example :
    (claim_probe nonce 4 token site 1 5000 (
      run_calls nonce after
        (claim_probe nonce 9 token lower_site 0 2000 (run_calls nonce before no_tickets)).1)).0
    ≢ ok tt
claim_probe_once_example =
    claim_probe_once nonce token before after 9 0 2000 4 1 5000 lower_site site claims

abbrev held : Ticket
held = record { reserved = 1000; target = lower_site; claim = none }

is_held : find_ticket token (run_calls nonce before no_tickets).entries ≡ some held
unfolding find_ticket run_calls
is_held = refl

run_calls-Follows_example :
    Follows
      (some held)
      (find_ticket token (run_calls nonce after (run_calls nonce before no_tickets)).entries)
    × Follows
        (find_ticket token (run_calls nonce after (run_calls nonce before no_tickets)).entries)
        (find_ticket token
          (run_calls nonce before
            (run_calls nonce after (run_calls nonce before no_tickets))).entries)
run_calls-Follows_example = run_calls-Follows nonce token before after before held is_held

run_calls-IsTickets_example : IsTickets (run_calls nonce before no_tickets)
run_calls-IsTickets_example = run_calls-IsTickets nonce before

-- ===== src/Dns.antt =====
-- src/dns.rs: bounded lookups.
pub mod Answers
pub mod Tests
use zc.Prelude.{
  ℕ, suc, ◌+◌, ◌-◌, ◌≤◌, Bool, true, false, not, ◌&&◌, ◌||◌, Option, none, some, List, [], ◌∷◌,
  length, take, is_empty, ltb, leb, if◌then◌else◌, Result, ok, err, ◌>>=◌, ◌>>◌, guard,
}
use zc.Prelude.Text.{Text}
use zc.IpAddr.{IpAddr, parse_ip}
use zc.Target.{Target}

abbrev pub limit : ℕ
limit = 64

pub data DnsError : Type 0 where
  busy lookup_failed bad_count timed_out no_servers too_many : DnsError

-- The sums that `validate_config` bounds: the connections of each name server, and the search list.
unfoldable pub total : List ℕ → ℕ
total [] = 0
total (n ∷ ns) = n + total ns

unfoldable pub validate_config : List ℕ → ℕ → Result DnsError (Unit {0})
unfolding total
validate_config connections search = do
  guard (not (is_empty connections)) no_servers
  guard (not (ltb limit (length connections) || ltb limit search || ltb limit (total connections)))
      too_many
  ok tt

-- The bounds on what the resolver answers.
unfoldable pub check_answer : List IpAddr → Result DnsError (List IpAddr)
check_answer found = do
  let addresses = take (limit + 1) found
  guard (not (is_empty addresses || ltb limit (length addresses))) bad_count
  ok addresses

-- `resolve_inner`. The resolver, with its timeout, is of another crate: it answers for a host. `acquired` is whether the
-- semaphore, of another crate too, gave two permits.
unfoldable pub resolve :
    (Text → Result DnsError (List IpAddr)) → Bool → Target → Result DnsError (List IpAddr)
unfolding parse_ip check_answer
resolve lookup acquired target = elim (parse_ip target.host) [
  | some ip ↦ ok (ip ∷ [])
  | none ↦ guard acquired busy >> (lookup target.host >>= check_answer)
]

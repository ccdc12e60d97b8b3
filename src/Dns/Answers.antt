-- ===== src/Dns/Answers.antt =====
-- What src/dns.rs answers.
use zc.Prelude.{
  Bool, ◌≤◌, ◌<◌, false, not, ◌||◌, List, [], ◌∷◌, length, take, ltb, Result, Ensures, Ensures-pure,
  Ensures-guard, Ensures-any, Ensures-err, arith, inl, inr, Option-cases,
}
use zc.IpAddr.{IpAddr, parse_ip}
use zc.Prelude.Text.{Text}
use zc.Target.{Target}
use zc.Dns.{DnsError, busy, bad_count, check_answer, resolve}

-- The bounds that callers rely on: they take the first address without a test.
abbrev pub IsAnswer : List IpAddr → Type 0
IsAnswer addresses = (0 < length addresses) × (length addresses ≤ 64)

check_answer-IsAnswer : (found : List IpAddr) → Ensures IsAnswer (check_answer found)
unfolding check_answer
check_answer-IsAnswer [] = Ensures-err bad_count
check_answer-IsAnswer (ip ∷ found) =
    Ensures-guard (not (false || ltb 64 (length (ip ∷ take 64 found)))) bad_count _
      λ few. Ensures-pure IsAnswer (ip ∷ take 64 found) (omega arith, ground arith)

-- An answer has from 1 to 64 addresses, whatever the resolver gives, and whether or not there were permits.
pub resolve-IsAnswer :
    (lookup : Text → Result DnsError (List IpAddr)) (acquired : Bool) (target : Target)
    → Ensures IsAnswer (resolve lookup acquired target)
unfolding resolve
resolve-IsAnswer lookup acquired target = elim (Option-cases (parse_ip target.host)) [
  | inr (ip, literal) ↦
      rw (literal, resolve) (Ensures-pure IsAnswer (ip ∷ []) (omega arith, omega arith))
  | inl name ↦
      rw (name, resolve)
        (Ensures-guard acquired busy _ λ room.
          Ensures-any (lookup target.host) check_answer λ found e. check_answer-IsAnswer found)
]

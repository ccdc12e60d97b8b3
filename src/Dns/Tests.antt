-- ===== src/Dns/Tests.antt =====
-- Lookups of src/dns.rs at concrete values.
use zc.Prelude.{true, ◌≡◌, refl, ok, List, [], ◌∷◌, Ensures, Result}
use zc.Prelude.Text.{Text, bytes}
use zc.IpAddr.{IpAddr, v4}
use zc.Target.{Target}
use zc.Dns.{DnsError, resolve}
use zc.Dns.Answers.{IsAnswer, resolve-IsAnswer}

abbrev found : Text → Result DnsError (List IpAddr)
found host = ok (v4 (93 ∷ 184 ∷ 216 ∷ 34 ∷ []) ∷ [])

abbrev site : Target
site = record { host = bytes "example.com"; port = 443 }

resolve-IsAnswer_example : Ensures IsAnswer (resolve found true site)
resolve-IsAnswer_example = resolve-IsAnswer found true site

answers : resolve found true site ≡ ok (v4 (93 ∷ 184 ∷ 216 ∷ 34 ∷ []) ∷ [])
unfolding resolve
answers = refl

-- ===== src/Target/Tests.antt =====
-- src/target.rs and its addresses at concrete texts.
use zc.Prelude.{◌≡◌, refl, none, some, [], ◌∷◌, ok, err, Ensures}
use zc.Prelude.Text.{bytes}
use zc.Target.Names.{IsTarget, new-IsTarget}
use zc.IpAddr.{v4, v6, parse_ip}
use zc.Target.{zero_port, not_a_name, new}

reads_v4 : parse_ip (bytes "10.0.255.3") ≡ some (v4 (10 ∷ 0 ∷ 255 ∷ 3 ∷ []))
unfolding parse_ip
reads_v4 = refl

refuses_leading_zeros : parse_ip (bytes "10.0.0.01") ≡ none
unfolding parse_ip
refuses_leading_zeros = refl

reads_v6 : parse_ip (bytes "2001:db8::7") ≡ some (v6 (8193 ∷ 3512 ∷ 0 ∷ 0 ∷ 0 ∷ 0 ∷ 0 ∷ 7 ∷ []))
unfolding parse_ip
reads_v6 = refl

reads_an_embedded_v4 :
    parse_ip (bytes "::ffff:1.2.3.4") ≡ some (v6 (0 ∷ 0 ∷ 0 ∷ 0 ∷ 0 ∷ 65535 ∷ 258 ∷ 772 ∷ []))
unfolding parse_ip
reads_an_embedded_v4 = refl

refuses_port_0 : new (bytes "a.example") 0 ≡ err zero_port
unfolding new
refuses_port_0 = refl

accepts_a_domain :
    new (bytes "a-1.example.") 80 ≡ ok (record { host = bytes "a-1.example."; port = 80 })
unfolding new
accepts_a_domain = refl

refuses_a_line_break : new (97 ∷ 10 ∷ 98 ∷ []) 80 ≡ err not_a_name
unfolding new
refuses_a_line_break = refl

new-IsTarget_example : Ensures (IsTarget (bytes "a-1.example.") 80) (new (bytes "a-1.example.") 80)
new-IsTarget_example = new-IsTarget (bytes "a-1.example.") 80

-- ===== src/IpAddr/Tests.antt =====
-- Addresses are read and written the way the standard library does.
use zc.Prelude.{◌≡◌, refl, [], ◌∷◌}
use zc.Prelude.Text.{bytes}
use zc.IpAddr.{v4, v6}
use zc.IpAddr.Display.{show_ip}

shows_v4 : show_ip (v4 (10 ∷ 0 ∷ 255 ∷ 3 ∷ [])) ≡ bytes "10.0.255.3"
unfolding show_ip
shows_v4 = refl

shows_v6 : show_ip (v6 (8193 ∷ 3512 ∷ 0 ∷ 0 ∷ 1 ∷ 0 ∷ 0 ∷ 0 ∷ [])) ≡ bytes "2001:db8:0:0:1::"
unfolding show_ip
shows_v6 = refl

shows_mapped : show_ip (v6 (0 ∷ 0 ∷ 0 ∷ 0 ∷ 0 ∷ 65535 ∷ 258 ∷ 772 ∷ [])) ≡ bytes "::ffff:1.2.3.4"
unfolding show_ip
shows_mapped = refl

shows_one_zero : show_ip (v6 (1 ∷ 0 ∷ 2 ∷ 3 ∷ 4 ∷ 5 ∷ 6 ∷ 7 ∷ [])) ≡ bytes "1:0:2:3:4:5:6:7"
unfolding show_ip
shows_one_zero = refl

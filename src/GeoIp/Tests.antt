-- ===== src/GeoIp/Tests.antt =====
-- The countries of addresses at concrete values.
use zc.Prelude.{◌≡◌, ◌+◌, ◌*◌, true, false, [], ◌∷◌}
use zc.Prelude.Text.{bytes}
use zc.IpAddr.{v4}
use zc.Config.Routing.{in_country}
use zc.GeoIp.{entries, geoip_country}
use zc.GeoIp.Shadowed.{First, count_of, is_shadowed, geoip_country-ne-tw}

geoip_country-ne-tw_example :
    (count_of (bytes "TW") entries ≡ 7)
    × (is_shadowed (bytes "TW") [] entries ≡ true)
    × First
        (1 * 16777216 + 160 * 65536 + 0 * 256 + 1)
        entries
        (geoip_country (v4 (1 ∷ 160 ∷ 0 ∷ 1 ∷ [])))
    × (in_country (bytes "TW") (v4 (1 ∷ 160 ∷ 0 ∷ 1 ∷ [])) ≡ false)
geoip_country-ne-tw_example = geoip_country-ne-tw 1 160 0 1

-- ===== src/GeoIp/Third.antt =====
-- The last part of the table in `geoip_country` of src/config.rs.
use zc.Prelude.{List, [], ◌∷◌}
use zc.Prelude.Text.{bytes}
use zc.GeoIp.Entry.{GeoEntry, entry}

abbrev pub ca_entries : List GeoEntry
ca_entries =
    entry 0x02000000 0x02ffffff (bytes "CA")
    ∷ entry 0x0a000000 0x0affffff (bytes "CA")
    ∷ entry 0x1c000000 0x1cffffff (bytes "CA")
    ∷ entry 0x1f000000 0x1fffffff (bytes "CA")
    ∷ entry 0x24000000 0x24ffffff (bytes "CA")
    ∷ entry 0x2f000000 0x2fffffff (bytes "CA")
    ∷ entry 0x3a000000 0x3affffff (bytes "CA")
    ∷ entry 0x47000000 0x47ffffff (bytes "CA")
    ∷ entry 0x4a000000 0x4affffff (bytes "CA")
    ∷ entry 0x54000000 0x55ffffff (bytes "CA")
    ∷ entry 0x63000000 0x63ffffff (bytes "CA")
    ∷ entry 0x64000000 0x65ffffff (bytes "CA")
    ∷ entry 0x69000000 0x69ffffff (bytes "CA")
    ∷ entry 0x6c000000 0x6cffffff (bytes "CA")
    ∷ entry 0x71000000 0x71ffffff (bytes "CA")
    ∷ entry 0x72000000 0x72ffffff (bytes "CA")
    ∷ entry 0x7d000000 0x7dffffff (bytes "CA")
    ∷ entry 0x80000000 0x80ffffff (bytes "CA")
    ∷ entry 0x84000000 0x84ffffff (bytes "CA")
    ∷ entry 0x86000000 0x86ffffff (bytes "CA")
    ∷ entry 0x8c000000 0x8cffffff (bytes "CA")
    ∷ entry 0x92000000 0x92ffffff (bytes "CA")
    ∷ entry 0x96000000 0x96ffffff (bytes "CA")
    ∷ entry 0x9a000000 0x9affffff (bytes "CA")
    ∷ entry 0xa3000000 0xa3ffffff (bytes "CA")
    ∷ entry 0xa6000000 0xa6ffffff (bytes "CA")
    ∷ entry 0xa7000000 0xa7ffffff (bytes "CA")
    ∷ entry 0xb2000000 0xb2ffffff (bytes "CA")
    ∷ entry 0xb4000000 0xb4ffffff (bytes "CA")
    ∷ entry 0xb8000000 0xb8ffffff (bytes "CA")
    ∷ entry 0xc2000000 0xc2ffffff (bytes "CA")
    ∷ entry 0xc3000000 0xc3ffffff (bytes "CA")
    ∷ entry 0xc4000000 0xc4ffffff (bytes "CA")
    ∷ entry 0xc5000000 0xc5ffffff (bytes "CA")
    ∷ entry 0xc7000000 0xc7ffffff (bytes "CA")
    ∷ entry 0xca000000 0xcaffffff (bytes "CA")
    ∷ entry 0xd4000000 0xd4ffffff (bytes "CA")
    ∷ entry 0xd6000000 0xd6ffffff (bytes "CA")
    ∷ []

abbrev pub nl_entries : List GeoEntry
nl_entries =
    entry 0x05000000 0x05ffffff (bytes "NL")
    ∷ entry 0x31000000 0x31ffffff (bytes "NL")
    ∷ entry 0x4d000000 0x4dffffff (bytes "NL")
    ∷ entry 0x81000000 0x81ffffff (bytes "NL")
    ∷ entry 0x83000000 0x83ffffff (bytes "NL")
    ∷ entry 0x91000000 0x91ffffff (bytes "NL")
    ∷ entry 0x94000000 0x94ffffff (bytes "NL")
    ∷ entry 0x9d000000 0x9dffffff (bytes "NL")
    ∷ entry 0xa2000000 0xa2ffffff (bytes "NL")
    ∷ entry 0xa9000000 0xa9ffffff (bytes "NL")
    ∷ entry 0xba000000 0xbaffffff (bytes "NL")
    ∷ entry 0xc0000000 0xc0ffffff (bytes "NL")
    ∷ entry 0xc1000000 0xc1ffffff (bytes "NL")
    ∷ entry 0xc2000000 0xc2ffffff (bytes "NL")
    ∷ entry 0xc3000000 0xc3ffffff (bytes "NL")
    ∷ []

abbrev pub in_entries : List GeoEntry
in_entries =
    entry 0x01000000 0x01ffffff (bytes "IN")
    ∷ entry 0x2f000000 0x2fffffff (bytes "IN")
    ∷ entry 0x59000000 0x59ffffff (bytes "IN")
    ∷ entry 0x61000000 0x61ffffff (bytes "IN")
    ∷ entry 0x9e000000 0x9effffff (bytes "IN")
    ∷ entry 0xa4000000 0xa4ffffff (bytes "IN")
    ∷ entry 0xc0000000 0xc0ffffff (bytes "IN")
    ∷ []

abbrev pub tw_entries : List GeoEntry
tw_entries =
    entry 0x01000000 0x01ffffff (bytes "TW")
    ∷ entry 0x3b400000 0x3b7fffff (bytes "TW")
    ∷ entry 0x57000000 0x57ffffff (bytes "TW")
    ∷ entry 0x61000000 0x61ffffff (bytes "TW")
    ∷ entry 0xa1000000 0xa1ffffff (bytes "TW")
    ∷ entry 0xce000000 0xceffffff (bytes "TW")
    ∷ entry 0xcf000000 0xcfffffff (bytes "TW")
    ∷ []

abbrev pub br_entries : List GeoEntry
br_entries =
    entry 0x01000000 0x01ffffff (bytes "BR")
    ∷ entry 0x5f000000 0x5fffffff (bytes "BR")
    ∷ entry 0x64000000 0x65ffffff (bytes "BR")
    ∷ entry 0x8d000000 0x8dffffff (bytes "BR")
    ∷ entry 0x96000000 0x96ffffff (bytes "BR")
    ∷ entry 0xa9000000 0xa9ffffff (bytes "BR")
    ∷ entry 0xb1000000 0xb1ffffff (bytes "BR")
    ∷ entry 0xb2000000 0xb2ffffff (bytes "BR")
    ∷ entry 0xb7000000 0xb7ffffff (bytes "BR")
    ∷ entry 0xbd000000 0xbdffffff (bytes "BR")
    ∷ entry 0xc0000000 0xc0ffffff (bytes "BR")
    ∷ entry 0xc1000000 0xc1ffffff (bytes "BR")
    ∷ entry 0xc2000000 0xc2ffffff (bytes "BR")
    ∷ entry 0xc3000000 0xc3ffffff (bytes "BR")
    ∷ entry 0xc4000000 0xc4ffffff (bytes "BR")
    ∷ entry 0xc5000000 0xc5ffffff (bytes "BR")
    ∷ entry 0xc7000000 0xc7ffffff (bytes "BR")
    ∷ entry 0xc8000000 0xc8ffffff (bytes "BR")
    ∷ entry 0xc9000000 0xc9ffffff (bytes "BR")
    ∷ entry 0xca000000 0xcaffffff (bytes "BR")
    ∷ entry 0xcb000000 0xcbffffff (bytes "BR")
    ∷ entry 0xcc000000 0xccffffff (bytes "BR")
    ∷ entry 0xcd000000 0xcdffffff (bytes "BR")
    ∷ entry 0xce000000 0xceffffff (bytes "BR")
    ∷ entry 0xcf000000 0xcfffffff (bytes "BR")
    ∷ []

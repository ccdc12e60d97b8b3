-- ===== src/GeoIp/Second.antt =====
-- The second part of the table in `geoip_country` of src/config.rs.
use zc.Prelude.{List, [], ◌∷◌}
use zc.Prelude.Text.{bytes}
use zc.GeoIp.Entry.{GeoEntry, entry}

abbrev pub ru_entries : List GeoEntry
ru_entries =
    entry 0x05000000 0x05ffffff (bytes "RU")
    ∷ entry 0x1f000000 0x1f1fffff (bytes "RU")
    ∷ entry 0x2d000000 0x2dffffff (bytes "RU")
    ∷ entry 0x5f000000 0x5fffffff (bytes "RU")
    ∷ entry 0x77000000 0x77ffffff (bytes "RU")
    ∷ entry 0x7b000000 0x7bffffff (bytes "RU")
    ∷ entry 0x85000000 0x85ffffff (bytes "RU")
    ∷ entry 0x8f000000 0x8fffffff (bytes "RU")
    ∷ entry 0x90000000 0x90ffffff (bytes "RU")
    ∷ entry 0x92000000 0x92ffffff (bytes "RU")
    ∷ entry 0x94000000 0x94ffffff (bytes "RU")
    ∷ entry 0x9d000000 0x9dffffff (bytes "RU")
    ∷ entry 0xb3000000 0xb3ffffff (bytes "RU")
    ∷ entry 0xb7000000 0xb7ffffff (bytes "RU")
    ∷ entry 0xc2000000 0xc2ffffff (bytes "RU")
    ∷ entry 0xc7000000 0xc7ffffff (bytes "RU")
    ∷ entry 0xcb000000 0xcbffffff (bytes "RU")
    ∷ entry 0xd4000000 0xd4ffffff (bytes "RU")
    ∷ entry 0xd8000000 0xd8ffffff (bytes "RU")
    ∷ []

abbrev pub gb_entries : List GeoEntry
gb_entries =
    entry 0x02000000 0x02ffffff (bytes "GB")
    ∷ entry 0x1e000000 0x1effffff (bytes "GB")
    ∷ entry 0x5c000000 0x5dffffff (bytes "GB")
    ∷ entry 0x81000000 0x81ffffff (bytes "GB")
    ∷ entry 0x8b000000 0x8bffffff (bytes "GB")
    ∷ entry 0xa3000000 0xa3ffffff (bytes "GB")
    ∷ entry 0xb1000000 0xb1ffffff (bytes "GB")
    ∷ entry 0xb2000000 0xb2ffffff (bytes "GB")
    ∷ entry 0xb3000000 0xb3ffffff (bytes "GB")
    ∷ entry 0xb8000000 0xb8ffffff (bytes "GB")
    ∷ entry 0xb9000000 0xb9ffffff (bytes "GB")
    ∷ entry 0xc3000000 0xc3ffffff (bytes "GB")
    ∷ entry 0xc4000000 0xc4ffffff (bytes "GB")
    ∷ []

abbrev pub de_entries : List GeoEntry
de_entries =
    entry 0x03000000 0x03ffffff (bytes "DE")
    ∷ entry 0x2f000000 0x2fffffff (bytes "DE")
    ∷ entry 0x4d000000 0x4dffffff (bytes "DE")
    ∷ entry 0x53000000 0x53ffffff (bytes "DE")
    ∷ entry 0x78000000 0x79ffffff (bytes "DE")
    ∷ entry 0x87000000 0x87ffffff (bytes "DE")
    ∷ entry 0x93000000 0x93ffffff (bytes "DE")
    ∷ entry 0xa0000000 0xa0ffffff (bytes "DE")
    ∷ entry 0xa4000000 0xa4ffffff (bytes "DE")
    ∷ entry 0xae000000 0xaeffffff (bytes "DE")
    ∷ entry 0xba000000 0xbaffffff (bytes "DE")
    ∷ entry 0xc3000000 0xc3ffffff (bytes "DE")
    ∷ []

abbrev pub fr_entries : List GeoEntry
fr_entries =
    entry 0x05000000 0x05ffffff (bytes "FR")
    ∷ entry 0x50000000 0x50ffffff (bytes "FR")
    ∷ entry 0x5a000000 0x5affffff (bytes "FR")
    ∷ entry 0x5f000000 0x5fffffff (bytes "FR")
    ∷ entry 0x81000000 0x81ffffff (bytes "FR")
    ∷ entry 0x83000000 0x83ffffff (bytes "FR")
    ∷ entry 0x88000000 0x88ffffff (bytes "FR")
    ∷ entry 0x89000000 0x89ffffff (bytes "FR")
    ∷ entry 0x90000000 0x90ffffff (bytes "FR")
    ∷ entry 0x93000000 0x93ffffff (bytes "FR")
    ∷ entry 0x9a000000 0x9affffff (bytes "FR")
    ∷ entry 0xa7000000 0xa7ffffff (bytes "FR")
    ∷ entry 0xa9000000 0xa9ffffff (bytes "FR")
    ∷ entry 0xbc000000 0xbcffffff (bytes "FR")
    ∷ entry 0xc0000000 0xc0ffffff (bytes "FR")
    ∷ []

abbrev pub au_entries : List GeoEntry
au_entries =
    entry 0x01000000 0x01ffffff (bytes "AU")
    ∷ entry 0x1e000000 0x1effffff (bytes "AU")
    ∷ entry 0x27000000 0x27ffffff (bytes "AU")
    ∷ entry 0x2e000000 0x2effffff (bytes "AU")
    ∷ entry 0x3b000000 0x3bffffff (bytes "AU")
    ∷ entry 0x61000000 0x61ffffff (bytes "AU")
    ∷ entry 0x97000000 0x97ffffff (bytes "AU")
    ∷ entry 0x9e000000 0x9effffff (bytes "AU")
    ∷ entry 0xa5000000 0xa5ffffff (bytes "AU")
    ∷ entry 0xb7000000 0xb7ffffff (bytes "AU")
    ∷ entry 0xbd000000 0xbdffffff (bytes "AU")
    ∷ entry 0xc0000000 0xc0ffffff (bytes "AU")
    ∷ entry 0xc1000000 0xc1ffffff (bytes "AU")
    ∷ entry 0xc7000000 0xc7ffffff (bytes "AU")
    ∷ entry 0xce000000 0xceffffff (bytes "AU")
    ∷ entry 0xd4000000 0xd4ffffff (bytes "AU")
    ∷ entry 0xd9000000 0xd9ffffff (bytes "AU")
    ∷ []

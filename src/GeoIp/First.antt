-- ===== src/GeoIp/First.antt =====
-- The first part of the table in `geoip_country` of src/config.rs.
use zc.Prelude.{List, [], ◌∷◌}
use zc.Prelude.Text.{bytes}
use zc.GeoIp.Entry.{GeoEntry, entry}

abbrev pub cn_entries : List GeoEntry
cn_entries =
    entry 0x01000000 0x01ffffff (bytes "CN")
    ∷ entry 0x0a000000 0x0affffff (bytes "CN")
    ∷ entry 0x22300000 0x223fffff (bytes "CN")
    ∷ entry 0x2e000000 0x2effffff (bytes "CN")
    ∷ entry 0x3a800000 0x3abfffff (bytes "CN")
    ∷ entry 0x3c000000 0x3dffffff (bytes "CN")
    ∷ entry 0x3e000000 0x3effffff (bytes "CN")
    ∷ entry 0x59300000 0x593fffff (bytes "CN")
    ∷ entry 0x63000000 0x63ffffff (bytes "CN")
    ∷ entry 0x67000000 0x67ffffff (bytes "CN")
    ∷ entry 0xa0000000 0xa000ffff (bytes "CN")
    ∷ entry 0xa1a80000 0xa1a8ffff (bytes "CN")
    ∷ entry 0xac100000 0xac1fffff (bytes "CN")
    ∷ entry 0xb7000000 0xb7ffffff (bytes "CN")
    ∷ entry 0xbc000000 0xbdffffff (bytes "CN")
    ∷ entry 0xc0000000 0xc0ffffff (bytes "CN")
    ∷ entry 0xd8000000 0xdfffffff (bytes "CN")
    ∷ []

abbrev pub us_entries : List GeoEntry
us_entries =
    entry 0x01000000 0x01ffffff (bytes "US")
    ∷ entry 0x02000000 0x02ffffff (bytes "US")
    ∷ entry 0x03000000 0x03ffffff (bytes "US")
    ∷ entry 0x04000000 0x04ffffff (bytes "US")
    ∷ entry 0x06000000 0x07ffffff (bytes "US")
    ∷ entry 0x08000000 0x08ffffff (bytes "US")
    ∷ entry 0x09000000 0x09ffffff (bytes "US")
    ∷ entry 0x0b000000 0x0bffffff (bytes "US")
    ∷ entry 0x0c000000 0x0dffffff (bytes "US")
    ∷ entry 0x0e000000 0x0effffff (bytes "US")
    ∷ entry 0x11000000 0x11ffffff (bytes "US")
    ∷ entry 0x12000000 0x12ffffff (bytes "US")
    ∷ entry 0x17000000 0x17ffffff (bytes "US")
    ∷ entry 0x18000000 0x18ffffff (bytes "US")
    ∷ entry 0x1a000000 0x1affffff (bytes "US")
    ∷ entry 0x1b000000 0x1bffffff (bytes "US")
    ∷ entry 0x1c000000 0x1cffffff (bytes "US")
    ∷ entry 0x1d000000 0x1dffffff (bytes "US")
    ∷ entry 0x1e000000 0x1effffff (bytes "US")
    ∷ entry 0x1f000000 0x1fffffff (bytes "US")
    ∷ entry 0x20000000 0x20ffffff (bytes "US")
    ∷ entry 0x21000000 0x21ffffff (bytes "US")
    ∷ entry 0x22000000 0x22ffffff (bytes "US")
    ∷ entry 0x23000000 0x23ffffff (bytes "US")
    ∷ entry 0x24000000 0x24ffffff (bytes "US")
    ∷ entry 0x26000000 0x26ffffff (bytes "US")
    ∷ entry 0x27000000 0x27ffffff (bytes "US")
    ∷ entry 0x28000000 0x28ffffff (bytes "US")
    ∷ entry 0x29000000 0x29ffffff (bytes "US")
    ∷ entry 0x2a000000 0x2affffff (bytes "US")
    ∷ entry 0x2b000000 0x2bffffff (bytes "US")
    ∷ entry 0x2c000000 0x2cffffff (bytes "US")
    ∷ entry 0x2d000000 0x2dffffff (bytes "US")
    ∷ entry 0x2f000000 0x2fffffff (bytes "US")
    ∷ entry 0x30000000 0x30ffffff (bytes "US")
    ∷ entry 0x32000000 0x32ffffff (bytes "US")
    ∷ entry 0x33000000 0x33ffffff (bytes "US")
    ∷ entry 0x34000000 0x35ffffff (bytes "US")
    ∷ entry 0x36000000 0x37ffffff (bytes "US")
    ∷ entry 0x38000000 0x39ffffff (bytes "US")
    ∷ entry 0x3f000000 0x3fffffff (bytes "US")
    ∷ entry 0x44000000 0x45ffffff (bytes "US")
    ∷ entry 0x47000000 0x47ffffff (bytes "US")
    ∷ entry 0x48000000 0x48ffffff (bytes "US")
    ∷ entry 0x49000000 0x49ffffff (bytes "US")
    ∷ entry 0x4a000000 0x4affffff (bytes "US")
    ∷ entry 0x4b000000 0x4bffffff (bytes "US")
    ∷ entry 0x4c000000 0x4cffffff (bytes "US")
    ∷ entry 0x4d000000 0x4dffffff (bytes "US")
    ∷ entry 0x4e000000 0x4fffffff (bytes "US")
    ∷ entry 0x50000000 0x50ffffff (bytes "US")
    ∷ entry 0x52000000 0x52ffffff (bytes "US")
    ∷ entry 0x53000000 0x53ffffff (bytes "US")
    ∷ entry 0x54000000 0x55ffffff (bytes "US")
    ∷ entry 0x8b000000 0x8bffffff (bytes "US")
    ∷ entry 0x8d000000 0x8dffffff (bytes "US")
    ∷ entry 0x8e000000 0x8effffff (bytes "US")
    ∷ entry 0x91000000 0x91ffffff (bytes "US")
    ∷ entry 0x96000000 0x96ffffff (bytes "US")
    ∷ entry 0x98000000 0x98ffffff (bytes "US")
    ∷ entry 0x99000000 0x99ffffff (bytes "US")
    ∷ entry 0xc0000200 0xc00002ff (bytes "US")
    ∷ entry 0xc0586300 0xc05863ff (bytes "US")
    ∷ entry 0xc6120000 0xc613ffff (bytes "US")
    ∷ entry 0xc7000000 0xc7ffffff (bytes "US")
    ∷ []

abbrev pub jp_entries : List GeoEntry
jp_entries =
    entry 0x29000000 0x29ffffff (bytes "JP")
    ∷ entry 0x51000000 0x51ffffff (bytes "JP")
    ∷ entry 0x60000000 0x60ffffff (bytes "JP")
    ∷ entry 0x76000000 0x76ffffff (bytes "JP")
    ∷ entry 0x8a000000 0x8affffff (bytes "JP")
    ∷ entry 0xa2000000 0xa2ffffff (bytes "JP")
    ∷ entry 0xa9000000 0xa9ffffff (bytes "JP")
    ∷ entry 0xc2000000 0xc2ffffff (bytes "JP")
    ∷ entry 0xc5000000 0xc5ffffff (bytes "JP")
    ∷ entry 0xc6000000 0xc6ffffff (bytes "JP")
    ∷ []

abbrev pub hk_entries : List GeoEntry
hk_entries =
    entry 0x2b000000 0x2bffffff (bytes "HK")
    ∷ entry 0x3b400000 0x3b7fffff (bytes "HK")
    ∷ entry 0x57000000 0x57ffffff (bytes "HK")
    ∷ entry 0x61000000 0x61ffffff (bytes "HK")
    ∷ entry 0xa1000000 0xa1ffffff (bytes "HK")
    ∷ entry 0xce000000 0xceffffff (bytes "HK")
    ∷ entry 0xcf000000 0xcfffffff (bytes "HK")
    ∷ []

abbrev pub sg_entries : List GeoEntry
sg_entries =
    entry 0x2f000000 0x2fffffff (bytes "SG")
    ∷ entry 0x3e800000 0x3e8fffff (bytes "SG")
    ∷ entry 0x67000000 0x67ffffff (bytes "SG")
    ∷ entry 0x8c000000 0x8cffffff (bytes "SG")
    ∷ entry 0xc1000000 0xc1ffffff (bytes "SG")
    ∷ []

abbrev pub kr_entries : List GeoEntry
kr_entries =
    entry 0x3a000000 0x3a3fffff (bytes "KR")
    ∷ entry 0x57000000 0x57ffffff (bytes "KR")
    ∷ entry 0x7a000000 0x7affffff (bytes "KR")
    ∷ entry 0xa5000000 0xa5ffffff (bytes "KR")
    ∷ entry 0xd5000000 0xd5ffffff (bytes "KR")
    ∷ entry 0xd9000000 0xd9ffffff (bytes "KR")
    ∷ entry 0xe0000000 0xe0ffffff (bytes "KR")
    ∷ []

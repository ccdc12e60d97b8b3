-- ===== src/GeoIp.antt =====
-- `geoip_country` of src/config.rs: the country of an address by the first entry that has it.
mod Entry
mod First
mod Second
mod Third
pub mod Shadowed
pub mod Tests
pub use Entry.{GeoEntry, entry}
use zc.Prelude.{
  ℕ, suc, ◌+◌, ◌*◌, Bool, true, false, Option, none, some, List, [], ◌∷◌, ◌++◌, within,
  if◌then◌else◌,
}
use zc.Prelude.Text.{Text}
use zc.IpAddr.{IpAddr, v4, v6}
use First.{cn_entries, us_entries, jp_entries, hk_entries, sg_entries, kr_entries}
use Second.{ru_entries, gb_entries, de_entries, fr_entries, au_entries}
use Third.{ca_entries, nl_entries, in_entries, tw_entries, br_entries}

unfoldable pub entries : List GeoEntry
entries =
    cn_entries
    ++ (us_entries
        ++ (jp_entries
            ++ (hk_entries
                ++ (sg_entries
                    ++ (kr_entries
                        ++ (ru_entries
                            ++ (gb_entries
                                ++ (de_entries
                                    ++ (fr_entries
                                        ++ (au_entries
                                            ++ (ca_entries
                                                ++ (nl_entries
                                                    ++ (in_entries
                                                        ++ (tw_entries ++ (br_entries)))))))))))))))

-- `u32::from` of the octets.
unfoldable pub to_u32 : List ℕ → ℕ → ℕ
to_u32 [] acc = acc
to_u32 (octet ∷ octets) acc = to_u32 octets (acc * 256 + octet)

unfoldable pub find_country : ℕ → List GeoEntry → Option Text
find_country ip [] = none
find_country ip (entry first last country ∷ rest) =
    let later = find_country ip rest in if within first last ip then some country else later

unfoldable pub geoip_country : IpAddr → Option Text
unfolding entries to_u32 find_country
geoip_country (v4 octets) = find_country (to_u32 octets 0) entries
geoip_country (v6 groups) = none

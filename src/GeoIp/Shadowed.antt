-- ===== src/GeoIp/Shadowed.antt =====
-- Entries of the table of src/config.rs that an earlier entry covers are never reached.
use zc.Prelude.{
  none, Option, ap, subst, ◌++◌, ◌+◌, ◌*◌, ℕ, ◌≡◌, ◌≢◌, refl, Bool, true, false, ◌&&◌, some, List,
  [], ◌∷◌, All, any, leb, within, if◌then◌else◌, arith, inl, inr, Bool-cases,
}
use zc.Prelude.Text.{Text, bytes, text_eq, text_eq_iff}
use zc.IpAddr.{IpAddr, v4}
use zc.Config.Routing.{in_country, opt_any}
use zc.GeoIp.{GeoEntry, entry, entries, find_country, geoip_country, to_u32}

abbrev pub covers : ℕ → ℕ → GeoEntry → Bool
covers first last (entry f l c) = leb f first && leb last l

abbrev pub Misses : ℕ → GeoEntry → Type 0
Misses ip (entry f l c) = within f l ip ≡ false

-- Whether every entry of the country lies within one that stands before it.
unfoldable pub is_shadowed : Text → List GeoEntry → List GeoEntry → Bool
is_shadowed country seen [] = true
is_shadowed country seen (entry f l c ∷ rest) =
    (if text_eq c country then any (covers f l) seen else true)
    && is_shadowed country (entry f l c ∷ seen) rest

covers-Misses :
    (ip f l : ℕ) (seen : List GeoEntry)
    → within f l ip ≡ true
    → All (Misses ip) seen
    → any (covers f l) seen ≡ false
covers-Misses ip f l [] h hs = refl
covers-Misses ip f l (entry f' l' c ∷ seen) h (m, ms) =
    ground (arith, covers-Misses ip f l seen h ms)

find_country-ne :
    (country : Text) (ip : ℕ) (seen rest : List GeoEntry)
    → All (Misses ip) seen
    → is_shadowed country seen rest ≡ true
    → find_country ip rest ≢ some country
unfolding find_country is_shadowed
find_country-ne country ip seen [] ms h = λ e. cc
find_country-ne country ip seen (entry f l c ∷ rest) ms h = elim (Bool-cases (within f l ip)) [
  | inl hit ↦ rw hit (λ e.
      let same : c ≡ country = cc e in
      let t : text_eq c country ≡ true = (text_eq_iff c country).1 same in
      let k = covers-Misses ip f l seen hit ms in ground (arith, t, k))
  | inr miss ↦
      rw miss (find_country-ne country ip (entry f l c ∷ seen) rest (miss, ms) (ground arith))
]

-- The first entry that has the address, or none has it.
abbrev pub First : ℕ → List GeoEntry → Option Text → Type 0
First ip table none = All (Misses ip) table
First ip table (some country) =
    (before : List GeoEntry) × (after : List GeoEntry) × (f : ℕ) × (l : ℕ) × (table
      ≡ before ++ entry f l country ∷ after)
    × All (Misses ip) before
    × (within f l ip ≡ true)

First-later :
    (ip f l : ℕ) (c : Text) (table : List GeoEntry) (found : Option Text)
    → within f l ip ≡ false
    → First ip table found
    → First ip (entry f l c ∷ table) found
First-later ip f l c table none miss h = (miss, h)
First-later ip f l c table (some country) miss (before, after, f', l', parts, ms, hit) =
    (entry f l c ∷ before, after, f', l', ap (λ t. entry f l c ∷ t) parts, (miss, ms), hit)

find_country-First : (ip : ℕ) (table : List GeoEntry) → First ip table (find_country ip table)
unfolding find_country
find_country-First ip [] = tt
find_country-First ip (entry f l c ∷ table) = elim (Bool-cases (within f l ip)) [
  | inl hit ↦ rw hit ([], table, f, l, refl, tt, hit)
  | inr miss ↦
      rw miss
        (First-later ip f l c table (find_country ip table) miss (find_country-First ip table))
]

-- How many entries a country has.
abbrev pub count_of : Text → List GeoEntry → ℕ
count_of country [] = 0
count_of country (entry f l c ∷ rest) = (if text_eq c country then 1 else 0) + count_of country rest

in_country-none :
    (country : Text) (ip : IpAddr) (found : Option Text)
    → geoip_country ip ≡ found
    → found ≢ some country
    → in_country country ip ≡ false
unfolding in_country opt_any
in_country-none country ip none e h = rw e refl
in_country-none country ip (some c) e h = rw e (elim (Bool-cases (text_eq c country)) [
  | inl same ↦ absurd (h (ap some ((text_eq_iff c country).0 same)))
  | inr other ↦ other
])

-- The table has seven entries for Taiwan, each of which lies within an earlier entry. For every IPv4 address the
-- answer is the country of the first entry that has it, or none has it, and it is not Taiwan, so that the
-- test of a rule `GEOIP,TW` fails.
pub geoip_country-ne-tw :
    (a b c d : ℕ)
    → (count_of (bytes "TW") entries ≡ 7)
      × (is_shadowed (bytes "TW") [] entries ≡ true)
      × First
          (a * 16777216 + b * 65536 + c * 256 + d)
          entries
          (geoip_country (v4 (a ∷ b ∷ c ∷ d ∷ [])))
      × (in_country (bytes "TW") (v4 (a ∷ b ∷ c ∷ d ∷ [])) ≡ false)
unfolding geoip_country
geoip_country-ne-tw a b c d =
    let number : to_u32 (a ∷ b ∷ c ∷ d ∷ []) 0 ≡ a * 16777216 + b * 65536 + c * 256 + d =
      (unfold to_u32 in omega arith) in
    let shadowed : is_shadowed (bytes "TW") [] entries ≡ true =
      (unfold entries is_shadowed text_eq in refl) in
    (
      unfold entries text_eq in refl,
      shadowed,
      subst (λ n. First n entries (geoip_country (v4 (a ∷ b ∷ c ∷ d ∷ [])))) number
          (find_country-First (to_u32 (a ∷ b ∷ c ∷ d ∷ []) 0) entries),
      in_country-none (bytes "TW") (v4 (a ∷ b ∷ c ∷ d ∷ [])) _ refl
          (find_country-ne (bytes "TW") (to_u32 (a ∷ b ∷ c ∷ d ∷ []) 0) [] entries tt shadowed),
    )

-- ===== src/GeoIp/Entry.antt =====
-- One entry of the table in `geoip_country` of src/config.rs: the first and the last address, and the
-- country.
use zc.Prelude.{ℕ}
use zc.Prelude.Text.{Text}

pub data GeoEntry : Type 0 where
  entry : ℕ → ℕ → Text → GeoEntry

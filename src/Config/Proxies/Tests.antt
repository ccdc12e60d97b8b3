-- ===== src/Config/Proxies/Tests.antt =====
-- Declared proxies of src/config.rs at concrete values.
use zc.Prelude.{◌≡◌, refl, Bool, true, false, none, some, ok, err, Ensures}
use zc.Prelude.Text.{Text, bytes}
use zc.Config.Proxies.{any_tls, RawProxy, bad_sni, bad_tls, build}
use zc.Config.Proxies.Built.{IsProxy, build-IsProxy}

abbrev raw : RawProxy
raw = record {
  name = bytes "tokyo";
  kind = bytes "anytls";
  server = bytes "203.0.113.9";
  port = 8443;
  password = bytes "secret";
  cipher = none;
  sni = some (bytes "tokyo.example");
  skip_cert_verify = none;
  tls = none;
  network = some (bytes "tcp");
  udp = false;
  plugin = none;
  disable_reuse = some true;
  plugin_opts = none;
}

abbrev any_name : Text → Bool
any_name name = true

build-IsProxy_example : Ensures (IsProxy raw) (build any_name raw)
build-IsProxy_example = build-IsProxy any_name raw

builds_anytls :
    build any_name raw
    ≡ ok (record {
      name = bytes "tokyo";
      kind =
          any_tls (bytes "203.0.113.9") 8443 (bytes "secret") (some (bytes "tokyo.example")) false;
      udp = false;
      obfs = none;
    })
unfolding build
builds_anytls = refl

refuses_an_address_alone : build any_name (record raw { sni = none }) ≡ err bad_sni
unfolding build
refuses_an_address_alone = refl

refuses_udp : build any_name (record raw { udp = true }) ≡ err bad_tls
unfolding build
refuses_udp = refl

-- ===== src/Config/Proxies.antt =====
-- The proxies of src/config.rs: `RawProxy::build`, which checks a declared proxy.
pub mod Built
pub mod Tests
use zc.Prelude.{
  ℕ, ◌≤◌, Bool, true, false, not, ◌&&◌, ◌||◌, Option, none, some, List, [], ◌∷◌, length, any,
  is_empty, is_some, ltb, ◌==◌, if◌then◌else◌, Result, ok, err, ◌>>=◌, ◌>>◌, guard, is_ok,
}
use zc.Prelude.Text.{Text, bytes, text_eq, one_of, ends_with, strip_suffix}
use zc.Prelude.Text.Chars.{has_control}
use zc.IpAddr.{IpAddr, parse_ip}
use zc.Target.{Target, new, without_dot}

pub data ProxyKind : Type 0 where
  direct reject : ProxyKind
  -- The server, its port, the password and the cipher.
  shadowsocks : Text → ℕ → Text → Text → ProxyKind
  -- The server, its port, the password, the name for TLS, and `skip_cert_verify`.
  any_tls trojan : Text → ℕ → Text → Option Text → Bool → ProxyKind

-- `obfs` is the host of `ObfsHttp`.
pub record Proxy : Type 0 where
  pub name : Text
  pub kind : ProxyKind
  pub udp : Bool
  pub obfs : Option Text

-- The mode and the host.
pub record RawObfs : Type 0 where
  pub mode : Text
  pub host : Text

pub record RawProxy : Type 0 where
  pub name : Text
  pub kind : Text
  pub server : Text
  pub port : ℕ
  pub password : Text
  pub cipher : Option Text
  pub sni : Option Text
  pub skip_cert_verify : Option Bool
  pub tls : Option Bool
  pub network : Option Text
  pub udp : Bool
  pub plugin : Option Text
  pub disable_reuse : Option Bool
  pub plugin_opts : Option RawObfs

pub data ProxyError : Type 0 where
  bad_network bad_reuse bad_plugin bad_obfs bad_password bad_server bad_cipher bad_tls bad_sni
        unsupported :
      ProxyError

-- Whether an optional text is there and is another one.
differs : Option Text → Text → Bool
unfolding text_eq
differs none expected = false
differs (some text) expected = not (text_eq text expected)

is_true : Option Bool → Bool
is_true (some b) = b
is_true none = false

is_false : Option Bool → Bool
is_false (some b) = not b
is_false none = false

unfoldable pub is_obfs_host : Text → Bool
is_obfs_host host =
    not (is_empty host)
    && not (ltb 255 (length host))
    && not (any (λ b. b == 0 || b == 13 || b == 10) host)

-- The match on the plugin and its options.
unfoldable pub build_obfs : Text → Option Text → Option RawObfs → Result ProxyError (Option Text)
unfolding text_eq one_of is_obfs_host
build_obfs kind none none = ok none
build_obfs kind (some plugin) (some options) = do
  guard (one_of (bytes "obfs" ∷ bytes "obfs-local" ∷ []) plugin && text_eq kind (bytes "ss"))
      bad_plugin
  guard (text_eq options.mode (bytes "http") && is_obfs_host options.host) bad_obfs
  ok (some options.host)
build_obfs kind _ _ = err bad_plugin

unfoldable pub cipher_of : Option Text → Result ProxyError Text
unfolding text_eq one_of
cipher_of none = err bad_cipher
cipher_of (some cipher) =
    if text_eq cipher (bytes "aes-128-gcm")
    then ok (bytes "aes-128-gcm")
    else if text_eq cipher (bytes "aes-256-gcm")
    then ok (bytes "aes-256-gcm")
    else if one_of (bytes "chacha20-ietf-poly1305" ∷ bytes "chacha20-poly1305" ∷ []) cipher
    then ok (bytes "chacha20-ietf-poly1305")
    else err bad_cipher

unfoldable pub build_shadowsocks : RawProxy → Result ProxyError ProxyKind
unfolding is_true cipher_of
build_shadowsocks raw = do
  guard (not (is_true raw.tls || is_some raw.sni || is_some raw.skip_cert_verify)) bad_tls
  cipher ← cipher_of raw.cipher
  ok (shadowsocks raw.server raw.port raw.password cipher)

-- The checks of the name for TLS: a given one is a DNS name with no dot at its end, and without one a
-- server that is an address is accepted only unverified.
unfoldable pub check_sni : RawProxy → Option Text → Result ProxyError (Unit {0})
unfolding ends_with text_eq parse_ip new is_true
check_sni raw (some sni) = do
  guard (not (ends_with (b'.' ∷ []) sni || is_some (parse_ip sni))) bad_sni
  guard (is_ok (new sni 1)) bad_sni
  ok tt
check_sni raw none =
    guard (is_true raw.skip_cert_verify || not (is_some (parse_ip raw.server))) bad_sni

unfoldable pub or_else : Option Text → Text → Text
or_else none text = text
or_else (some text) other = text

-- The kinds `trojan` and `anytls`. Whether TLS takes a server's name is for another crate to say.
unfoldable pub build_tls : (Text → Bool) → Bool → RawProxy → Result ProxyError ProxyKind
unfolding is_true is_false check_sni or_else strip_suffix text_eq without_dot
build_tls is_server_name anytls raw = do
  guard (not (anytls && (raw.udp || is_true raw.tls))) bad_tls
  guard (not ((not anytls && is_false raw.tls) || is_some raw.cipher)) bad_tls
  check_sni raw raw.sni
  let name = or_else raw.sni raw.server
  guard (is_server_name (without_dot (strip_suffix (b'.' ∷ []) name) name)) bad_sni
  ok (
      if anytls
      then any_tls raw.server raw.port raw.password raw.sni (is_true raw.skip_cert_verify)
      else trojan raw.server raw.port raw.password raw.sni (is_true raw.skip_cert_verify))

unfoldable pub build_kind : (Text → Bool) → RawProxy → Result ProxyError ProxyKind
unfolding text_eq build_shadowsocks build_tls
build_kind is_server_name raw =
    if text_eq raw.kind (bytes "ss")
    then build_shadowsocks raw
    else if text_eq raw.kind (bytes "trojan")
    then build_tls is_server_name false raw
    else if text_eq raw.kind (bytes "anytls")
    then build_tls is_server_name true raw
    else err unsupported

-- A proxy that dials a server.
unfoldable pub build_remote : (Text → Bool) → RawProxy → Option Text → Result ProxyError Proxy
unfolding has_control new build_kind
build_remote is_server_name raw obfs = do
  guard (not (is_empty raw.password || has_control raw.password)) bad_password
  guard (is_ok (new raw.server raw.port)) bad_server
  kind ← build_kind is_server_name raw
  ok (record { name = raw.name; kind = kind; udp = raw.udp; obfs = obfs })

-- `RawProxy::build`
unfoldable pub build : (Text → Bool) → RawProxy → Result ProxyError Proxy
unfolding differs is_false text_eq build_obfs build_remote
build is_server_name raw = do
  guard (not (differs raw.network (bytes "tcp"))) bad_network
  guard
      (not (
        is_some raw.disable_reuse
        && (not (text_eq raw.kind (bytes "anytls")) || is_false raw.disable_reuse)))
      bad_reuse
  obfs ← build_obfs raw.kind raw.plugin raw.plugin_opts
  if text_eq raw.kind (bytes "direct")
      then ok (record { name = raw.name; kind = direct; udp = raw.udp; obfs = none })
      else if text_eq raw.kind (bytes "reject")
      then ok (record { name = raw.name; kind = reject; udp = raw.udp; obfs = none })
      else build_remote is_server_name raw obfs

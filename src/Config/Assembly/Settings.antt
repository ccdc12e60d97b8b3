-- ===== src/Config/Assembly/Settings.antt =====
-- The settings that `Config::parse_inner` of src/config.rs checks.
use zc.Prelude.{
  ℕ, Bool, true, false, not, ◌&&◌, ◌||◌, Option, none, some, List, [], ◌∷◌, ◌==◌, if◌then◌else◌,
  Result, ok, err, ◌>>=◌, ◌>>◌, guard, ok_or,
}
use zc.Prelude.Text.{Text, bytes, text_eq, one_of, split_once}
use zc.IpAddr.{IpAddr, v4, v6, parse_ip}
use zc.Registry.State.{SocketAddr}
use zc.Config.Rules.{parse_port, RuleError}
use zc.Config.Assembly.{
  ConfigError, bad_ports, bad_mode, bad_controller, bad_level, bad_bind_address, not_loopback,
}

-- The fields of `RawConfig` that are settings.
pub record RawSettings : Type 0 where
  pub allow_lan : Bool
  pub bind_address : Option Text
  pub mixed_port : Option ℕ
  pub port : Option ℕ
  pub socks_port : Option ℕ
  pub mode : Option Text
  pub log_level : Option Text
  pub external_controller : Option Text

pub record Settings : Type 0 where
  pub address : IpAddr
  pub mode_name : Text
  pub controller : Option SocketAddr

unfoldable pub port_or_zero : Option ℕ → ℕ
port_or_zero none = 0
port_or_zero (some port) = port

unfoldable pub map_controller : {A : Type 0} → Result RuleError A → Result ConfigError A
map_controller (ok a) = ok a
map_controller (err e) = err bad_controller

unfoldable pub controller_host : Text → Result ConfigError (List ℕ)
unfolding text_eq
controller_host host =
    if text_eq host (bytes "127.0.0.1")
    then ok (127 ∷ 0 ∷ 0 ∷ 1 ∷ [])
    else if text_eq host (bytes "0.0.0.0")
    then ok (0 ∷ 0 ∷ 0 ∷ 0 ∷ [])
    else err bad_controller

-- `parse_controller_endpoint`
unfoldable pub parse_controller : Text → Result ConfigError SocketAddr
unfolding split_once controller_host parse_port map_controller
parse_controller endpoint = do
  (host, text) ← ok_or bad_controller (split_once b':' endpoint)
  address ← controller_host host
  port ← map_controller (parse_port text)
  ok (record { ip = address; port = port })

unfoldable pub opt_controller : Option Text → Result ConfigError (Option SocketAddr)
unfolding parse_controller
opt_controller none = ok none
opt_controller (some endpoint) = parse_controller endpoint >>= λ address. ok (some address)

-- Whether an absent value or one of the list.
unfoldable pub is_one_of : List Text → Option Text → Bool
unfolding one_of text_eq
is_one_of values none = true
is_one_of values (some value) = one_of values value

unfoldable pub any_address : IpAddr
any_address = v4 (0 ∷ 0 ∷ 0 ∷ 0 ∷ [])

unfoldable pub bind_to : Bool → Option Text → Result ConfigError IpAddr
unfolding text_eq parse_ip any_address
bind_to true none = ok any_address
bind_to false none = ok (v4 (127 ∷ 0 ∷ 0 ∷ 1 ∷ []))
bind_to allow_lan (some address) =
    if text_eq address (bytes "*")
    then ok any_address
    else ok_or bad_bind_address (parse_ip address)

-- `IpAddr::is_loopback`
unfoldable pub is_loopback : IpAddr → Bool
unfolding text_eq
is_loopback (v4 []) = false
is_loopback (v4 (octet ∷ octets)) = octet == 127
is_loopback (v6 groups) = text_eq groups (0 ∷ 0 ∷ 0 ∷ 0 ∷ 0 ∷ 0 ∷ 0 ∷ 1 ∷ [])

abbrev pub modes : List Text
modes = bytes "rule" ∷ bytes "global" ∷ bytes "direct" ∷ []

unfoldable pub mode_or_rule : Option Text → Text
mode_or_rule none = bytes "rule"
mode_or_rule (some mode) = mode

abbrev pub levels : List Text
levels = bytes "silent" ∷ bytes "error" ∷ bytes "warning" ∷ bytes "info" ∷ bytes "debug" ∷ []

-- Neither standalone listener without a mixed one.
abbrev pub is_mixed : RawSettings → Bool
is_mixed raw = not (
    port_or_zero raw.mixed_port == 0
    && (not (port_or_zero raw.port == 0) || not (port_or_zero raw.socks_port == 0)))

unfoldable pub parse_settings : RawSettings → Result ConfigError Settings
unfolding port_or_zero is_one_of opt_controller bind_to is_loopback mode_or_rule
parse_settings raw = do
  guard (is_mixed raw) bad_ports
  guard (is_one_of modes raw.mode) bad_mode
  controller ← opt_controller raw.external_controller
  guard (is_one_of levels raw.log_level) bad_level
  address ← bind_to raw.allow_lan raw.bind_address
  guard (raw.allow_lan || is_loopback address) not_loopback
  ok (record { address = address; mode_name = mode_or_rule raw.mode; controller = controller })

-- ===== src/Config/Assembly/Tests.antt =====
-- Assembled configurations of src/config.rs at concrete values.
use zc.Prelude.{◌≡◌, refl, Bool, true, false, none, some, [], ◌∷◌, ok, err, is_ok, Ensures}
use zc.Prelude.Text.{Text, bytes}
use zc.IpAddr.{v4}
use zc.Config.Assembly.{RawGroup, group_entry, assemble, bad_graph}
use zc.Config.Assembly.Resolved.{IsAssembled, assemble-IsAssembled}
use zc.Config.Assembly.Settings.{RawSettings, parse_settings}
use zc.Config.Assembly.Accepted.{IsSettings, parse_settings-IsSettings}
use zc.Config.Groups.{cycle}

abbrev any_name : Text → Bool
any_name name = true

abbrev outer : RawGroup
outer = record {
  name = bytes "outer";
  kind = bytes "select";
  proxies = bytes "inner" ∷ bytes "DIRECT" ∷ [];
}

abbrev inner : RawGroup
inner = record { name = bytes "inner"; kind = bytes "select"; proxies = bytes "REJECT" ∷ [] }

abbrev looping : RawGroup
looping = record { name = bytes "inner"; kind = bytes "select"; proxies = bytes "outer" ∷ [] }

assemble-IsAssembled_example :
    Ensures IsAssembled (assemble any_name (group_entry outer ∷ group_entry inner ∷ []) [])
assemble-IsAssembled_example =
    assemble-IsAssembled any_name (group_entry outer ∷ group_entry inner ∷ []) []

is_accepted : is_ok (assemble any_name (group_entry outer ∷ group_entry inner ∷ []) []) ≡ true
unfolding assemble
is_accepted = refl

is_refused : assemble any_name (group_entry outer ∷ []) (looping ∷ []) ≡ err (bad_graph cycle)
unfolding assemble
is_refused = refl

abbrev settings : RawSettings
settings = record {
  allow_lan = false;
  bind_address = none;
  mixed_port = some 7890;
  port = none;
  socks_port = none;
  mode = some (bytes "global");
  log_level = none;
  external_controller = some (bytes "127.0.0.1:9090");
}

parse_settings-IsSettings_example : Ensures (IsSettings settings) (parse_settings settings)
parse_settings-IsSettings_example = parse_settings-IsSettings settings

accepts_the_settings :
    parse_settings settings
    ≡ ok (record {
      address = v4 (127 ∷ 0 ∷ 0 ∷ 1 ∷ []);
      mode_name = bytes "global";
      controller = some (record { ip = 127 ∷ 0 ∷ 0 ∷ 1 ∷ []; port = 9090 });
    })
unfolding parse_settings
accepts_the_settings = refl

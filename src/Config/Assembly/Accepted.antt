-- ===== src/Config/Assembly/Accepted.antt =====
-- What the settings that `Config::parse_inner` of src/config.rs accepts promise.
use zc.Prelude.{
  ℕ, ◌≡◌, refl, true, false, ◌||◌, Option, none, some, List, [], ◌∷◌, ok_or, inl, inr, ◌⊎◌, Result,
  ok, err, Ensures, Ensures-pure, Ensures-bind, Ensures-guard, Ensures-any, Ensures-if, Ensures-err,
  arith,
}
use zc.Prelude.Text.{Text, bytes, text_eq, one_of, split_once}
use zc.Registry.State.{SocketAddr}
use zc.Config.Rules.{parse_port, RuleError}
use zc.Config.Rules.Valid.{IsPort, parse_port-IsPort}
use zc.Config.Assembly.{bad_ports, bad_mode, bad_controller, bad_level, not_loopback}
use zc.Config.Assembly.Settings.{
  RawSettings, Settings, map_controller, controller_host, parse_controller, opt_controller,
  is_one_of, bind_to, is_loopback, modes, levels, is_mixed, mode_or_rule, parse_settings,
}

abbrev IsHost : List ℕ → Type 0
IsHost octets = (octets ≡ 127 ∷ 0 ∷ 0 ∷ 1 ∷ []) ⊎ (octets ≡ 0 ∷ 0 ∷ 0 ∷ 0 ∷ [])

abbrev IsController : SocketAddr → Type 0
IsController a = IsHost a.ip × IsPort a.port

abbrev pub IsOptController : Option SocketAddr → Type 0
IsOptController none = Unit {0}
IsOptController (some a) = IsController a

controller_host-IsHost : (host : Text) → Ensures IsHost (controller_host host)
unfolding controller_host
controller_host-IsHost host =
    Ensures-if (text_eq host (bytes "127.0.0.1")) _ _
      (λ local. Ensures-pure IsHost (127 ∷ 0 ∷ 0 ∷ 1 ∷ []) (inl refl))
      (λ other.
        Ensures-if (text_eq host (bytes "0.0.0.0")) _ _
          (λ wild. Ensures-pure IsHost (0 ∷ 0 ∷ 0 ∷ 0 ∷ []) (inr refl))
          (λ none_of. Ensures-err bad_controller))

map_controller-Ensures :
    {A : Type 0} {P : A → Type 0} (r : Result RuleError A)
    → Ensures P r
    → Ensures P (map_controller r)
unfolding map_controller
map_controller-Ensures {P = P} (ok a) h = Ensures-pure P a (h.holds a refl)
map_controller-Ensures (err e) h = Ensures-err bad_controller

parse_controller-IsController : (endpoint : Text) → Ensures IsController (parse_controller endpoint)
unfolding parse_controller
parse_controller-IsController endpoint =
    Ensures-any (ok_or bad_controller (split_once b':' endpoint)) _ λ parts found.
      Ensures-bind (controller_host parts.0) _ (controller_host-IsHost parts.0) λ address h.
        Ensures-bind (map_controller (parse_port parts.1)) _
          (map_controller-Ensures (parse_port parts.1) (parse_port-IsPort parts.1))
          λ port p. Ensures-pure IsController (record { ip = address; port = port }) (h, p)

opt_controller-IsOptController :
    (endpoint : Option Text) → Ensures IsOptController (opt_controller endpoint)
unfolding opt_controller
opt_controller-IsOptController none = Ensures-pure IsOptController none tt
opt_controller-IsOptController (some endpoint) =
    Ensures-bind (parse_controller endpoint) _ (parse_controller-IsController endpoint)
      λ a h. Ensures-pure IsOptController (some a) h

is_one_of-mode :
    (mode : Option Text) → is_one_of modes mode ≡ true → one_of modes (mode_or_rule mode) ≡ true
unfolding is_one_of mode_or_rule one_of text_eq
is_one_of-mode none h = refl
is_one_of-mode (some mode) h = h

pub record IsSettings (raw : RawSettings) (s : Settings) : Type 0 where
  pub mode : one_of modes s.mode_name ≡ true
  -- Without `allow-lan` only a loopback address is listened on.
  pub closed : raw.allow_lan ≡ false → is_loopback s.address ≡ true
  pub control : IsOptController s.controller

-- Accepted settings have one of the three modes, a loopback address unless `allow-lan` is set, and a
-- controller, when there is one, at 127.0.0.1 or 0.0.0.0 with a port from 1 to 65535.
pub parse_settings-IsSettings : (raw : RawSettings) → Ensures (IsSettings raw) (parse_settings raw)
unfolding parse_settings
parse_settings-IsSettings raw = Ensures-guard (is_mixed raw) bad_ports _ λ ports.
    Ensures-guard (is_one_of modes raw.mode) bad_mode _ λ known.
      Ensures-bind (opt_controller raw.external_controller) _
        (opt_controller-IsOptController raw.external_controller)
        λ controller c. Ensures-guard (is_one_of levels raw.log_level) bad_level _ λ level.
          Ensures-any (bind_to raw.allow_lan raw.bind_address) _ λ address bound.
            Ensures-guard (raw.allow_lan || is_loopback address) not_loopback _ λ local.
              Ensures-pure (IsSettings raw)
                (record {
                  address = address;
                  mode_name = mode_or_rule raw.mode;
                  controller = controller;
                })
                (record {
                  mode = is_one_of-mode raw.mode known;
                  closed = λ shut. ground arith;
                  control = c;
                })

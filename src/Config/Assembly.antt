-- ===== src/Config/Assembly.antt =====
-- The parts of `Config::parse_inner` in src/config.rs after the document was read: the settings, the
-- proxies, and `resolve_groups`. Rules and their providers are expanded elsewhere.
pub mod Settings
pub mod Named
pub mod Resolved
pub mod Accepted
pub mod Tests
use zc.Prelude.{
  ℕ, zero, suc, ◌+◌, ◌≤◌, Bool, true, false, not, ◌&&◌, ◌||◌, Option, none, some, List, [], ◌∷◌,
  ◌++◌, length, any, is_empty, is_some, leb, ltb, ◌==◌, if◌then◌else◌, map, Result, ok, err, ◌>>=◌,
  ◌>>◌, guard, ok_or,
}
use zc.Prelude.Text.{Text, bytes, text_eq, one_of, split_once, decode_utf8}
use zc.Prelude.Text.Chars.{has_control, is_trimmed}
use zc.IpAddr.{IpAddr, v4, v6, parse_ip}
use zc.Registry.State.{SocketAddr}
use zc.Config.Rules.{Names, get_name, parse_port, RuleError}
use zc.Config.Proxies.{ProxyKind, direct, reject, Proxy, RawProxy, ProxyError, build}
use zc.Config.Groups.{Search, GroupError, check_groups}
use zc.Config.Selections.{Group, max_groups}

pub data ConfigError : Type 0 where
  bad_name bad_group duplicate_name unknown_member too_many_proxies too_many_groups bad_ports
        bad_mode bad_controller bad_level bad_bind_address not_loopback :
      ConfigError
  bad_proxy : ProxyError → ConfigError
  bad_graph : GroupError → ConfigError

abbrev pub max_proxies : ℕ
max_proxies = 4096

-- `validate_name`. The text is a `str`.
unfoldable pub is_name : Text → Bool
unfolding is_trimmed has_control
is_name name =
    not (is_empty name)
    && is_trimmed name
    && not (any (λ b. b == b',') name)
    && not (has_control name)

pub record RawGroup : Type 0 where
  pub name : Text
  pub kind : Text
  pub proxies : List Text

-- `HashMap::insert` of a name that must be new.
unfoldable pub insert_name : Text → ℕ → Names → Result ConfigError Names
unfolding get_name
insert_name name index names = do
  guard (not (is_some (get_name name names))) duplicate_name
  ok ((name, index) ∷ names)

-- The first loop of `resolve_groups`, from group number `index` on; `proxy_count + group` is the node.
unfoldable pub name_groups : ℕ → List RawGroup → Names → Result ConfigError Names
unfolding is_name text_eq insert_name
name_groups node [] names = ok names
name_groups node (group ∷ groups) names = do
  guard (is_name group.name) bad_name
  guard (text_eq group.kind (bytes "select") && not (is_empty group.proxies)) bad_group
  names' ← insert_name group.name node names
  name_groups (suc node) groups names'

unfoldable pub find_members : Names → List Text → Result ConfigError (List ℕ)
unfolding get_name
find_members names [] = ok []
find_members names (member ∷ rest) = do
  node ← ok_or unknown_member (get_name member names)
  nodes ← find_members names rest
  ok (node ∷ nodes)

unfoldable pub find_edges : Names → List RawGroup → Result ConfigError (List (List ℕ))
unfolding find_members
find_edges names [] = ok []
find_edges names (group ∷ groups) = do
  nodes ← find_members names group.proxies
  rest ← find_edges names groups
  ok (nodes ∷ rest)

unfoldable pub zip_groups : List RawGroup → List (List ℕ) → List Group
zip_groups (group ∷ groups) (nodes ∷ edges) =
    record { name = group.name; members = nodes } ∷ zip_groups groups edges
zip_groups _ _ = []

unfoldable pub map_graph : {A : Type 0} → Result GroupError A → Result ConfigError A
map_graph (ok a) = ok a
map_graph (err e) = err (bad_graph e)

-- `resolve_groups`: the groups with their members' nodes, and all names.
unfoldable pub resolve_groups : List RawGroup → Names → ℕ → Result ConfigError (List Group × Names)
unfolding name_groups find_edges zip_groups map_graph check_groups
resolve_groups groups names proxy_count = do
  names' ← name_groups proxy_count groups names
  edges ← find_edges names' groups
  search ← map_graph (check_groups proxy_count edges)
  ok (zip_groups groups edges, names')

pub data RawEntry : Type 0 where
  proxy_entry : RawProxy → RawEntry
  group_entry : RawGroup → RawEntry

unfoldable pub map_proxy : {A : Type 0} → Result ProxyError A → Result ConfigError A
map_proxy (ok a) = ok a
map_proxy (err e) = err (bad_proxy e)

abbrev pub built_in : List Proxy
built_in =
    record { name = bytes "DIRECT"; kind = direct; udp = true; obfs = none }
    ∷ record { name = bytes "REJECT"; kind = reject; udp = false; obfs = none }
    ∷ []

-- The loop over the entries; `proxies` and `groups` are in their order.
unfoldable pub sort_entries :
    (Text → Bool)
    → List RawEntry
    → List Proxy
    → List RawGroup
    → Result ConfigError (List Proxy × List RawGroup)
unfolding build map_proxy
sort_entries is_server_name [] proxies groups = ok (proxies, groups)
sort_entries is_server_name (group_entry group ∷ entries) proxies groups =
    sort_entries is_server_name entries proxies (groups ++ group ∷ [])
sort_entries is_server_name (proxy_entry raw ∷ entries) proxies groups = do
  guard (not (length proxies == max_proxies + 2)) too_many_proxies
  proxy ← map_proxy (build is_server_name raw)
  sort_entries is_server_name entries (proxies ++ proxy ∷ []) groups

-- The loop that names the proxies.
unfoldable pub name_proxies : ℕ → List Proxy → Names → Result ConfigError Names
unfolding is_name insert_name
name_proxies index [] names = ok names
name_proxies index (proxy ∷ proxies) names = do
  guard (is_name proxy.name) bad_name
  names' ← insert_name proxy.name index names
  name_proxies (suc index) proxies names'

pub record Assembled : Type 0 where
  pub proxies : List Proxy
  pub groups : List Group
  pub names : Names

unfoldable pub assemble :
    (Text → Bool) → List RawEntry → List RawGroup → Result ConfigError Assembled
unfolding sort_entries name_proxies resolve_groups
assemble is_server_name entries more = do
  (proxies, groups) ← sort_entries is_server_name entries built_in []
  guard (not (ltb max_groups (length (groups ++ more)))) too_many_groups
  names ← name_proxies 0 proxies []
  (resolved, names') ← resolve_groups (groups ++ more) names (length proxies)
  ok (record { proxies = proxies; groups = resolved; names = names' })

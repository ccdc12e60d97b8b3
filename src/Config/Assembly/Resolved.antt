-- ===== src/Config/Assembly/Resolved.antt =====
-- What `resolve_groups` of src/config.rs hands on: every group has members, each a node that exists, and
-- following the selections from any node ends at a proxy.
use zc.Prelude.{
  ℕ, zero, suc, ◌+◌, ◌-◌, ◌<◌, ◌≡◌, refl, sym, ap, ◌∙◌, subst, Bool, not, some, List, [], ◌∷◌,
  length, get_or, map, Result, ok, err, Ensures, Ensures-pure, Ensures-any, Ensures-guard,
  Ensures-bind, arith, ok_injective, ◌++◌, ltb,
}
use zc.Prelude.Text.{Text}
use zc.Config.Proxies.{Proxy}
use zc.Config.Rules.{Names}
use zc.Config.Groups.{Search, GroupError, check_groups, members, resolve_proxy}
use zc.Config.Groups.Settles.{InBounds}
use zc.Config.Groups.Accepted.{ResolvesSpec, check_groups-ResolvesSpec}
use zc.Config.Selections.{Group, Graph, no_group, max_groups}
use zc.Config.Selections.Chosen.{IsChosen}
use zc.Config.Assembly.{
  RawGroup, name_groups, find_members, find_edges, zip_groups, map_graph, resolve_groups, Assembled,
  assemble, sort_entries, name_proxies, built_in, too_many_groups, RawEntry,
}
use zc.Config.Assembly.Named.{
  NamesSpec, name_groups-NamesSpec, name_proxies-NamesSpec, Extends, Numbered,
}

map_graph-ok : {A : Type 0} (r : Result GroupError A) {a : A} → map_graph r ≡ ok a → r ≡ ok a
unfolding map_graph
map_graph-ok (ok x) h = ap ok (ok_injective h)
map_graph-ok (err e) h = cc

find_edges-length :
    (names : Names) (groups : List RawGroup)
    → Ensures (λ edges. length edges ≡ length groups) (find_edges names groups)
unfolding find_edges
find_edges-length names [] = Ensures-pure _ [] refl
find_edges-length names (group ∷ groups) =
    Ensures-any (find_members names group.proxies) _ λ nodes found.
      Ensures-bind (find_edges names groups) _ (find_edges-length names groups)
        λ edges width. Ensures-pure _ (nodes ∷ edges) (ap suc width)

-- The groups that result have the names of the raw groups, and the edges as members.
zip_groups-names :
    (groups : List RawGroup) (edges : List (List ℕ))
    → length edges ≡ length groups
    → (map Group.name (zip_groups groups edges) ≡ map RawGroup.name groups)
      × (map Group.members (zip_groups groups edges) ≡ edges)
unfolding zip_groups
zip_groups-names [] [] h = (refl, refl)
zip_groups-names [] (nodes ∷ edges) h = absurd (omega (arith, h))
zip_groups-names (group ∷ groups) [] h = absurd (omega (arith, h))
zip_groups-names (group ∷ groups) (nodes ∷ edges) h =
    let (names, same) = zip_groups-names groups edges (omega (arith, h)) in
    (ap (λ rest. group.name ∷ rest) names, ap (λ rest. nodes ∷ rest) same)

length-map_members : (groups : List Group) → length (map Group.members groups) ≡ length groups
length-map_members [] = refl
length-map_members (group ∷ groups) = ap suc (length-map_members groups)

get_or-map_members :
    (groups : List Group) (i : ℕ)
    → get_or (map Group.members groups) i [] ≡ (get_or groups i no_group).members
get_or-map_members [] i = refl
get_or-map_members (group ∷ groups) zero = refl
get_or-map_members (group ∷ groups) (suc i) = get_or-map_members groups i

-- The graph of a configuration, with selections that may have been changed since.
abbrev pub graph_of : List Text → List Group → List ℕ → Graph
graph_of proxy_names groups selections = record {
  proxy_names = proxy_names;
  groups = groups;
  selections = selections;
}

IsChosen-InBounds :
    (proxy_names : List Text) (groups : List Group) (selections : List ℕ) (proxies : ℕ)
    → IsChosen (graph_of proxy_names groups selections)
    → InBounds proxies (map Group.members groups) selections
unfolding members
IsChosen-InBounds proxy_names groups selections proxies chosen = record {
  member = λ n low high.
      subst (λ ms. get_or selections (n - proxies) 0 < length ms)
        (sym (get_or-map_members groups (n - proxies)))
        (chosen.member (n - proxies) (omega (arith, low, high, length-map_members groups)));
}

-- What the accepted groups promise.
pub record IsResolved (proxy_count : ℕ) (raw : List RawGroup) (before : Names) (groups : List Group)
    (names : Names) : Type 0 where
  pub kept : NamesSpec proxy_count (map RawGroup.name raw) before names
  pub named : map Group.name groups ≡ map RawGroup.name raw
  -- For all selections that choose members, a node leads to a proxy.
  pub leads :
      (proxy_names : List Text) (selections : List ℕ) (node : ℕ)
      → IsChosen (graph_of proxy_names groups selections)
      → node < proxy_count + length groups
      → (leaf : ℕ) × (resolve_proxy proxy_count (map Group.members groups) selections node
          ≡ some leaf)
        × (leaf < proxy_count)

abbrev pub ResolvedSpec : ℕ → List RawGroup → Names → List Group × Names → Type 0
ResolvedSpec proxy_count raw before (groups, names) = IsResolved proxy_count raw before groups names

resolve_groups-ResolvedSpec :
    (raw : List RawGroup) (before : Names) (proxy_count : ℕ)
    → Ensures (ResolvedSpec proxy_count raw before) (resolve_groups raw before proxy_count)
unfolding resolve_groups
resolve_groups-ResolvedSpec raw before proxy_count =
    Ensures-bind (name_groups proxy_count raw before) _
      (name_groups-NamesSpec proxy_count raw before)
      λ names kept.
        Ensures-bind (find_edges names raw) _ (find_edges-length names raw) λ edges width.
          Ensures-any (map_graph (check_groups proxy_count edges)) _ λ search checked.
            Ensures-pure _ (zip_groups raw edges, names)
              (zipped names edges search kept width
                (map_graph-ok (check_groups proxy_count edges) checked))
  where
    zipped :
        (names : Names) (edges : List (List ℕ)) (search : Search)
        → NamesSpec proxy_count (map RawGroup.name raw) before names
        → length edges ≡ length raw
        → check_groups proxy_count edges ≡ ok search
        → IsResolved proxy_count raw before (zip_groups raw edges) names
    zipped names edges search kept width checked =
        let (named, same) = zip_groups-names raw edges width in
        record {
          kept = kept;
          named = named;
          leads = λ proxy_names selections node chosen h.
              subst
                (ResolvesSpec proxy_count (map Group.members (zip_groups raw edges)) selections
                  node)
                (ap (check_groups proxy_count) same ∙ checked)
                (check_groups-ResolvesSpec proxy_count (map Group.members (zip_groups raw edges))
                  selections node
                  (IsChosen-InBounds proxy_names (zip_groups raw edges) selections proxy_count
                    chosen)
                  (omega (arith, h, length-map_members (zip_groups raw edges))));
        }

-- What an assembled configuration promises: its proxies and groups are numbered by their names, and
-- every node leads to a proxy.
pub record IsAssembled (c : Assembled) : Type 0 where
  pub numbered : Numbered 0 (map Proxy.name c.proxies) c.names
  pub grouped : Numbered (length c.proxies) (map Group.name c.groups) c.names
  pub leads :
      (proxy_names : List Text) (selections : List ℕ) (node : ℕ)
      → IsChosen (graph_of proxy_names c.groups selections)
      → node < length c.proxies + length c.groups
      → (leaf : ℕ) × (resolve_proxy (length c.proxies) (map Group.members c.groups) selections node
          ≡ some leaf)
        × (leaf < length c.proxies)

Numbered-Extends :
    (node : ℕ) (rest : List Text) (names names' : Names)
    → Extends names names'
    → Numbered node rest names
    → Numbered node rest names'
Numbered-Extends node [] names names' x v = tt
Numbered-Extends node (name ∷ rest) names names' x (e, v) =
    (x.still name node e, Numbered-Extends (suc node) rest names names' x v)

-- In an accepted configuration, proxy number i is the node its name stands for, group number g is
-- node P + g by its name, and for every choice of members, each node is resolved to a proxy.
pub assemble-IsAssembled :
    (is_server_name : Text → Bool) (entries : List RawEntry) (more : List RawGroup)
    → Ensures IsAssembled (assemble is_server_name entries more)
unfolding assemble
assemble-IsAssembled is_server_name entries more =
    Ensures-any (sort_entries is_server_name entries built_in []) _ λ sorted from.
      Ensures-guard (not (ltb max_groups (length (sorted.1 ++ more)))) too_many_groups _ λ few.
        Ensures-bind (name_proxies 0 sorted.0 []) _ (name_proxies-NamesSpec 0 sorted.0 [])
          λ names kept.
            Ensures-bind (resolve_groups (sorted.1 ++ more) names (length sorted.0)) _
              (resolve_groups-ResolvedSpec (sorted.1 ++ more) names (length sorted.0))
              λ result v.
                Ensures-pure IsAssembled
                  (record { proxies = sorted.0; groups = result.0; names = result.1 })
                  (record {
                    numbered =
                        Numbered-Extends 0 (map Proxy.name sorted.0) names result.1 v.kept.0 kept.1;
                    grouped =
                        subst (λ ns. Numbered (length sorted.0) ns result.1) (sym v.named) v.kept.1;
                    leads = v.leads;
                  })

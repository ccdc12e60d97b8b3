-- ===== src/Config/Selections/Tests.antt =====
-- The selections of src/config.rs at a concrete graph.
use zc.Prelude.{
  ap, ◌≢◌, none, ℕ, zero, suc, ◌<◌, ◌≡◌, refl, [], ◌∷◌, length, arith, ok, err, some, get_or,
}
use zc.Prelude.Text.{Text, bytes}
use zc.Config.Selections.{Graph, not_member, no_group, select, set_selections}
use zc.Config.Selections.Chosen.{
  IsChosen, AllNonempty, SelectSpec, SnapshotSpec, select-SelectSpec, set_selections-SnapshotSpec,
}
use zc.Config.Selections.Selected.{get_entry, selected, IsNamed, IsUnnamed, selected-select}

abbrev graph : Graph
graph = record {
  proxy_names = bytes "DIRECT" ∷ bytes "REJECT" ∷ bytes "tokyo" ∷ [];
  groups =
      record { name = bytes "auto"; members = 2 ∷ 4 ∷ [] }
      ∷ record { name = bytes "home"; members = 0 ∷ 1 ∷ [] }
      ∷ [];
  selections = 0 ∷ 1 ∷ [];
}

graph_member :
    (g : ℕ) → g < 2 → get_or graph.selections g 0 < length (get_or graph.groups g no_group).members
graph_member zero h = omega arith
graph_member (suc zero) h = omega arith
graph_member (suc (suc g)) h = absurd (omega (arith, h))

graph-IsChosen : IsChosen graph
graph-IsChosen = record { width = refl; member = graph_member }

graph_nonempty : (g : ℕ) → g < 2 → 0 < length (get_or graph.groups g no_group).members
graph_nonempty zero h = omega arith
graph_nonempty (suc zero) h = omega arith
graph_nonempty (suc (suc g)) h = absurd (omega (arith, h))

graph-AllNonempty : AllNonempty graph
graph-AllNonempty = record { nonempty = graph_nonempty }

selects_a_group : (select graph (bytes "auto") (bytes "home")).1.selections ≡ 1 ∷ 1 ∷ []
unfolding select
selects_a_group = refl

refuses_a_stranger : (select graph (bytes "home") (bytes "tokyo")).0 ≡ err not_member
unfolding select
refuses_a_stranger = refl

select-SelectSpec_example :
    SelectSpec graph (bytes "auto") (bytes "home") (select graph (bytes "auto") (bytes "home"))
select-SelectSpec_example = select-SelectSpec graph (bytes "auto") (bytes "home") graph-IsChosen

set_selections-SnapshotSpec_example :
    SnapshotSpec graph
      ((bytes "home", bytes "REJECT") ∷ [])
      (set_selections graph ((bytes "home", bytes "REJECT") ∷ []))
set_selections-SnapshotSpec_example =
    set_selections-SnapshotSpec graph ((bytes "home", bytes "REJECT") ∷ []) graph-AllNonempty
      (tt, tt)

chosen_graph :
    select graph (bytes "auto") (bytes "home") ≡ (ok tt, record graph { selections = 1 ∷ 1 ∷ [] })
unfolding select
chosen_graph = refl

graph-IsNamed : IsNamed graph.groups
graph-IsNamed = (
  (λ e. let first : 104 ≡ 97 = ap (λ t. get_or t 0 0) e in absurd (omega (arith, first)), tt),
  (tt, tt),
)

selected-select_example :
    (get_entry (bytes "auto") (selected (record graph { selections = 1 ∷ 1 ∷ [] }))
      ≡ some (bytes "home"))
    × ((g : ℕ)
        → g < length graph.groups
        → (get_or graph.groups g no_group).name ≢ bytes "auto"
        → get_entry
            (get_or graph.groups g no_group).name
            (selected (record graph { selections = 1 ∷ 1 ∷ [] }))
          ≡ get_entry (get_or graph.groups g no_group).name (selected graph))
    × ((name : Text)
        → IsUnnamed name graph.groups
        → get_entry name (selected (record graph { selections = 1 ∷ 1 ∷ [] })) ≡ none)
selected-select_example =
    selected-select graph (record graph { selections = 1 ∷ 1 ∷ [] }) (bytes "auto") (bytes "home")
      graph-IsNamed graph-IsChosen chosen_graph

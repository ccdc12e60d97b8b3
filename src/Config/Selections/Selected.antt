-- ===== src/Config/Selections/Selected.antt =====
-- `Config::selected` of src/config.rs: which member each group uses, by their names.
use zc.Prelude.{
  ◌≢◌, All, Option, none, is_some, false, Bool-cases, inl, inr, zero, ℕ, zero, suc, ◌-◌, ◌<◌, ◌≡◌,
  refl, sym, ap, ◌∙◌, subst, some, List, [], ◌∷◌, length, get_or, ltb, if◌then◌else◌, ok, arith,
}
use zc.Prelude.Text.{Text, text_eq, text_eq_iff, text_eq_refl}
use zc.Config.Selections.{Group, Graph, no_group, node_name, select}
use zc.Config.Selections.Chosen.{IsChosen, SelectSpec, select-SelectSpec}

-- The zip of the groups and their selections. A selection is the index of a member, or the code panics.
unfoldable pub zip_selected : Graph → List Group → List ℕ → List (Text × Text)
unfolding node_name
zip_selected c (group ∷ groups) (selection ∷ selections) =
    (group.name, node_name c (get_or group.members selection 0)) ∷ zip_selected c groups selections
zip_selected c _ _ = []

-- `BTreeMap::get`
unfoldable pub get_entry : Text → List (Text × Text) → Option Text
unfolding text_eq
get_entry name [] = none
get_entry name ((key, value) ∷ entries) =
    let rest = get_entry name entries in if text_eq key name then some value else rest

-- `collect` to a `BTreeMap`: one entry for each name, the last one. The order of the keys is not modelled.
unfoldable pub collect : List (Text × Text) → List (Text × Text)
unfolding get_entry
collect [] = []
collect ((key, value) ∷ entries) =
    let rest = collect entries in if is_some (get_entry key rest) then rest else (key, value) ∷ rest

unfoldable pub selected : Graph → List (Text × Text)
unfolding zip_selected collect
selected c = collect (zip_selected c c.groups c.selections)

-- No group of the list has the name.
abbrev pub IsUnnamed : Text → List Group → Type 0
IsUnnamed name groups = All (λ group. group.name ≢ name) groups

-- Groups have names of their own.
abbrev pub IsNamed : List Group → Type 0
IsNamed [] = Unit {0}
IsNamed (group ∷ groups) = IsUnnamed group.name groups × IsNamed groups

text_eq-ne : (a b : Text) → a ≢ b → text_eq a b ≡ false
text_eq-ne a b h = elim (Bool-cases (text_eq a b)) [
  | inl same ↦ absurd (h ((text_eq_iff a b).0 same))
  | inr other ↦ other
]

get_entry-cons_ne :
    (name key value : Text) (entries : List (Text × Text))
    → key ≢ name
    → get_entry name ((key, value) ∷ entries) ≡ get_entry name entries
unfolding get_entry
get_entry-cons_ne name key value entries h = rw (text_eq-ne key name h) refl

-- Another name's entry does not matter.
get_entry-collect_ne :
    (name key value : Text) (entries : List (Text × Text))
    → key ≢ name
    → get_entry name (collect ((key, value) ∷ entries)) ≡ get_entry name (collect entries)
unfolding collect
get_entry-collect_ne name key value entries h =
    elim (Bool-cases (is_some (get_entry key (collect entries)))) [
      | inl later ↦ rw later refl
      | inr first ↦ rw first (get_entry-cons_ne name key value (collect entries) h)
    ]

get_entry-collect_new :
    (name value : Text) (entries : List (Text × Text))
    → get_entry name (collect entries) ≡ none
    → get_entry name (collect ((name, value) ∷ entries)) ≡ some value
unfolding collect get_entry
get_entry-collect_new name value entries h = rw h (rw (text_eq_refl name) refl)

zip-unnamed :
    (c : Graph) (name : Text) (groups : List Group) (selections : List ℕ)
    → IsUnnamed name groups
    → get_entry name (collect (zip_selected c groups selections)) ≡ none
unfolding zip_selected
zip-unnamed c name [] selections h = unfold collect get_entry in refl
zip-unnamed c name (group ∷ groups) [] h = unfold collect get_entry in refl
zip-unnamed c name (group ∷ groups) (s ∷ selections) (other, others) =
    get_entry-collect_ne name group.name _ (zip_selected c groups selections) other
    ∙ zip-unnamed c name groups selections others

get-IsUnnamed :
    (name : Text) (groups : List Group) (i : ℕ)
    → i < length groups
    → IsUnnamed name groups
    → (get_or groups i no_group).name ≢ name
get-IsUnnamed name [] i h others = absurd (omega (arith, h))
get-IsUnnamed name (group ∷ groups) zero h (other, others) = other
get-IsUnnamed name (group ∷ groups) (suc i) h (other, others) =
    get-IsUnnamed name groups i (omega (arith, h)) others

-- The member that a group uses, by its name.
abbrev pub member_name : Graph → List Group → List ℕ → ℕ → Text
member_name c groups selections i =
    node_name c (get_or (get_or groups i no_group).members (get_or selections i 0) 0)

zip-named :
    (c : Graph) (groups : List Group) (selections : List ℕ) (i : ℕ)
    → i < length groups
    → length selections ≡ length groups
    → IsNamed groups
    → get_entry (get_or groups i no_group).name (collect (zip_selected c groups selections))
      ≡ some (member_name c groups selections i)
unfolding zip_selected
zip-named c [] selections i h w named = absurd (omega (arith, h))
zip-named c (group ∷ groups) [] i h w named = absurd (omega (arith, w))
zip-named c (group ∷ groups) (s ∷ selections) zero h w (own, named) =
    get_entry-collect_new group.name (node_name c (get_or group.members s 0))
      (zip_selected c groups selections) (zip-unnamed c group.name groups selections own)
zip-named c (group ∷ groups) (s ∷ selections) (suc i) h w (own, named) =
    get_entry-collect_ne (get_or groups i no_group).name group.name _
      (zip_selected c groups selections)
      (λ same. get-IsUnnamed group.name groups i (omega (arith, h)) own (sym same))
    ∙ zip-named c groups selections i (omega (arith, h)) (omega (arith, w)) named

-- A node's name does not depend on the selections.
node_name_same :
    (c c' : Graph) (node : ℕ)
    → c'.groups ≡ c.groups
    → c'.proxy_names ≡ c.proxy_names
    → node_name c' node ≡ node_name c node
unfolding node_name
node_name_same c c' node groups names =
    ap
      (λ ps.
        if ltb node (length ps)
        then get_or ps node []
        else (get_or c'.groups (node - length ps) no_group).name)
      names
    ∙ ap
        (λ gs.
          if ltb node (length c.proxy_names)
          then get_or c.proxy_names node []
          else (get_or gs (node - length c.proxy_names) no_group).name)
        groups

-- What `selected` reports: for each group its member, and nothing for a name that is no group's.
abbrev pub Reports : Graph → Type 0
Reports c =
    ((g : ℕ)
      → g < length c.groups
      → get_entry (get_or c.groups g no_group).name (selected c)
        ≡ some (member_name c c.groups c.selections g))
    × ((name : Text) → IsUnnamed name c.groups → get_entry name (selected c) ≡ none)

selected-Reports : (c : Graph) → IsNamed c.groups → IsChosen c → Reports c
unfolding selected
selected-Reports c named chosen = (
  λ g h. zip-named c c.groups c.selections g h chosen.width named,
  λ name others. zip-unnamed c name c.groups c.selections others,
)

-- A report of the later graph in terms of the earlier one.
reported :
    (c c' : Graph)
    → c'.groups ≡ c.groups
    → c'.proxy_names ≡ c.proxy_names
    → (g : ℕ)
    → get_entry (get_or c'.groups g no_group).name (selected c')
      ≡ some (member_name c' c'.groups c'.selections g)
    → get_entry (get_or c.groups g no_group).name (selected c')
      ≡ some (member_name c c.groups c'.selections g)
reported c c' groups names g h =
    subst
      (λ gs.
        get_entry (get_or gs g no_group).name (selected c')
        ≡ some (member_name c' gs c'.selections g))
      groups h
    ∙ ap some (
        node_name_same c c'
          (get_or (get_or c.groups g no_group).members (get_or c'.selections g 0) 0) groups names)

-- From selections that are members of their groups, whose names are their own, after a selection that `select`
-- accepts: `selected` reports the selected member for the group, for every other group the member that
-- it reported before, and nothing for a name that is no group's.
pub selected-select :
    (c c' : Graph) (group proxy : Text)
    → IsNamed c.groups
    → IsChosen c
    → select c group proxy ≡ (ok tt, c')
    → (get_entry group (selected c') ≡ some proxy)
      × ((g : ℕ)
          → g < length c.groups
          → (get_or c.groups g no_group).name ≢ group
          → get_entry (get_or c.groups g no_group).name (selected c')
            ≡ get_entry (get_or c.groups g no_group).name (selected c))
      × ((name : Text) → IsUnnamed name c.groups → get_entry name (selected c') ≡ none)
selected-select c c' group proxy named chosen done =
    let (index, chosen', v, groups, names, others) =
      subst (SelectSpec c group proxy) done (select-SelectSpec c group proxy chosen) in
    let old = selected-Reports c named chosen in
    let new = selected-Reports c' (subst IsNamed (sym groups) named) chosen' in
    (
      subst (λ n. get_entry n (selected c') ≡ some proxy) v.named
          (reported c c' groups names index
              (new.0 index (subst (λ gs. index < length gs) (sym groups) v.in_groups))
            ∙ ap some v.leads),
      λ g h other.
          reported c c' groups names g (new.0 g (subst (λ gs. g < length gs) (sym groups) h))
          ∙ ap (λ m. some (node_name c (get_or (get_or c.groups g no_group).members m 0)))
              (others g
                (λ same. other (ap (λ k. (get_or c.groups k no_group).name) (sym same) ∙ v.named)))
          ∙ sym (old.0 g h),
      λ name unnamed. new.1 name (subst (IsUnnamed name) (sym groups) unnamed),
    )

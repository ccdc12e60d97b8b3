-- ===== src/Config/Assembly/Named.antt =====
-- The names of an assembled configuration of src/config.rs.
use zc.Prelude.{
  ℕ, suc, ◌≡◌, refl, sym, ap, ◌∙◌, subst, false, not, ◌&&◌, Option, none, some, List, [], ◌∷◌, inl,
  inr, map, is_some, is_empty, Ensures, Ensures-pure, Ensures-bind, Ensures-guard, Ensures-map,
  arith, Bool-cases,
}
use zc.Prelude.Text.{Text, bytes, text_eq, text_eq_iff, text_eq_refl}
use zc.Config.Rules.{Names, get_name}
use zc.Config.Proxies.{Proxy}
use zc.Config.Assembly.{
  bad_name, bad_group, duplicate_name, is_name, RawGroup, insert_name, name_groups, name_proxies,
}

-- Nothing that had a name loses it.
pub record Extends (names names' : Names) : Type 0 where
  pub still :
      (name : Text) (node : ℕ) → get_name name names ≡ some node → get_name name names' ≡ some node

Extends-refl : (names : Names) → Extends names names
Extends-refl names = record { still = λ name node e. e }

pub Extends-trans : (a b c : Names) → Extends a b → Extends b c → Extends a c
Extends-trans a b c f g = record { still = λ name node e. g.still name node (f.still name node e) }

get_name-cons :
    (name : Text) (node : ℕ) (names : Names) → get_name name ((name, node) ∷ names) ≡ some node
unfolding get_name
get_name-cons name node names = rw (text_eq_refl name) refl

some-unnamed : {o : Option ℕ} {v : ℕ} → o ≡ some v → is_some o ≡ false → ⊥
some-unnamed {o = none} e new = cc
some-unnamed {o = some x} e new = cc

get_name-cons-new :
    (name key : Text) (node v : ℕ) (names : Names)
    → get_name key names ≡ some v
    → is_some (get_name name names) ≡ false
    → get_name key ((name, node) ∷ names) ≡ some v
unfolding get_name
get_name-cons-new name key node v names e new = elim (Bool-cases (text_eq name key)) [
  | inl same ↦ absurd (
      some-unnamed (subst (λ t. get_name t names ≡ some v) (sym ((text_eq_iff name key).0 same)) e)
        new)
  | inr other ↦ rw other e
]

abbrev Inserted : Text → ℕ → Names → Names → Type 0
Inserted name node names names' = (names' ≡ (name, node) ∷ names) × Extends names names'

insert_name-Inserted :
    (name : Text) (node : ℕ) (names : Names)
    → Ensures (Inserted name node names) (insert_name name node names)
unfolding insert_name
insert_name-Inserted name node names =
    Ensures-guard (not (is_some (get_name name names))) duplicate_name _ λ new.
      Ensures-pure (Inserted name node names) ((name, node) ∷ names) (
        refl,
        record { still = λ key v e. get_name-cons-new name key node v names e (ground arith) },
      )

-- The names, in their order, stand for the nodes from `node` on.
abbrev pub Numbered : ℕ → List Text → Names → Type 0
Numbered node [] names = Unit {0}
Numbered node (name ∷ rest) names =
    (get_name name names ≡ some node) × Numbered (suc node) rest names

-- What the two naming loops do to the names.
abbrev pub NamesSpec : ℕ → List Text → Names → Names → Type 0
NamesSpec node added names names' = Extends names names' × Numbered node added names'

NamesSpec-cons :
    (node : ℕ) (name : Text) (rest : List Text) (names names' names'' : Names)
    → Inserted name node names names'
    → NamesSpec (suc node) rest names' names''
    → NamesSpec node (name ∷ rest) names names''
NamesSpec-cons node name rest names names' names'' (e, x) (y, later) = (
  Extends-trans names names' names'' x y,
  (y.still name node (ap (get_name name) e ∙ get_name-cons name node names), later),
)

pub name_proxies-NamesSpec :
    (node : ℕ) (proxies : List Proxy) (names : Names)
    → Ensures (NamesSpec node (map Proxy.name proxies) names) (name_proxies node proxies names)
unfolding name_proxies
name_proxies-NamesSpec node [] names = Ensures-pure _ names (Extends-refl names, tt)
name_proxies-NamesSpec node (proxy ∷ proxies) names =
    Ensures-guard (is_name proxy.name) bad_name _ λ proper.
      Ensures-bind (insert_name proxy.name node names)
        (λ names'. name_proxies (suc node) proxies names')
        (insert_name-Inserted proxy.name node names)
        λ names' new.
          Ensures-map (name_proxies (suc node) proxies names')
            (λ names''.
              NamesSpec-cons node proxy.name (map Proxy.name proxies) names names' names'' new)
            (name_proxies-NamesSpec (suc node) proxies names')

pub name_groups-NamesSpec :
    (node : ℕ) (groups : List RawGroup) (names : Names)
    → Ensures (NamesSpec node (map RawGroup.name groups) names) (name_groups node groups names)
unfolding name_groups
name_groups-NamesSpec node [] names = Ensures-pure _ names (Extends-refl names, tt)
name_groups-NamesSpec node (group ∷ groups) names =
    Ensures-guard (is_name group.name) bad_name _ λ proper.
      Ensures-guard (text_eq group.kind (bytes "select") && not (is_empty group.proxies)) bad_group
        _
        λ some_members.
          Ensures-bind (insert_name group.name node names)
            (λ names'. name_groups (suc node) groups names')
            (insert_name-Inserted group.name node names)
            λ names' new.
              Ensures-map (name_groups (suc node) groups names')
                (λ names''.
                  NamesSpec-cons node group.name (map RawGroup.name groups) names names' names''
                    new)
                (name_groups-NamesSpec (suc node) groups names')

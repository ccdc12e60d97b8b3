-- ===== src/Config/Selections.antt =====
-- The selections of src/config.rs: which member each proxy group uses.
pub mod Chosen
pub mod Selected
pub mod Tests
use zc.Prelude.{
  ℕ, zero, suc, ◌+◌, ◌-◌, Bool, true, false, Option, none, some, List, [], ◌∷◌, length, get_or, set,
  replicate, ltb, leb, if◌then◌else◌, Result, ok, err, ◌>>=◌, ◌>>◌, guard, ok_or,
}
use zc.Prelude.Text.{Text, text_eq}

pub record Group : Type 0 where
  pub name : Text
  pub members : List ℕ

-- The parts of `Config` that a selection reads and changes: the names of the proxies, the groups, and
-- the selections behind their lock.
pub record Graph : Type 0 where
  pub proxy_names : List Text
  pub groups : List Group
  pub selections : List ℕ

pub data SelectError : Type 0 where
  unknown_group not_member too_many : SelectError

abbrev pub max_groups : ℕ
max_groups = 1024

abbrev pub no_group : Group
no_group = record { name = []; members = [] }

unfoldable pub node_name : Graph → ℕ → Text
node_name c index =
    if ltb index (length c.proxy_names)
    then get_or c.proxy_names index []
    else (get_or c.groups (index - length c.proxy_names) no_group).name

-- `Iterator::position`
unfoldable pub position_next : Bool → Option ℕ → Option ℕ
position_next true later = some 0
position_next false none = none
position_next false (some i) = some (suc i)

unfoldable pub position {ℓ} : {A : Type ℓ} → (A → Bool) → List A → Option ℕ
unfolding position_next
position p [] = none
position p (x ∷ xs) = position_next (p x) (position p xs)

unfoldable pub selection : Graph → Text → Text → Result SelectError (ℕ × ℕ)
unfolding position text_eq node_name
selection c group proxy = do
  index ← ok_or unknown_group (position (λ g. text_eq g.name group) c.groups)
  member ←
      ok_or not_member (
        position (λ node. text_eq (node_name c node) proxy)
          (get_or c.groups index no_group).members)
  ok (index, member)

unfoldable pub apply_selection :
    Result SelectError (ℕ × ℕ) → Graph → Result SelectError (Unit {0}) × Graph
apply_selection (err e) c = (err e, c)
apply_selection (ok (index, member)) c =
    (ok tt, record c { selections = set c.selections index member })

unfoldable pub select : Graph → Text → Text → Result SelectError (Unit {0}) × Graph
unfolding selection apply_selection
select c group proxy = apply_selection (selection c group proxy) c

-- The loop of `set_selections` over the entries of the snapshot.
unfoldable pub fill : Graph → List ℕ → List (Text × Text) → Result SelectError (List ℕ)
unfolding selection
fill c next [] = ok next
fill c next ((group, proxy) ∷ entries) = do
  (index, member) ← selection c group proxy
  fill c (set next index member) entries

unfoldable pub publish : Result SelectError (List ℕ) → Graph → Result SelectError (Unit {0}) × Graph
publish (err e) c = (err e, c)
publish (ok next) c = (ok tt, record c { selections = next })

unfoldable pub set_selections : Graph → List (Text × Text) → Result SelectError (Unit {0}) × Graph
unfolding fill publish
set_selections c entries =
    publish
      (guard (leb (length entries) max_groups) too_many
        >> fill c (replicate (length c.groups) 0) entries)
      c

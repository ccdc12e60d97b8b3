-- ===== src/Config/Selections/Chosen.antt =====
-- What the selections of src/config.rs keep: each is the index of a member of its group.
use zc.Prelude.{
  All, ℕ, zero, suc, ◌==◌, ◌<◌, ◌≡◌, ◌≢◌, refl, sym, ap, subst, ◌∙◌, Bool, true, false, Option,
  none, some, List, [], ◌∷◌, length, get_or, set, replicate, leb, Result, ok, err, guard, ok_or,
  arith, inl, inr, ◌⊎◌, Bool-cases, >>=-eq-ok, ok_or-some, ok_injective, length-set,
  length-replicate,
}
use zc.Prelude.Text.{Text, text_eq, text_eq_iff}
use zc.Config.Selections.{
  Graph, SelectError, max_groups, too_many, unknown_group, not_member, no_group, node_name,
  position_next, position, selection, apply_selection, select, fill, publish, set_selections,
}

position_next_cases :
    (b : Bool) (later : Option ℕ) (i : ℕ)
    → position_next b later ≡ some i
    → ((b ≡ true) × (0 ≡ i)) ⊎ ((j : ℕ) × (later ≡ some j) × (suc j ≡ i))
unfolding position_next
position_next_cases true later i h = inl (refl, cc)
position_next_cases false none i h = cc
position_next_cases false (some j) i h = inr (j, refl, cc)

module _ {A : Type 0} where
  pub position-get :
      (p : A → Bool) (xs : List A) (i : ℕ) (d : A)
      → position p xs ≡ some i
      → (i < length xs) × (p (get_or xs i d) ≡ true)
  unfolding position
  position-get p [] i d h = cc
  position-get p (x ∷ xs) i d h = elim (position_next_cases (p x) (position p xs) i h) [
    | inl (t, e) ↦
        subst (λ k. (k < length (x ∷ xs)) × (p (get_or (x ∷ xs) k d) ≡ true)) e (omega arith, t)
    | inr (j, f, e) ↦
        let (lt, t) = position-get p xs j d f in
        subst (λ k. (k < length (x ∷ xs)) × (p (get_or (x ∷ xs) k d) ≡ true)) e
          (omega (arith, lt), t)
  ]

  get_or-set_self : (xs : List A) (i : ℕ) (v d : A) → i < length xs → get_or (set xs i v) i d ≡ v
  get_or-set_self [] i v d h = absurd (omega (arith, h))
  get_or-set_self (x ∷ xs) zero v d h = refl
  get_or-set_self (x ∷ xs) (suc i) v d h = get_or-set_self xs i v d (omega (arith, h))

  get_or-set_ne :
      (xs : List A) (i j : ℕ) (v d : A) → i ≢ j → get_or (set xs i v) j d ≡ get_or xs j d
  get_or-set_ne [] i j v d h = refl
  get_or-set_ne (x ∷ xs) zero zero v d h = absurd (h refl)
  get_or-set_ne (x ∷ xs) zero (suc j) v d h = refl
  get_or-set_ne (x ∷ xs) (suc i) zero v d h = refl
  get_or-set_ne (x ∷ xs) (suc i) (suc j) v d h = get_or-set_ne xs i j v d (λ e. h (ap suc e))

-- Every group's selection is the index of one of its members, of which it has some.
pub record IsChosen (c : Graph) : Type 0 where
  pub width : length c.selections ≡ length c.groups
  pub member :
      (g : ℕ)
      → g < length c.groups
      → get_or c.selections g 0 < length (get_or c.groups g no_group).members

-- What a selection of `selection` is: a group of the name, and its member of the name.
pub record IsSelection (c : Graph) (group proxy : Text) (index member : ℕ) : Type 0 where
  pub in_groups : index < length c.groups
  pub named : (get_or c.groups index no_group).name ≡ group
  pub in_members : member < length (get_or c.groups index no_group).members
  pub leads : node_name c (get_or (get_or c.groups index no_group).members member 0) ≡ proxy

selection-IsSelection :
    (c : Graph) (group proxy : Text) (index member : ℕ)
    → selection c group proxy ≡ ok (index, member)
    → IsSelection c group proxy index member
unfolding selection
selection-IsSelection c group proxy index member h =
    let (g, eg, h') =
      >>=-eq-ok (ok_or unknown_group (position (λ g. text_eq g.name group) c.groups)) _ h in
    let (m, em, h'') =
      >>=-eq-ok
        (ok_or not_member (
          position (λ node. text_eq (node_name c node) proxy) (get_or c.groups g no_group).members))
        _ h' in
    let (lt, t) =
      position-get (λ x. text_eq x.name group) c.groups g no_group (ok_or-some _ _ eg) in
    let (lt', t') =
      position-get (λ node. text_eq (node_name c node) proxy) (get_or c.groups g no_group).members m
        0 (ok_or-some _ _ em) in
    subst (λ p. IsSelection c group proxy p.0 p.1) (ok_injective h'')
      (record {
        in_groups = lt;
        named = (text_eq_iff _ _).0 t;
        in_members = lt';
        leads = (text_eq_iff _ _).0 t';
      })

set-IsChosen :
    (c : Graph) (selections : List ℕ) (index member : ℕ)
    → length selections ≡ length c.groups
    → index < length c.groups
    → member < length (get_or c.groups index no_group).members
    → ((g : ℕ)
        → g < length c.groups
        → get_or selections g 0 < length (get_or c.groups g no_group).members)
    → IsChosen (record c { selections = set selections index member })
set-IsChosen c selections index member width lt small all = record {
  width = length-set selections index member ∙ width;
  member = λ g h. elim (Bool-cases (g == index)) [
    | inl same ↦
        let e : index ≡ g = ground arith in
        subst
          (λ k.
            get_or (set selections index member) k 0 < length (get_or c.groups k no_group).members)
          e
          (subst (λ v. v < length (get_or c.groups index no_group).members)
            (sym (get_or-set_self selections index member 0 (omega (arith, width, lt)))) small)
    | inr other ↦
        subst (λ v. v < length (get_or c.groups g no_group).members)
          (sym (get_or-set_ne selections index g member 0 (ground arith))) (all g h)
  ];
}

abbrev pub SelectSpec : Graph → Text → Text → Result SelectError (Unit {0}) × Graph → Type 0
SelectSpec c group proxy (err e, c') = c' ≡ c
SelectSpec c group proxy (ok u, c') =
    (index : ℕ) × IsChosen c'
    × IsSelection c group proxy index (get_or c'.selections index 0)
    × (c'.groups ≡ c.groups)
    × (c'.proxy_names ≡ c.proxy_names)
    × ((g : ℕ) → index ≢ g → get_or c'.selections g 0 ≡ get_or c.selections g 0)

apply_selection-SelectSpec :
    (c : Graph) (group proxy : Text) (r : Result SelectError (ℕ × ℕ))
    → ((index member : ℕ) → r ≡ ok (index, member) → IsSelection c group proxy index member)
    → IsChosen c
    → SelectSpec c group proxy (apply_selection r c)
unfolding apply_selection
apply_selection-SelectSpec c group proxy (err e) picks v = refl
apply_selection-SelectSpec c group proxy (ok (index, member)) picks v =
    let p = picks index member refl in
    (
      index,
      set-IsChosen c c.selections index member v.width p.in_groups p.in_members v.member,
      subst (IsSelection c group proxy index)
          (sym (get_or-set_self c.selections index member 0 (omega (arith, v.width, p.in_groups))))
          p,
      refl,
      refl,
      λ g other. get_or-set_ne c.selections index g member 0 other,
    )

-- `select` under the invariant that every selection is within its group: a refusal changes nothing.
-- Otherwise the group has the name asked for, its new selection is a member with the name asked for,
-- all else is as it was, and the invariant holds again.
pub select-SelectSpec :
    (c : Graph) (group proxy : Text) → IsChosen c → SelectSpec c group proxy (select c group proxy)
unfolding select
select-SelectSpec c group proxy v =
    apply_selection-SelectSpec c group proxy (selection c group proxy)
      (selection-IsSelection c group proxy) v

-- No entry of a snapshot is for the group.
abbrev pub IsOther : Text → List (Text × Text) → Type 0
IsOther group entries = All (λ entry. entry.0 ≢ group) entries

-- A map has one entry for each name.
abbrev pub IsSnapshot : List (Text × Text) → Type 0
IsSnapshot [] = Unit {0}
IsSnapshot (entry ∷ entries) = IsOther entry.0 entries × IsSnapshot entries

abbrev pub IsApplied : Graph → List ℕ → Text × Text → Type 0
IsApplied c next (group, proxy) =
    (index : ℕ) × IsSelection c group proxy index (get_or next index 0)

-- What `set_selections` leaves: the entries are applied, and all other groups use their first member.
abbrev pub SnapshotSpec :
    Graph → List (Text × Text) → Result SelectError (Unit {0}) × Graph → Type 0
SnapshotSpec c entries (err e, c') = c' ≡ c
SnapshotSpec c entries (ok u, c') =
    IsChosen c'
    × (c'.groups ≡ c.groups)
    × (c'.proxy_names ≡ c.proxy_names)
    × All (IsApplied c c'.selections) entries
    × ((g : ℕ) → IsOther (get_or c.groups g no_group).name entries → get_or c'.selections g 0 ≡ 0)

-- A group that no entry is for keeps its selection.
fill-other :
    (c : Graph) (next : List ℕ) (entries : List (Text × Text)) (last : List ℕ) (g : ℕ)
    → fill c next entries ≡ ok last
    → IsOther (get_or c.groups g no_group).name entries
    → get_or last g 0 ≡ get_or next g 0
unfolding fill
fill-other c next [] last g h others = ap (λ s. get_or s g 0) (sym (ok_injective h))
fill-other c next ((group, proxy) ∷ entries) last g h (other, others) =
    let (p, e, h') = >>=-eq-ok (selection c group proxy) _ h in
    let picked = selection-IsSelection c group proxy p.0 p.1 e in
    fill-other c (set next p.0 p.1) entries last g h' others
    ∙ get_or-set_ne next p.0 g p.1 0
        (λ same. other (sym picked.named ∙ ap (λ k. (get_or c.groups k no_group).name) same))

fill-IsApplied :
    (c : Graph) (next : List ℕ) (entries : List (Text × Text)) (last : List ℕ)
    → fill c next entries ≡ ok last
    → length next ≡ length c.groups
    → IsSnapshot entries
    → All (IsApplied c last) entries
unfolding fill
fill-IsApplied c next [] last h width once = tt
fill-IsApplied c next ((group, proxy) ∷ entries) last h width (other, once) =
    let (p, e, h') = >>=-eq-ok (selection c group proxy) _ h in
    let picked = selection-IsSelection c group proxy p.0 p.1 e in
    let stays : get_or last p.0 0 ≡ p.1 =
      fill-other c (set next p.0 p.1) entries last p.0 h'
        (subst (λ name. IsOther name entries) (sym picked.named) other)
      ∙ get_or-set_self next p.0 p.1 0 (omega (arith, width, picked.in_groups)) in
    (
      (p.0, subst (IsSelection c group proxy p.0) (sym stays) picked),
      fill-IsApplied c (set next p.0 p.1) entries last h' (length-set next p.0 p.1 ∙ width) once,
    )

fill-IsChosen :
    (c : Graph) (next : List ℕ) (entries : List (Text × Text)) (last : List ℕ)
    → fill c next entries ≡ ok last
    → IsChosen (record c { selections = next })
    → IsChosen (record c { selections = last })
unfolding fill
fill-IsChosen c next [] last h v =
    subst (λ s. IsChosen (record c { selections = s })) (ok_injective h) v
fill-IsChosen c next ((group, proxy) ∷ entries) last h v =
    let (p, e, h') = >>=-eq-ok (selection c group proxy) _ h in
    let picked = selection-IsSelection c group proxy p.0 p.1 e in
    fill-IsChosen c (set next p.0 p.1) entries last h'
      (set-IsChosen c next p.0 p.1 v.width picked.in_groups picked.in_members v.member)

-- No group is empty.
pub record AllNonempty (c : Graph) : Type 0 where
  pub nonempty : (g : ℕ) → g < length c.groups → 0 < length (get_or c.groups g no_group).members

get_or-replicate : (n i : ℕ) → ◌≡◌ {A = ℕ} (get_or (replicate n 0) i 0) 0
get_or-replicate zero i = refl
get_or-replicate (suc n) zero = refl
get_or-replicate (suc n) (suc i) = get_or-replicate n i

first-IsChosen :
    (c : Graph) → AllNonempty c → IsChosen (record c { selections = replicate (length c.groups) 0 })
first-IsChosen c some_members = record {
  width = length-replicate (length c.groups) 0;
  member = λ g h.
      subst (λ v. v < length (get_or c.groups g no_group).members)
        (sym (get_or-replicate (length c.groups) g)) (some_members.nonempty g h);
}

publish-SnapshotSpec :
    (c : Graph) (entries : List (Text × Text)) (r : Result SelectError (List ℕ))
    → ((next : List ℕ) → r ≡ ok next → SnapshotSpec c entries (publish (ok next) c))
    → SnapshotSpec c entries (publish r c)
unfolding publish
publish-SnapshotSpec c entries (err e) valid = refl
publish-SnapshotSpec c entries (ok next) valid = valid next refl

-- `set_selections` of a snapshot with one entry for each name, on groups that all have members: a refusal
-- changes nothing, also when earlier entries of the snapshot were right. Otherwise each entry's group has
-- the entry's member as its selection, every group that no entry names uses its first member, and every
-- selection is the index of a member of its group.
pub set_selections-SnapshotSpec :
    (c : Graph) (entries : List (Text × Text))
    → AllNonempty c
    → IsSnapshot entries
    → SnapshotSpec c entries (set_selections c entries)
unfolding set_selections publish
set_selections-SnapshotSpec c entries some_members once = publish-SnapshotSpec c entries _ λ next e.
    let (u, g, h) = >>=-eq-ok (guard (leb (length entries) max_groups) too_many) _ e in
    let first = replicate (length c.groups) 0 in
    (
      fill-IsChosen c first entries next h (first-IsChosen c some_members),
      refl,
      refl,
      fill-IsApplied c first entries next h (length-replicate (length c.groups) 0) once,
      λ g others. fill-other c first entries next g h others ∙ get_or-replicate (length c.groups) g,
    )

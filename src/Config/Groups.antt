-- ===== src/Config/Groups.antt =====
-- The graph of proxy groups in src/config.rs: nodes below `proxies` are proxies, and node
-- `proxies + g` is group `g`, whose edges are its members.
pub mod Settles
pub mod Marks
pub mod Invariant
pub mod Work
pub mod Rounds
pub mod Roots
pub mod Accepted
pub mod Tests
use zc.Prelude.{
  ℕ, zero, suc, ◌+◌, ◌-◌, Option, none, some, List, [], ◌∷◌, length, get_elem?, get_or, set,
  replicate, ◌++◌, ltb, Result, ok, err, ◌>>=◌, ◌==◌, if◌then◌else◌,
}

-- The members of a group's node.
unfoldable pub members : ℕ → List (List ℕ) → ℕ → List ℕ
members proxies edges node = get_or edges (node - proxies) []

pub data GroupError : Type 0 where
  cycle : GroupError
  -- More rounds than `fuel`.
  out_of_fuel : GroupError
  -- An index that is out of bounds, where the code would panic.
  panic : GroupError

-- `state` and `stack`; the last frame of the code's vector is the first one here.
pub record Search : Type 0 where
  pub marks : List ℕ
  pub stack : List (ℕ × ℕ)

-- What one round of the `while` loop does.
pub data Round : Type 0 where
  finished : Search → Round
  goes_on : Search → Round
  refused : GroupError → Round

-- The match on the child's mark; the frame of its parent was moved on before.
unfoldable pub visit_mark : Option ℕ → ℕ → Search → Round
visit_mark none child s = refused panic
visit_mark (some zero) child s =
    goes_on (record { marks = set s.marks child 1; stack = (child, 0) ∷ s.stack })
visit_mark (some (suc zero)) child s = refused cycle
visit_mark (some (suc (suc m))) child s = goes_on s

unfoldable pub visit : ℕ → Search → Round
unfolding visit_mark
visit child s = visit_mark (get_elem? s.marks child) child s

unfoldable pub round_on : ℕ → List (List ℕ) → List ℕ → List (ℕ × ℕ) → Round
unfolding visit members
round_on proxies edges marks [] = finished (record { marks = marks; stack = [] })
round_on proxies edges marks ((node, next) ∷ rest) =
    if next == length (members proxies edges node)
    then goes_on (record { marks = set marks node 2; stack = rest })
    else elim (get_elem? (members proxies edges node) next) [
      | none ↦ refused panic
      | some child ↦ visit child (record { marks = marks; stack = (node, suc next) ∷ rest })
    ]

unfoldable pub round : ℕ → List (List ℕ) → Search → Round
unfolding round_on
round proxies edges s = round_on proxies edges s.marks s.stack

-- The `while` loop, at most `fuel` rounds of it.
unfoldable pub search : ℕ → List (List ℕ) → ℕ → Search → Result GroupError Search
unfolding round
search proxies edges zero s = err out_of_fuel
search proxies edges (suc fuel) s = elim (round proxies edges s) [
  | finished s' ↦ ok s'
  | goes_on s' ↦ search proxies edges fuel s'
  | refused e ↦ err e
]

-- A root that has no mark yet is searched.
unfoldable pub search_root : ℕ → List (List ℕ) → ℕ → ℕ → Search → Result GroupError Search
unfolding search
search_root proxies edges fuel root s =
    if get_or s.marks root 2 == 2
    then ok s
    else search proxies edges fuel
        (record { marks = set s.marks root 1; stack = (root, 0) ∷ s.stack })

-- The `for` loop over `count` roots.
unfoldable pub search_roots : ℕ → List (List ℕ) → ℕ → ℕ → ℕ → Search → Result GroupError Search
unfolding search_root
search_roots proxies edges fuel zero root s = ok s
search_roots proxies edges fuel (suc count) root s = do
  s' ← search_root proxies edges fuel root s
  search_roots proxies edges fuel count (suc root) s'

-- Each group is entered once, and each of its members is passed once.
unfoldable pub rounds_of : List (List ℕ) → ℕ
rounds_of [] = 1
rounds_of (ms ∷ edges) = suc (length ms) + rounds_of edges

unfoldable pub unmarked : ℕ → List (List ℕ) → Search
unmarked proxies edges = record {
  marks = replicate proxies 2 ++ replicate (length edges) 0;
  stack = [];
}

-- The check of `resolve_groups` that no group contains itself.
unfoldable pub check_groups : ℕ → List (List ℕ) → Result GroupError Search
unfolding search_roots rounds_of unmarked
check_groups proxies edges =
    search_roots proxies edges (rounds_of edges) (length edges) proxies (unmarked proxies edges)

-- `resolve_proxy`: the loop makes one round more than there are groups; `none` is its `unreachable!`,
-- or an index out of bounds.
unfoldable pub follow : ℕ → List (List ℕ) → List ℕ → ℕ → ℕ → Option ℕ
unfolding members
follow proxies edges selections zero index = none
follow proxies edges selections (suc rounds) index =
    let next = get_elem? (members proxies edges index) (get_or selections (index - proxies) 0) in
    let rest : Option ℕ = elim next [
      | none ↦ none
      | some member ↦ follow proxies edges selections rounds member
    ] in
    if ltb index proxies then some index else rest

unfoldable pub resolve_proxy : ℕ → List (List ℕ) → List ℕ → ℕ → Option ℕ
unfolding follow
resolve_proxy proxies edges selections index =
    follow proxies edges selections (suc (length edges)) index

-- ===== src/Config/Groups/Roots.antt =====
-- The search from every group of src/config.rs, and what an accepted graph means.
use zc.Prelude.{
  ℕ, zero, suc, ◌+◌, ◌<◌, ◌≤◌, ◌≡◌, ◌≢◌, refl, sym, ap, subst, some, List, [], ◌∷◌, length,
  get_elem?, get_or, set, ◌==◌, arith, inl, inr, Bool-cases, Result, ok, err, ◌>>=◌, Result-cases,
  get_elem?-set_self,
}
use zc.Config.Groups.{
  members, Search, GroupError, out_of_fuel, search, search_root, search_roots, rounds_of,
}
use zc.Config.Groups.Marks.{IsReached, set-IsReached, get_elem?-lt, some_injective}
use zc.Config.Groups.Invariant.{IsSearch, start-IsSearch}
use zc.Config.Groups.Work.{work, waiting-lt, waiting-set_1}
use zc.Config.Groups.Rounds.{Reaches, ProxiesReached, SearchSpec, search-SearchSpec, white_group}

get_or-some : (xs : List ℕ) (i d m : ℕ) → get_elem? xs i ≡ some m → get_or xs i d ≡ m
get_or-some [] i d m h = cc
get_or-some (x ∷ xs) zero d m h = some_injective h
get_or-some (x ∷ xs) (suc i) d m h = get_or-some xs i d m h

get_elem?-in : (xs : List ℕ) (i : ℕ) → i < length xs → (m : ℕ) × (get_elem? xs i ≡ some m)
get_elem?-in [] i h = absurd (omega (arith, h))
get_elem?-in (x ∷ xs) zero h = (x, refl)
get_elem?-in (x ∷ xs) (suc i) h = get_elem?-in xs i (omega (arith, h))

module _ (proxies : ℕ) (edges : List (List ℕ)) where
  -- Between two roots.
  abbrev Between : List ℕ → Type 0
  Between marks = IsSearch proxies edges (record { marks = marks; stack = [] })

  root_done :
      (marks : List ℕ) (root fuel : ℕ)
      → get_elem? marks root ≡ some 2
      → search_root proxies edges fuel root (record { marks = marks; stack = [] })
        ≡ ok (record { marks = marks; stack = [] })
  unfolding search_root
  root_done marks root fuel e =
      let two : get_or marks root 2 ≡ 2 = get_or-some marks root 2 2 e in rw (two) refl

  root_new :
      (marks : List ℕ) (root fuel : ℕ)
      → get_elem? marks root ≡ some 0
      → search_root proxies edges fuel root (record { marks = marks; stack = [] })
        ≡ search proxies edges fuel (record { marks = set marks root 1; stack = (root, 0) ∷ [] })
  unfolding search_root
  root_new marks root fuel e =
      let z : get_or marks root 2 ≡ 0 = get_or-some marks root 2 0 e in rw (z) refl

  abbrev RootSpec : ℕ → List ℕ → Result GroupError Search → Type 0
  RootSpec root marks (ok s') =
      IsSearch proxies edges s' × (s'.stack ≡ []) × Reaches marks s'.marks × IsReached s'.marks root
  RootSpec root marks (err e) = e ≢ out_of_fuel

  SearchSpec-RootSpec :
      (root : ℕ) (marks : List ℕ) (r : Result GroupError Search)
      → get_elem? marks root ≡ some 0
      → SearchSpec proxies edges (record { marks = set marks root 1; stack = (root, 0) ∷ [] }) r
      → RootSpec root marks r
  SearchSpec-RootSpec root marks (err e) white h = h
  SearchSpec-RootSpec root marks (ok s') white (v, done, later) = (
    v,
    done,
    record {
      still =
          λ i r. later.still i (set-IsReached marks root 0 i (get_elem?-lt marks root 0 white) r);
    },
    later.still root (record {
      above = 0;
      mark = get_elem?-set_self marks root 1 (get_elem?-lt marks root 0 white);
    }),
  )

  enough_fuel :
      (marks : List ℕ) (root : ℕ)
      → get_elem? marks root ≡ some 0
      → proxies ≤ root
      → root < proxies + length edges
      → work proxies edges (record { marks = set marks root 1; stack = (root, 0) ∷ [] })
        < rounds_of edges
  unfolding members
  enough_fuel marks root white lo hi =
      omega
        (arith, waiting-lt marks proxies edges, waiting-set_1 marks root proxies edges white lo hi)

  root_mark-RootSpec :
      (m : ℕ) (marks : List ℕ) (root : ℕ)
      → get_elem? marks root ≡ some m
      → root < proxies + length edges
      → ProxiesReached proxies edges marks
      → Between marks
      → RootSpec root marks
          (search_root proxies edges (rounds_of edges) root (record { marks = marks; stack = [] }))
  root_mark-RootSpec zero marks root white h reached v =
      subst (RootSpec root marks) (sym (root_new marks root (rounds_of edges) white)) (
        SearchSpec-RootSpec root marks _ white (
          search-SearchSpec proxies edges (rounds_of edges)
            (record { marks = set marks root 1; stack = (root, 0) ∷ [] })
            (enough_fuel marks root white (white_group proxies edges marks root reached white) h)
            (λ i p. set-IsReached marks root 0 i (get_elem?-lt marks root 0 white) (reached i p))
            (start-IsSearch proxies edges marks root white v)))
  root_mark-RootSpec (suc zero) marks root grey h reached v =
      absurd (omega (arith, v.on_stack root grey))
  root_mark-RootSpec (suc (suc zero)) marks root black h reached v =
      subst (RootSpec root marks) (sym (root_done marks root (rounds_of edges) black))
        (v, refl, record { still = λ i r. r }, record { above = 1; mark = black })
  root_mark-RootSpec (suc (suc (suc m))) marks root e h reached v =
      absurd (omega (arith, v.small root _ e))

  search_root-RootSpec :
      (marks : List ℕ) (root : ℕ)
      → root < proxies + length edges
      → ProxiesReached proxies edges marks
      → Between marks
      → RootSpec root marks
          (search_root proxies edges (rounds_of edges) root (record { marks = marks; stack = [] }))
  search_root-RootSpec marks root h reached v =
      let (m, e) = get_elem?-in marks root (omega (arith, h, v.width)) in
      root_mark-RootSpec m marks root e h reached v

  abbrev pub RootsSpec : ℕ → ℕ → List ℕ → Result GroupError Search → Type 0
  RootsSpec count root marks (ok s') =
      IsSearch proxies edges s'
      × (s'.stack ≡ [])
      × Reaches marks s'.marks
      × ((i : ℕ) → root ≤ i → i < root + count → IsReached s'.marks i)
  RootsSpec count root marks (err e) = e ≢ out_of_fuel

  RootSpec-RootsSpec :
      (count root : ℕ) (marks : List ℕ) (s' : Search) (r : Result GroupError Search)
      → RootSpec root marks (ok s')
      → RootsSpec count (suc root) s'.marks r
      → RootsSpec (suc count) root marks r
  RootSpec-RootsSpec count root marks s' (err e) one more = more
  RootSpec-RootsSpec count root marks s' (ok t) (v, done, reaches, here)
        (v', done', later, others) =
      (
        v',
        done',
        record { still = λ i r. later.still i (reaches.still i r) },
        λ i lo hi. elim (Bool-cases (i == root)) [
          | inl same ↦
              let e : root ≡ i = ground arith in
              subst (λ k. IsReached t.marks k) e (later.still root here)
          | inr other ↦ others i (ground arith) (omega (arith, hi))
        ],
      )

  pub search_roots-RootsSpec :
      (count root : ℕ) (s : Search)
      → s.stack ≡ []
      → root + count ≤ proxies + length edges
      → ProxiesReached proxies edges s.marks
      → IsSearch proxies edges s
      → RootsSpec count root s.marks (search_roots proxies edges (rounds_of edges) count root s)
  unfolding search_roots
  search_roots-RootsSpec zero root s empty h reached v =
      (v, empty, record { still = λ i r. r }, λ i lo hi. absurd (omega (arith, lo, hi)))
  search_roots-RootsSpec (suc count) root s empty h reached v =
      let same : record { marks = s.marks; stack = [] } ≡ s =
        ap (λ st. (let t : Search = record { marks = s.marks; stack = st } in t)) (sym empty) in
      let one =
        subst (λ t. RootSpec root s.marks (search_root proxies edges (rounds_of edges) root t)) same
          (search_root-RootSpec s.marks root (omega (arith, h)) reached
            (subst (IsSearch proxies edges) (sym same) v)) in
      elim (Result-cases (search_root proxies edges (rounds_of edges) root s)) [
        | inl (s', e) ↦
            let one' = subst (RootSpec root s.marks) e one in
            subst (RootsSpec (suc count) root s.marks)
              (sym (
                ap (λ r. r >>= λ t. search_roots proxies edges (rounds_of edges) count (suc root) t)
                  e))
              (RootSpec-RootsSpec count root s.marks s' _ one' (
                search_roots-RootsSpec count (suc root) s' one'.1 (omega (arith, h))
                  (λ i p. one'.2.still i (reached i p)) one'.0))
        | inr (e, h') ↦
            subst (RootsSpec (suc count) root s.marks)
              (sym (
                ap (λ r. r >>= λ t. search_roots proxies edges (rounds_of edges) count (suc root) t)
                  h'))
              (subst (RootSpec root s.marks) h' one)
      ]

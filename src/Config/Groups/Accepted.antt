-- ===== src/Config/Groups/Accepted.antt =====
-- What an accepted graph of groups in src/config.rs means for `resolve_proxy`.
use zc.Prelude.{
  ℕ, zero, suc, ◌+◌, ◌<◌, ◌≤◌, ◌≡◌, ◌≢◌, refl, sym, subst, ◌∙◌, some, List, [], ◌++◌, length,
  get_elem?, replicate, ltb, arith, ◌⊎◌, inl, inr, Bool-cases, Result, ok, err, length-append,
  length-replicate,
}
use zc.Config.Groups.{
  Search, GroupError, out_of_fuel, search_roots, unmarked, rounds_of, check_groups, resolve_proxy,
}
use zc.Config.Groups.Marks.{IsBlack, IsReached, some_injective, blacks, blacks-le}
use zc.Config.Groups.Settles.{InBounds, follow-Settles}
use zc.Config.Groups.Invariant.{IsSearch, IsOn}
use zc.Config.Groups.Rounds.{ProxiesReached}
use zc.Config.Groups.Roots.{RootsSpec, search_roots-RootsSpec}

unmarked_cases :
    (n k i m : ℕ)
    → get_elem? (replicate n 2 ++ replicate k 0) i ≡ some m
    → ((i < n) × (m ≡ 2)) ⊎ (m ≡ 0)
unmarked_cases zero zero i m h = cc
unmarked_cases zero (suc k) zero m h = inr (sym (some_injective h))
unmarked_cases zero (suc k) (suc i) m h = elim (unmarked_cases zero k i m h) [
  | inl (lt, e) ↦ absurd (omega (arith, lt))
  | inr e ↦ inr e
]
unmarked_cases (suc n) k zero m h = inl (omega arith, sym (some_injective h))
unmarked_cases (suc n) k (suc i) m h = elim (unmarked_cases n k i m h) [
  | inl (lt, e) ↦ inl (omega (arith, lt), e)
  | inr e ↦ inr e
]

unmarked_proxy : (n k i : ℕ) → i < n → get_elem? {A = ℕ} (replicate n 2 ++ replicate k 0) i ≡ some 2
unmarked_proxy zero k i h = absurd (omega (arith, h))
unmarked_proxy (suc n) k zero h = refl
unmarked_proxy (suc n) k (suc i) h = unmarked_proxy n k i (omega (arith, h))

unmarked_blacks : (n k : ℕ) → n ≤ blacks (replicate n 2 ++ replicate k 0)
unfolding blacks
unmarked_blacks zero k = omega arith
unmarked_blacks (suc n) k = omega (arith, unmarked_blacks n k)

module _ (proxies : ℕ) (edges : List (List ℕ)) where
  unmarked-IsSearch : IsSearch proxies edges (unmarked proxies edges)
  unfolding unmarked
  unmarked-IsSearch = record {
    width =
        length-append (replicate proxies 2) (replicate (length edges) 0)
        ∙ omega
            (arith, length-replicate {A = ℕ} proxies 2, length-replicate {A = ℕ} (length edges) 0);
    small = λ i m e. elim (unmarked_cases proxies (length edges) i m e) [
      | inl (lt, e') ↦ omega (arith, e')
      | inr e' ↦ omega (arith, e')
    ];
    depth = 0;
    counted = omega (arith, unmarked_blacks proxies (length edges));
    settled = λ i b. elim (unmarked_cases proxies (length edges) i _ b.mark) [
      | inl (lt, e') ↦ lt
      | inr e' ↦ absurd (omega (arith, e'))
    ];
    frames = tt;
    on_stack = λ i e. elim (unmarked_cases proxies (length edges) i 1 e) [
      | inl (lt, e') ↦ absurd (omega (arith, e'))
      | inr e' ↦ absurd (omega (arith, e'))
    ];
  }

  unmarked-ProxiesReached : ProxiesReached proxies edges (unmarked proxies edges).marks
  unfolding unmarked
  unmarked-ProxiesReached =
      λ i h. record { above = 1; mark = unmarked_proxy proxies (length edges) i h }

  unmarked_empty : (unmarked proxies edges).stack ≡ []
  unfolding unmarked
  unmarked_empty = refl

  -- What the check's answer says of one node under given selections.
  abbrev pub ResolvesSpec : List ℕ → ℕ → Result GroupError Search → Type 0
  ResolvesSpec selections node (ok s) =
      (leaf : ℕ) × (resolve_proxy proxies edges selections node ≡ some leaf) × (leaf < proxies)
  ResolvesSpec selections node (err e) = e ≢ out_of_fuel

  -- No node is marked 1 when the stack is empty.
  reached-IsBlack :
      (s : Search) (above node : ℕ)
      → IsSearch proxies edges s
      → s.stack ≡ []
      → get_elem? s.marks node ≡ some (suc above)
      → IsBlack s.marks node
  reached-IsBlack s zero node v done e =
      let on = subst (λ st. IsOn proxies edges node st) done (v.on_stack node e) in
      absurd (omega (arith, on))
  reached-IsBlack s (suc above) node v done e = record { above = above; mark = e }

  RootsSpec-ResolvesSpec :
      (selections : List ℕ) (node : ℕ) (r : Result GroupError Search)
      → InBounds proxies edges selections
      → node < proxies + length edges
      → RootsSpec proxies edges (length edges) proxies (unmarked proxies edges).marks r
      → ResolvesSpec selections node r
  unfolding resolve_proxy
  RootsSpec-ResolvesSpec selections node (err e) b h spec = spec
  RootsSpec-ResolvesSpec selections node (ok s) b h (v, done, later, groups) =
      let here : IsReached s.marks node = elim (Bool-cases (ltb node proxies)) [
        | inl less ↦ later.still node (unmarked-ProxiesReached node (ground arith))
        | inr more ↦ groups node (ground arith) (omega (arith, h))
      ] in
      follow-Settles proxies edges selections v.depth (suc (length edges)) node b
        (omega (arith, v.counted, v.width, blacks-le s.marks))
        (v.settled node (reached-IsBlack s here.above node v done here.mark))

-- Whether the check of the groups accepts their graph or refuses it, it does so within its fuel. Once
-- accepted, every proxy and every group leads to a proxy, within the rounds that `resolve_proxy`
-- makes, whatever members are selected.
pub check_groups-ResolvesSpec :
    (proxies : ℕ) (edges : List (List ℕ)) (selections : List ℕ) (node : ℕ)
    → InBounds proxies edges selections
    → node < proxies + length edges
    → ResolvesSpec proxies edges selections node (check_groups proxies edges)
unfolding check_groups
check_groups-ResolvesSpec proxies edges selections node b h =
    RootsSpec-ResolvesSpec proxies edges selections node
      (search_roots proxies edges (rounds_of edges) (length edges) proxies (unmarked proxies edges))
      b h
      (search_roots-RootsSpec proxies edges (length edges) proxies (unmarked proxies edges)
        (unmarked_empty proxies edges) (omega arith) (unmarked-ProxiesReached proxies edges)
        (unmarked-IsSearch proxies edges))

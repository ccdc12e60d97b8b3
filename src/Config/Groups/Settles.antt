-- ===== src/Config/Groups/Settles.antt =====
-- What the search over the groups of src/config.rs knows at each round.
use zc.Prelude.{
  ℕ, zero, suc, ◌+◌, ◌-◌, ◌<◌, ◌≤◌, ◌≡◌, refl, ◌∙◌, true, false, some, List, [], ◌∷◌, length,
  get_elem?, get_or, All, ltb, arith, ◌⊎◌, inl, inr, Bool-cases,
}
use zc.Config.Groups.{members, follow}

module _ (proxies : ℕ) (edges : List (List ℕ)) where
  -- Whatever is selected, the node leads to a proxy within `d` steps.
  abbrev pub Settles : ℕ → ℕ → Type 0
  Settles zero n = n < proxies
  Settles (suc d) n =
      (n < proxies) ⊎ ((n < proxies + length edges) × All (Settles d) (members proxies edges n))

  pub All-map : {P Q : ℕ → Type 0} (xs : List ℕ) → ((x : ℕ) → P x → Q x) → All P xs → All Q xs
  All-map [] f h = tt
  All-map (x ∷ xs) f (h, hs) = (f x h, All-map xs f hs)

  pub Settles-suc : (d n : ℕ) → Settles d n → Settles (suc d) n
  Settles-suc zero n h = inl h
  Settles-suc (suc d) n (inl h) = inl h
  Settles-suc (suc d) n (inr (b, hs)) =
      inr (b, All-map (members proxies edges n) (λ m. Settles-suc d m) hs)

  -- Each group's selection is the index of one of its members.
  pub record InBounds (selections : List ℕ) : Type 0 where
    pub member :
        (n : ℕ)
        → proxies ≤ n
        → n < proxies + length edges
        → get_or selections (n - proxies) 0 < length (members proxies edges n)

  All-get :
      {P : ℕ → Type 0} (xs : List ℕ) (i : ℕ)
      → i < length xs
      → All P xs
      → (x : ℕ) × (get_elem? xs i ≡ some x) × P x
  All-get [] i h hs = absurd (omega (arith, h))
  All-get (x ∷ xs) zero h (p, ps) = (x, refl, p)
  All-get (x ∷ xs) (suc i) h (p, ps) = All-get xs i (omega (arith, h)) ps

  follow_proxy :
      (selections : List ℕ) (rounds n : ℕ)
      → n < proxies
      → follow proxies edges selections (suc rounds) n ≡ some n
  unfolding follow
  follow_proxy selections rounds n h =
      let small : ltb n proxies ≡ true = ground arith in rw small refl

  follow_group :
      (selections : List ℕ) (rounds n m : ℕ)
      → proxies ≤ n
      → get_elem? (members proxies edges n) (get_or selections (n - proxies) 0) ≡ some m
      → follow proxies edges selections (suc rounds) n ≡ follow proxies edges selections rounds m
  unfolding follow
  follow_group selections rounds n m h e =
      let large : ltb n proxies ≡ false = ground arith in rw (large, e) refl

  -- A node that settles within `d` steps is followed to a proxy in more than `d` rounds.
  pub follow-Settles :
      (selections : List ℕ) (d rounds n : ℕ)
      → InBounds selections
      → d < rounds
      → Settles d n
      → (leaf : ℕ) × (follow proxies edges selections rounds n ≡ some leaf) × (leaf < proxies)
  follow-Settles selections d zero n b h s = absurd (omega (arith, h))
  follow-Settles selections zero (suc rounds) n b h s = (n, follow_proxy selections rounds n s, s)
  follow-Settles selections (suc d) (suc rounds) n b h (inl small) =
      (n, follow_proxy selections rounds n small, small)
  follow-Settles selections (suc d) (suc rounds) n b h (inr (top, hs)) =
      elim (Bool-cases (ltb n proxies)) [
        | inl less ↦
            let small : n < proxies = ground arith in
            (n, follow_proxy selections rounds n small, small)
        | inr more ↦
            let large : proxies ≤ n = ground arith in
            let (m, e, sm) =
              All-get (members proxies edges n) (get_or selections (n - proxies) 0)
                (b.member n large top) hs in
            let (leaf, e', l) = follow-Settles selections d rounds m b (omega (arith, h)) sm in
            (leaf, follow_group selections rounds n m large e ∙ e', l)
      ]

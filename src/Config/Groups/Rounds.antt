-- ===== src/Config/Groups/Rounds.antt =====
-- Each round of the search over the groups of src/config.rs, and the search as a whole.
use zc.Prelude.{
  ℕ, zero, suc, ◌-◌, ◌<◌, ◌≤◌, ◌≡◌, ◌≢◌, refl, sym, ap, subst, ◌∙◌, Option, none, some, List, [],
  ◌∷◌, length, get_elem?, get_or, set, ltb, ◌==◌, arith, ◌⊎◌, inl, inr, Bool-cases, Option-cases,
  ==_iff, Result, ok, err,
}
use zc.Config.Groups.{
  members, Search, Round, goes_on, finished, refused, GroupError, out_of_fuel, visit, visit_mark,
  round, round_on, search,
}
use zc.Config.Groups.Marks.{IsReached, some_injective, set-IsReached, get_elem?-lt}
use zc.Config.Groups.Invariant.{IsSearch, pop-IsSearch, pass-IsSearch, push-IsSearch}
use zc.Config.Groups.Work.{work, waiting-set_1, waiting-set_2}

pub record Reaches (marks marks' : List ℕ) : Type 0 where
  pub still : (i : ℕ) → IsReached marks i → IsReached marks' i

Round-cases :
    (r : Round)
    → ((s : Search) × (r ≡ finished s))
      ⊎ (((s : Search) × (r ≡ goes_on s)) ⊎ ((e : GroupError) × (r ≡ refused e)))
Round-cases (finished s) = inl (s, refl)
Round-cases (goes_on s) = inr (inl (s, refl))
Round-cases (refused e) = inr (inr (e, refl))

module _ (proxies : ℕ) (edges : List (List ℕ)) where
  abbrev RoundSpec : Search → Round → Type 0
  RoundSpec s (finished s') = (s' ≡ s) × (s.stack ≡ [])
  RoundSpec s (goes_on s') =
      IsSearch proxies edges s'
      × Reaches s.marks s'.marks
      × (work proxies edges s ≡ suc (work proxies edges s'))
  RoundSpec s (refused e) = e ≢ out_of_fuel

  -- The proxies are marked from the start.
  abbrev pub ProxiesReached : List ℕ → Type 0
  ProxiesReached marks = (i : ℕ) → i < proxies → IsReached marks i

  pub white_group :
      (marks : List ℕ) (c : ℕ) → ProxiesReached marks → get_elem? marks c ≡ some 0 → proxies ≤ c
  white_group marks c reached white = elim (Bool-cases (ltb c proxies)) [
    | inl less ↦
        let r = reached c (ground arith) in
        let e : some (suc r.above) ≡ some 0 = sym r.mark ∙ white in
        absurd (omega (arith, some_injective e))
    | inr more ↦ ground arith
  ]

  visit_mark-RoundSpec :
      (mark : Option ℕ) (marks : List ℕ) (n next child : ℕ) (rest : List (ℕ × ℕ))
      → get_elem? marks child ≡ mark
      → get_elem? (members proxies edges n) next ≡ some child
      → next < length (members proxies edges n)
      → ProxiesReached marks
      → IsSearch proxies edges (record { marks = marks; stack = (n, next) ∷ rest })
      → RoundSpec
          (record { marks = marks; stack = (n, next) ∷ rest })
          (visit_mark mark child (record { marks = marks; stack = (n, suc next) ∷ rest }))
  unfolding visit_mark
  visit_mark-RoundSpec none marks n next child rest m e lt group v = λ q. cc
  visit_mark-RoundSpec (some zero) marks n next child rest white e lt group v =
      let entered =
        waiting-set_1 marks child proxies edges white (white_group marks child group white)
          (omega (arith, v.width, get_elem?-lt marks child 0 white)) in
      let size : ℕ = length (members proxies edges child) in
      let opened : length (get_or edges (child - proxies) []) ≡ size = (unfold members in refl) in
      (
        push-IsSearch proxies edges marks n next child rest e white v,
        record {
          still = λ i r. set-IsReached marks child 0 i (get_elem?-lt marks child 0 white) r;
        },
        omega (arith, lt, entered, opened),
      )
  visit_mark-RoundSpec (some (suc zero)) marks n next child rest grey e lt group v = λ q. cc
  visit_mark-RoundSpec (some (suc (suc m))) marks n next child rest black e lt group v = (
    pass-IsSearch proxies edges marks n next child rest e (record { above = m; mark = black }) v,
    record { still = λ i r. r },
    omega (arith, lt),
  )

  pop-RoundSpec :
      (marks : List ℕ) (n next : ℕ) (rest : List (ℕ × ℕ))
      → next ≡ length (members proxies edges n)
      → IsSearch proxies edges (record { marks = marks; stack = (n, next) ∷ rest })
      → RoundSpec
          (record { marks = marks; stack = (n, next) ∷ rest })
          (goes_on (record { marks = set marks n 2; stack = rest }))
  pop-RoundSpec marks n next rest at_end v =
      let grey = v.frames.0 in
      let v' : IsSearch proxies edges
          (record { marks = marks; stack = (n, length (members proxies edges n)) ∷ rest }) =
        subst (λ k. IsSearch proxies edges (record { marks = marks; stack = (n, k) ∷ rest })) at_end
          v in
      (
        pop-IsSearch proxies edges marks n rest v',
        record { still = λ i r. set-IsReached marks n 1 i (get_elem?-lt marks n 1 grey) r },
        omega (arith, at_end, waiting-set_2 marks n proxies edges grey),
      )

  round_on-RoundSpec :
      (marks : List ℕ) (stack : List (ℕ × ℕ))
      → ProxiesReached marks
      → IsSearch proxies edges (record { marks = marks; stack = stack })
      → RoundSpec (record { marks = marks; stack = stack }) (round_on proxies edges marks stack)
  unfolding round_on
  round_on-RoundSpec marks [] reached v = (refl, refl)
  round_on-RoundSpec marks ((n, next) ∷ rest) reached v =
      elim (Bool-cases (next == length (members proxies edges n))) [
        | inl last ↦
            let at_end : next ≡ length (members proxies edges n) = (==_iff _ _).0 last in
            rw last (pop-RoundSpec marks n next rest at_end v)
        | inr more ↦ elim (Option-cases (get_elem? (members proxies edges n) next)) [
          | inl gone ↦ rw (more, gone) (λ q. cc)
          | inr (child, e) ↦
              rw (more, e)
                (unfold visit in
                  visit_mark-RoundSpec (get_elem? marks child) marks n next child rest refl e
                    (get_elem?-lt (members proxies edges n) next child e) reached v)
        ]
      ]

  -- From a state of the invariant, with enough fuel, the search ends: with an error of its own, or
  -- with an empty stack, the invariant, and all marks that it found.
  abbrev pub SearchSpec : Search → Result GroupError Search → Type 0
  SearchSpec s (ok s') = IsSearch proxies edges s' × (s'.stack ≡ []) × Reaches s.marks s'.marks
  SearchSpec s (err e) = e ≢ out_of_fuel

  search_finished :
      (fuel : ℕ) (s s' : Search)
      → round proxies edges s ≡ finished s'
      → search proxies edges (suc fuel) s ≡ ok s'
  unfolding search
  search_finished fuel s s' e = rw (e, search) refl

  search_goes_on :
      (fuel : ℕ) (s s' : Search)
      → round proxies edges s ≡ goes_on s'
      → search proxies edges (suc fuel) s ≡ search proxies edges fuel s'
  unfolding search
  search_goes_on fuel s s' e = rw (e, search) refl

  search_refused :
      (fuel : ℕ) (s : Search) (e : GroupError)
      → round proxies edges s ≡ refused e
      → search proxies edges (suc fuel) s ≡ err e
  unfolding search
  search_refused fuel s e h = rw (h, search) refl

  Reaches-SearchSpec :
      (s s' : Search) (r : Result GroupError Search)
      → Reaches s.marks s'.marks
      → SearchSpec s' r
      → SearchSpec s r
  Reaches-SearchSpec s s' (err e) reaches h = h
  Reaches-SearchSpec s s' (ok t) reaches (v, done, later) =
      (v, done, record { still = λ i r. later.still i (reaches.still i r) })

  pub search-SearchSpec :
      (fuel : ℕ) (s : Search)
      → work proxies edges s < fuel
      → ProxiesReached s.marks
      → IsSearch proxies edges s
      → SearchSpec s (search proxies edges fuel s)
  unfolding round
  search-SearchSpec zero s h reached v = absurd (omega (arith, h))
  search-SearchSpec (suc fuel) s h reached v =
      let step = round_on-RoundSpec s.marks s.stack reached v in
      elim (Round-cases (round proxies edges s)) [
        | inl (s', e) ↦
            let (same, done) = subst (RoundSpec s) e step in
            subst (SearchSpec s) (sym (search_finished fuel s s' e)) (
              subst (λ t. IsSearch proxies edges t) (sym same) v,
              ap (λ t. t.stack) same ∙ done,
              record { still = λ i r. subst (λ t. IsReached t.marks i) (sym same) r },
            )
        | inr (inl (s', e)) ↦
            let (v', reaches, less) = subst (RoundSpec s) e step in
            subst (SearchSpec s) (sym (search_goes_on fuel s s' e)) (
              Reaches-SearchSpec s s' (search proxies edges fuel s') reaches (
                search-SearchSpec fuel s' (omega (arith, h, less))
                  (λ i p. reaches.still i (reached i p)) v'))
        | inr (inr (e, h')) ↦
            subst (SearchSpec s) (sym (search_refused fuel s e h')) (subst (RoundSpec s) h' step)
      ]

-- ===== src/Config/Groups/Work.antt =====
-- How many rounds the search over the groups of src/config.rs has left.
use zc.Prelude.{
  ℕ, zero, suc, ◌+◌, ◌-◌, ◌<◌, ◌≤◌, ◌≡◌, refl, sym, ap, ◌∙◌, Option, none, some, List, [], ◌∷◌,
  length, get_elem?, get_or, set, arith, inl, inr, get_elem?-set_self, get_elem?-set_ne,
}
use zc.Config.Groups.{members, rounds_of, Search}
use zc.Config.Groups.Marks.{get_elem?-lt, Nat-cases}

-- A group with the mark 0 is still to be entered.
abbrev waits : Option ℕ → ℕ → ℕ
waits (some zero) n = n
waits _ n = 0

waits-le : (mark : Option ℕ) (n : ℕ) → waits mark n ≤ n
waits-le none n = omega arith
waits-le (some zero) n = omega arith
waits-le (some (suc m)) n = omega arith

-- The rounds for the groups from node `i` on that were not entered.
abbrev pub waiting : List ℕ → ℕ → List (List ℕ) → ℕ
waiting marks i [] = 0
waiting marks i (ms ∷ edges) =
    waits (get_elem? marks i) (suc (length ms)) + waiting marks (suc i) edges

waiting-set_below :
    (marks : List ℕ) (c v i : ℕ) (edges : List (List ℕ))
    → c < i
    → waiting (set marks c v) i edges ≡ waiting marks i edges
waiting-set_below marks c v i [] h = refl
waiting-set_below marks c v i (ms ∷ edges) h =
    let rest = waiting-set_below marks c v (suc i) edges (omega (arith, h)) in
    let here : get_elem? (set marks c v) i ≡ get_elem? marks i =
      get_elem?-set_ne marks c i v (λ e. absurd (omega (arith, e, h))) in
    rw (here, rest) refl

-- A group that is entered gives its rounds to the stack.
pub waiting-set_1 :
    (marks : List ℕ) (c i : ℕ) (edges : List (List ℕ))
    → get_elem? marks c ≡ some 0
    → i ≤ c
    → c < i + length edges
    → waiting marks i edges
      ≡ suc (length (get_or edges (c - i) [])) + waiting (set marks c 1) i edges
waiting-set_1 marks c i [] h lo hi = absurd (omega (arith, lo, hi))
waiting-set_1 marks c i (ms ∷ edges) h lo hi = elim (Nat-cases c i) [
  | inl e ↦
      let first : c - i ≡ 0 = omega (arith, e) in
      let old : get_elem? marks i ≡ some 0 = ap (get_elem? marks) (sym e) ∙ h in
      let new : get_elem? (set marks c 1) i ≡ some 1 =
        ap (get_elem? (set marks c 1)) (sym e)
        ∙ get_elem?-set_self marks c 1 (get_elem?-lt marks c 0 h) in
      let rest = waiting-set_below marks c 1 (suc i) edges (omega (arith, e)) in
      rw (first, old, new, rest) (omega arith)
  | inr n ↦
      let later : c - i ≡ suc (c - suc i) = omega (arith, n, lo) in
      let same : get_elem? (set marks c 1) i ≡ get_elem? marks i = get_elem?-set_ne marks c i 1 n in
      let rest = waiting-set_1 marks c (suc i) edges h (omega (arith, n, lo)) (omega (arith, hi)) in
      rw (later, same) (omega (arith, rest))
]

-- A write of a mark that is not 0 at a node that has one already.
pub waiting-set_2 :
    (marks : List ℕ) (c i : ℕ) (edges : List (List ℕ))
    → get_elem? marks c ≡ some 1
    → waiting (set marks c 2) i edges ≡ waiting marks i edges
waiting-set_2 marks c i [] h = refl
waiting-set_2 marks c i (ms ∷ edges) h =
    let rest = waiting-set_2 marks c (suc i) edges h in
    elim (Nat-cases c i) [
      | inl e ↦
          let old : get_elem? marks i ≡ some 1 = ap (get_elem? marks) (sym e) ∙ h in
          let new : get_elem? (set marks c 2) i ≡ some 2 =
            ap (get_elem? (set marks c 2)) (sym e)
            ∙ get_elem?-set_self marks c 2 (get_elem?-lt marks c 1 h) in
          rw (old, new, rest) refl
      | inr n ↦
          let same : get_elem? (set marks c 2) i ≡ get_elem? marks i =
            get_elem?-set_ne marks c i 2 n in
          rw (same, rest) refl
    ]

pub waiting-lt :
    (marks : List ℕ) (i : ℕ) (edges : List (List ℕ)) → waiting marks i edges < rounds_of edges
unfolding rounds_of
waiting-lt marks i [] = omega arith
waiting-lt marks i (ms ∷ edges) =
    omega (arith, waiting-lt marks (suc i) edges, waits-le (get_elem? marks i) (suc (length ms)))

module _ (proxies : ℕ) (edges : List (List ℕ)) where
  abbrev pub on_frames : List (ℕ × ℕ) → ℕ
  on_frames [] = 0
  on_frames ((n, next) ∷ rest) = (suc (length (members proxies edges n)) - next) + on_frames rest

  abbrev pub work : Search → ℕ
  work s = waiting s.marks proxies edges + on_frames s.stack

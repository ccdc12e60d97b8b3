-- ===== src/Config/Groups/Marks.antt =====
-- The marks of the search over the groups of src/config.rs.
use zc.Prelude.{
  ℕ, zero, suc, ◌<◌, ◌≤◌, ◌≡◌, ◌≢◌, refl, sym, ap, ◌∙◌, some, List, [], ◌∷◌, length, get_elem?, set,
  arith, ◌⊎◌, inl, inr, get_elem?-set_self, get_elem?-set_ne, ==_iff, Bool-cases, ◌==◌,
}

-- A node that is left behind, and one that was reached.
pub record IsBlack (marks : List ℕ) (i : ℕ) : Type 0 where
  pub above : ℕ
  pub mark : get_elem? marks i ≡ some (suc (suc above))

pub record IsReached (marks : List ℕ) (i : ℕ) : Type 0 where
  pub above : ℕ
  pub mark : get_elem? marks i ≡ some (suc above)

pub some_injective : {m n : ℕ} → some m ≡ some n → m ≡ n
some_injective h = cc

unfoldable pub blacks : List ℕ → ℕ
blacks [] = 0
blacks (zero ∷ marks) = blacks marks
blacks (suc zero ∷ marks) = blacks marks
blacks (suc (suc m) ∷ marks) = suc (blacks marks)

pub blacks-le : (marks : List ℕ) → blacks marks ≤ length marks
unfolding blacks
blacks-le [] = omega arith
blacks-le (zero ∷ marks) = omega (arith, blacks-le marks)
blacks-le (suc zero ∷ marks) = omega (arith, blacks-le marks)
blacks-le (suc (suc m) ∷ marks) = omega (arith, blacks-le marks)

pub blacks-set_2 :
    (marks : List ℕ) (i : ℕ)
    → get_elem? marks i ≡ some 1
    → blacks (set marks i 2) ≡ suc (blacks marks)
unfolding blacks
blacks-set_2 [] i h = cc
blacks-set_2 (zero ∷ marks) zero h = absurd (omega (arith, some_injective h))
blacks-set_2 (suc zero ∷ marks) zero h = refl
blacks-set_2 (suc (suc m) ∷ marks) zero h = absurd (omega (arith, some_injective h))
blacks-set_2 (zero ∷ marks) (suc i) h = blacks-set_2 marks i h
blacks-set_2 (suc zero ∷ marks) (suc i) h = blacks-set_2 marks i h
blacks-set_2 (suc (suc m) ∷ marks) (suc i) h = ap suc (blacks-set_2 marks i h)

pub blacks-set_1 :
    (marks : List ℕ) (i : ℕ) → get_elem? marks i ≡ some 0 → blacks (set marks i 1) ≡ blacks marks
unfolding blacks
blacks-set_1 [] i h = cc
blacks-set_1 (zero ∷ marks) zero h = refl
blacks-set_1 (suc m ∷ marks) zero h = absurd (omega (arith, some_injective h))
blacks-set_1 (zero ∷ marks) (suc i) h = blacks-set_1 marks i h
blacks-set_1 (suc zero ∷ marks) (suc i) h = blacks-set_1 marks i h
blacks-set_1 (suc (suc m) ∷ marks) (suc i) h = ap suc (blacks-set_1 marks i h)

pub get_elem?-lt : (marks : List ℕ) (i m : ℕ) → get_elem? marks i ≡ some m → i < length marks
get_elem?-lt [] i m h = cc
get_elem?-lt (x ∷ marks) zero m h = omega arith
get_elem?-lt (x ∷ marks) (suc i) m h = omega (arith, get_elem?-lt marks i m h)

pub Nat-cases : (i j : ℕ) → (i ≡ j) ⊎ (i ≢ j)
Nat-cases i j = elim (Bool-cases (i == j)) [
  | inl same ↦ inl ((==_iff i j).0 same)
  | inr other ↦ inr (ground arith)
]

-- A write of a mark elsewhere, seen from a node that has one.
pub get_elem?-set_cases :
    (marks : List ℕ) (c v i m : ℕ)
    → get_elem? (set marks c v) i ≡ some m
    → ((i ≡ c) × (m ≡ v)) ⊎ ((c ≢ i) × (get_elem? marks i ≡ some m))
get_elem?-set_cases [] c v i m h = cc
get_elem?-set_cases (x ∷ marks) zero v zero m h = inl (refl, cc)
get_elem?-set_cases (x ∷ marks) zero v (suc i) m h = inr (λ e. absurd (omega (arith, e)), h)
get_elem?-set_cases (x ∷ marks) (suc c) v zero m h = inr (λ e. absurd (omega (arith, e)), h)
get_elem?-set_cases (x ∷ marks) (suc c) v (suc i) m h = elim (get_elem?-set_cases marks c v i m h) [
  | inl (e, e') ↦ inl (ap suc e, e')
  | inr (n, e) ↦ inr (λ e'. absurd (n (omega (arith, e'))), e)
]

pub set-IsBlack :
    (marks : List ℕ) (c v m i : ℕ)
    → get_elem? marks c ≡ some m
    → m < 2
    → IsBlack marks i
    → IsBlack (set marks c v) i
set-IsBlack marks c v m i h small b = record {
  above = b.above;
  mark =
      get_elem?-set_ne marks c i v (λ e. absurd (
        let f : some m ≡ some (suc (suc b.above)) = sym h ∙ ap (get_elem? marks) e ∙ b.mark in
        omega (arith, some_injective f, small)))
      ∙ b.mark;
}

pub set-IsReached :
    (marks : List ℕ) (c v i : ℕ)
    → c < length marks
    → IsReached marks i
    → IsReached (set marks c (suc v)) i
set-IsReached marks c v i h r = elim (Nat-cases c i) [
  | inl e ↦ record {
    above = v;
    mark = ap (get_elem? (set marks c (suc v))) (sym e) ∙ get_elem?-set_self marks c (suc v) h;
  }
  | inr n ↦ record { above = r.above; mark = get_elem?-set_ne marks c i (suc v) n ∙ r.mark }
]

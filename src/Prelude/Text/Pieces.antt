-- ===== src/Prelude/Text/Pieces.antt =====
-- What `split` and `strip_suffix` say of the text that they were given.
use Prim.Native.Nat.{ℕ}
use mathlib.Core.Path.{◌≡◌, refl, sym, ap, subst}
use mathlib.Core.Logic.{inl, inr}
use mathlib.Core.Bool.{Bool, true, ◌||◌}
use mathlib.Core.Option.{none, some}
use mathlib.Core.List.{List, [], ◌∷◌, ◌++◌}
use native.Mathlib.Omega.{arith}
use zc.Prelude.Tests.{◌==◌, if-cases, Option-cases}
use zc.Prelude.Lists.{all}
use zc.Prelude.Text.{Text, text_eq, text_eq_iff, split, split_pieces, strip_suffix}

pub all-append :
    {A : Type 0} (p : A → Bool) (xs ys : List A)
    → all p xs ≡ true
    → all p ys ≡ true
    → all p (xs ++ ys) ≡ true
all-append p [] ys hx hy = hy
all-append p (x ∷ xs) ys hx hy = ground (arith, all-append p xs ys)

all-split_pieces :
    (p : ℕ → Bool) (c : ℕ) (s : Text)
    → all p (split_pieces c s).0 ≡ true
    → all (all p) (split_pieces c s).1 ≡ true
    → all (λ b. p b || b == c) s ≡ true
unfolding split_pieces
all-split_pieces p c [] h hs = refl
all-split_pieces p c (b ∷ s) h hs = ground (arith, all-split_pieces p c s)

-- Bytes that each piece has, and the separator, are all the bytes of the text.
pub all-split :
    (p : ℕ → Bool) (c : ℕ) (s : Text)
    → all (all p) (split c s) ≡ true
    → all (λ b. p b || b == c) s ≡ true
unfolding split
all-split p c s h = all-split_pieces p c s (ground arith) (ground arith)

pub strip_suffix-some : (c : ℕ) (s t : Text) → strip_suffix (c ∷ []) s ≡ some t → s ≡ t ++ c ∷ []
unfolding strip_suffix text_eq
strip_suffix-some c [] t h = cc
strip_suffix-some c (b ∷ s) t h = elim (if-cases (text_eq (c ∷ []) (b ∷ s)) h) [
  | inl (same, e) ↦
      let empty : [] ≡ t = cc in
      let whole : c ∷ [] ≡ b ∷ s = (text_eq_iff (c ∷ []) (b ∷ s)).0 same in
      subst (λ x. b ∷ s ≡ x ++ c ∷ []) empty (sym whole)
  | inr (other, e) ↦ elim (Option-cases (strip_suffix (c ∷ []) s)) [
    | inl gone ↦ let e' : none ≡ some t = rw gone at e in cc e'
    | inr (u, e') ↦
        let e'' : some (b ∷ u) ≡ some t = rw e' at e in
        let longer : b ∷ u ≡ t = cc e'' in
        subst (λ x. b ∷ s ≡ x ++ c ∷ []) longer (ap (λ x. b ∷ x) (strip_suffix-some c s u e'))
  ]
]

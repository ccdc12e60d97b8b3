-- ===== src/Obfs/Header.antt =====
-- Where the raw bytes begin in what src/simple_obfs.rs reads.
use zc.Prelude.{
  ℕ, zero, suc, ◌+◌, ◌≤◌, ◌≡◌, refl, ap, ◌∙◌, Bool, true, false, ◌&&◌, ◌==◌, Option, none, some, [],
  ◌∷◌, ◌++◌, length, take, drop, if◌then◌else◌, if-cases, inl, inr, arith,
}
use zc.Prelude.Text.{Text, starts_with}
use zc.Obfs.Read.{find_text, header_mark}

-- What follows the first empty line, if there is one.
unfoldable pub after_header : Text → Option Text
unfolding starts_with
after_header [] = none
after_header (b ∷ s) =
    let rest = after_header s in
    if starts_with header_mark (b ∷ s) then some (drop 4 (b ∷ s)) else rest

starts_with-append : (p s t : Text) → length p ≤ length s → starts_with p (s ++ t) ≡ starts_with p s
unfolding starts_with
starts_with-append [] s t h = refl
starts_with-append (c ∷ p) [] t h = absurd (omega (arith, h))
starts_with-append (c ∷ p) (b ∷ s) t h =
    ap (λ x. b == c && x) (starts_with-append p s t (omega (arith, h)))

starts_with-length : (p s : Text) → starts_with p s ≡ true → length p ≤ length s
unfolding starts_with
starts_with-length [] s h = omega arith
starts_with-length (c ∷ p) [] h = cc
starts_with-length (c ∷ p) (b ∷ s) h = ground (arith, starts_with-length p s)

pub starts_with-take :
    (p s : Text) (n : ℕ) → starts_with p (take n s) ≡ true → starts_with p s ≡ true
unfolding starts_with
starts_with-take [] s n h = refl
starts_with-take (c ∷ p) s zero h = cc
starts_with-take (c ∷ p) [] (suc n) h = cc
starts_with-take (c ∷ p) (b ∷ s) (suc n) h = ground (arith, starts_with-take p s n)

pub starts_with-longer : (p s t : Text) → starts_with p s ≡ true → starts_with p (s ++ t) ≡ true
starts_with-longer p s t h = starts_with-append p s t (starts_with-length p s h) ∙ h

drop-append : (n : ℕ) (s t : Text) → n ≤ length s → drop n (s ++ t) ≡ drop n s ++ t
drop-append zero s t h = refl
drop-append (suc n) [] t h = absurd (omega (arith, h))
drop-append (suc n) (b ∷ s) t h = drop-append n s t (omega (arith, h))

if_true : {A : Type 0} (b : Bool) (x y : A) → b ≡ true → (if b then x else y) ≡ x
if_true true x y h = refl
if_true false x y h = cc

if_false : {A : Type 0} (b : Bool) (x y : A) → b ≡ false → (if b then x else y) ≡ y
if_false true x y h = cc
if_false false x y h = refl

some_text : {s t : Text} → ◌≡◌ {A = Option Text} (some s) (some t) → s ≡ t
some_text e = cc

some_index : {i j : ℕ} → ◌≡◌ {A = Option ℕ} (some i) (some j) → i ≡ j
some_index e = cc

after_header-length : (s r : Text) → after_header s ≡ some r → 4 ≤ length s
unfolding after_header
after_header-length [] r h = cc
after_header-length (b ∷ s) r h = elim (if-cases (starts_with header_mark (b ∷ s)) h) [
  | inl (here, e) ↦ starts_with-length header_mark (b ∷ s) here
  | inr (later, e) ↦ omega (arith, after_header-length s r e)
]

-- More bytes do not move the mark.
pub after_header-append :
    (s t r : Text) → after_header s ≡ some r → after_header (s ++ t) ≡ some (r ++ t)
unfolding after_header
after_header-append [] t r h = cc
after_header-append (b ∷ s) t r h = elim (if-cases (starts_with header_mark (b ∷ s)) h) [
  | inl (here, e) ↦
      let four = starts_with-length header_mark (b ∷ s) here in
      if_true (starts_with header_mark (b ∷ s ++ t)) _ _
        (starts_with-longer header_mark (b ∷ s) t here)
      ∙ ap some (drop-append 3 s t (omega (arith, four)) ∙ ap (λ x. x ++ t) (some_text e))
  | inr (later, e) ↦
      let four = after_header-length s r e in
      if_false (starts_with header_mark (b ∷ s ++ t)) _ _
        (starts_with-append header_mark (b ∷ s) t (omega (arith, four)) ∙ later)
      ∙ after_header-append s t r e
]

n_suc : (i : ℕ) → suc (i + 4) ≡ suc i + 4
n_suc i = omega arith

pub find_text-some :
    (s : Text) (k : ℕ) → find_text header_mark s ≡ some k → after_header s ≡ some (drop (k + 4) s)
unfolding find_text after_header
find_text-some [] k h = cc
find_text-some (b ∷ s) k h = elim (if-cases (starts_with header_mark (b ∷ s)) h) [
  | inl (here, e) ↦
      if_true (starts_with header_mark (b ∷ s)) _ _ here
      ∙ ap (λ i. some (drop (i + 4) (b ∷ s))) (some_index e)
  | inr (later, e) ↦
      if_false (starts_with header_mark (b ∷ s)) _ _ later
      ∙ below (find_text header_mark s) (find_text-some s) e
]
  where
    below :
        (o : Option ℕ)
        → ((i : ℕ) → o ≡ some i → after_header s ≡ some (drop (i + 4) s))
        → (elim o [ none ↦ none | some i ↦ some (suc i) ]) ≡ some k
        → after_header s ≡ some (drop (k + 4) (b ∷ s))
    below none again e = cc
    below (some i) again e =
        again i refl
        ∙ ap (λ n. some (drop n (b ∷ s))) (n_suc i)
        ∙ ap (λ j. some (drop (j + 4) (b ∷ s))) (some_index e)

pub find_text-none : (s : Text) → find_text header_mark s ≡ none → after_header s ≡ none
unfolding find_text after_header
find_text-none [] h = refl
find_text-none (b ∷ s) h = elim (if-cases (starts_with header_mark (b ∷ s)) h) [
  | inl (here, e) ↦ cc
  | inr (later, e) ↦
      if_false (starts_with header_mark (b ∷ s)) _ _ later
      ∙ below (find_text header_mark s) (find_text-none s) e
]
  where
    below :
        (o : Option ℕ)
        → (o ≡ none → after_header s ≡ none)
        → ◌≡◌ {A = Option ℕ} (elim o [ none ↦ none | some i ↦ some (suc i) ]) none
        → after_header s ≡ none
    below none again e = again refl
    below (some i) again e = cc

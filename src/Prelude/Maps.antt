-- ===== src/Prelude/Maps.antt =====
-- `BTreeMap<u64, A>`: a list in ascending order of its keys.
use Prim.Native.Nat.{ℕ, suc, ◌≤◌}
use mathlib.Core.Path.{◌≡◌, refl, subst}
use mathlib.Core.Logic.{◌≢◌, inl, inr}
use mathlib.Core.Option.{Option, none, some}
use mathlib.Core.List.{List, [], ◌∷◌}
use native.Mathlib.Omega.{arith}
use zc.Prelude.Tests.{ltb, ◌==◌, if◌then◌else◌, if-cases, ==_iff, Bool-cases}
use zc.Prelude.Lists.{length, All}

abbrev pub Map : Type 0 → Type 0
Map A = List (ℕ × A)

module _ {A : Type 0} where
  unfoldable pub find : ℕ → Map A → Option A
  find k [] = none
  find k ((j, a) ∷ m) = let rest = find k m in if j == k then some a else rest

  -- `insert`
  unfoldable pub put : ℕ → A → Map A → Map A
  put k v [] = (k, v) ∷ []
  put k v ((j, a) ∷ m) =
      let rest = put k v m in
      if j == k then (k, v) ∷ m else if ltb k j then (k, v) ∷ (j, a) ∷ m else (j, a) ∷ rest

  -- `remove`
  unfoldable pub erase : ℕ → Map A → Map A
  erase k [] = []
  erase k ((j, a) ∷ m) = let rest = erase k m in if j == k then rest else (j, a) ∷ rest

  -- A change through `get_mut`.
  unfoldable pub modify : ℕ → (A → A) → Map A → Map A
  modify k f [] = []
  modify k f ((j, a) ∷ m) =
      let rest = modify k f m in if j == k then (j, f a) ∷ m else (j, a) ∷ rest

  pub find-put_ne : (k j : ℕ) (v : A) (m : Map A) → k ≢ j → find j (put k v m) ≡ find j m
  unfolding find put
  find-put_ne k j v [] h = ground arith
  find-put_ne k j v ((i, a) ∷ m) h = ground (arith, find-put_ne k j v m h)

  pub find-erase_ne : (k j : ℕ) (m : Map A) → k ≢ j → find j (erase k m) ≡ find j m
  unfolding find erase
  find-erase_ne k j [] h = refl
  find-erase_ne k j ((i, a) ∷ m) h = ground (arith, find-erase_ne k j m h)

  pub find-modify_self :
      (k : ℕ) (f : A → A) (m : Map A) (a : A)
      → find k m ≡ some a
      → find k (modify k f m) ≡ some (f a)
  unfolding find modify
  find-modify_self k f [] a h = cc
  find-modify_self k f ((j, b) ∷ m) a h = ground (arith, find-modify_self k f m a)

  pub find-modify_ne : (k j : ℕ) (f : A → A) (m : Map A) → k ≢ j → find j (modify k f m) ≡ find j m
  unfolding find modify
  find-modify_ne k j f [] h = refl
  find-modify_ne k j f ((i, a) ∷ m) h = ground (arith, find-modify_ne k j f m h)

  pub length-put : (k : ℕ) (v : A) (m : Map A) → length (put k v m) ≤ suc (length m)
  unfolding put
  length-put k v [] = omega arith
  length-put k v ((j, a) ∷ m) = ground (arith, length-put k v m)

  pub length-erase : (k : ℕ) (m : Map A) → length (erase k m) ≤ length m
  unfolding erase
  length-erase k [] = omega arith
  length-erase k ((j, a) ∷ m) = ground (arith, length-erase k m)

  pub length-modify : (k : ℕ) (f : A → A) (m : Map A) → length (modify k f m) ≡ length m
  unfolding modify
  length-modify k f [] = refl
  length-modify k f ((j, a) ∷ m) = ground (arith, length-modify k f m)

-- A property of every key and its value.
module _ {A : Type 0} (P : ℕ × A → Type 0) where
  pub All-put : (k : ℕ) (v : A) (m : Map A) → P (k, v) → All P m → All P (put k v m)
  unfolding put
  All-put k v [] p h = (p, tt)
  All-put k v ((j, a) ∷ m) p (h, hs) = elim (Bool-cases (j == k)) [
    | inl same ↦ rw same (p, hs)
    | inr other ↦ elim (Bool-cases (ltb k j)) [
      | inl less ↦ rw (other, less) (p, (h, hs))
      | inr more ↦ rw (other, more) (h, All-put k v m p hs)
    ]
  ]

  pub All-erase : (k : ℕ) (m : Map A) → All P m → All P (erase k m)
  unfolding erase
  All-erase k [] h = tt
  All-erase k ((j, a) ∷ m) (h, hs) = elim (Bool-cases (j == k)) [
    | inl same ↦ rw same (All-erase k m hs)
    | inr other ↦ rw other (h, All-erase k m hs)
  ]

  pub All-modify :
      (k : ℕ) (f : A → A) (m : Map A)
      → ((j : ℕ) (a : A) → P (j, a) → P (j, f a))
      → All P m
      → All P (modify k f m)
  unfolding modify
  All-modify k f [] keeps h = tt
  All-modify k f ((j, a) ∷ m) keeps (h, hs) = elim (Bool-cases (j == k)) [
    | inl same ↦ rw same (keeps j a h, hs)
    | inr other ↦ rw other (h, All-modify k f m keeps hs)
  ]

  pub All-find : (k : ℕ) (m : Map A) (a : A) → All P m → find k m ≡ some a → P (k, a)
  unfolding find
  All-find k [] a h e = cc
  All-find k ((j, b) ∷ m) a (h, hs) e = elim (if-cases (j == k) e) [
    | inl (same, e') ↦ let keys : j ≡ k = (==_iff j k).0 same in subst P (cc) h
    | inr (other, e') ↦ All-find k m a hs e'
  ]

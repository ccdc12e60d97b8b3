-- ===== src/Prelude/Results.antt =====
-- `Result<T, E>` and `Poll<T>`, and the `?` operator as `>>=`.
use mathlib.Core.Path.{◌≡◌, refl, subst}
use mathlib.Core.Logic.{◌⊎◌, inl, inr}
use mathlib.Core.Bool.{Bool, true, false}
use zc.Prelude.Tests.{if◌then◌else◌}
use mathlib.Core.Option.{Option, none, some}

pub data Result (E A : Type 0) : Type 0 where
  ok : A → Result E A
  err : E → Result E A

-- The result of one poll of a future.
pub data Poll (A : Type 0) : Type 0 where
  pending : Poll A
  ready : A → Poll A

-- `Option::ok_or`
abbrev pub ok_or : {E A : Type 0} → E → Option A → Result E A
ok_or e none = err e
ok_or e (some a) = ok a

-- `Result::is_ok`
abbrev pub is_ok : {E A : Type 0} → Result E A → Bool
is_ok (ok a) = true
is_ok (err e) = false

-- `if !test { return Err(e) }`
abbrev pub guard : {E : Type 0} → Bool → E → Result E (Unit {0})
guard false failure = err failure
guard true failure = ok tt

infixl 5 ◌>>=◌ ◌>>◌
-- The `?` operator: a failure ends the function.
abbrev pub ◌>>=◌ : {E A B : Type 0} → Result E A → (A → Result E B) → Result E B
err failure >>= next = err failure
ok value >>= next = next value

abbrev pub ◌>>◌ : {E B : Type 0} → Result E (Unit {0}) → Result E B → Result E B
first >> second = first >>= λ done. second

pub Result-cases :
    {E A : Type 0} (r : Result E A) → ((a : A) × (r ≡ ok a)) ⊎ ((e : E) × (r ≡ err e))
Result-cases (ok a) = inl (a, refl)
Result-cases (err e) = inr (e, refl)

pub >>=-eq-ok :
    {E A B : Type 0} (first : Result E A) (next : A → Result E B) {result : B}
    → (first >>= next) ≡ ok result
    → (value : A) × (first ≡ ok value) × (next value ≡ ok result)
>>=-eq-ok (err failure) next succeeds = cc
>>=-eq-ok (ok value) next succeeds = (value, refl, succeeds)

pub ok_or-some : {E A : Type 0} (e : E) (o : Option A) {a : A} → ok_or e o ≡ ok a → o ≡ some a
ok_or-some e none h = cc
ok_or-some e (some a) h = cc

pub ok_injective : {E A : Type 0} {a b : A} → ◌≡◌ {A = Result E A} (ok a) (ok b) → a ≡ b
ok_injective h = cc

-- A postcondition of the successful results.
pub record Ensures {E A : Type 0} (P : A → Type 0) (r : Result E A) : Type 0 where
  pub holds : (a : A) → r ≡ ok a → P a

module _ {E : Type 0} where
  pub Ensures-pure : {A : Type 0} (P : A → Type 0) (a : A) → P a → Ensures {E = E} P (ok a)
  Ensures-pure P a p = record { holds = λ b e. subst P (cc) p }

  pub Ensures-bind :
      {A B : Type 0} {P : A → Type 0} {Q : B → Type 0} (m : Result E A) (f : A → Result E B)
      → Ensures P m
      → ((a : A) → P a → Ensures Q (f a))
      → Ensures Q (m >>= f)
  Ensures-bind (ok a) f h k = k a (h.holds a refl)
  Ensures-bind (err e) f h k = record { holds = λ b q. cc }

  -- After a guard its test holds.
  pub Ensures-guard :
      {B : Type 0} {Q : B → Type 0} (b : Bool) (e : E) (rest : Result E B)
      → (b ≡ true → Ensures Q rest)
      → Ensures Q (guard b e >> rest)
  Ensures-guard true e rest k = k refl
  Ensures-guard false e rest k = record { holds = λ b q. cc }

  -- A step whose equation is handed on.
  pub Ensures-any :
      {A B : Type 0} {Q : B → Type 0} (m : Result E A) (f : A → Result E B)
      → ((a : A) → m ≡ ok a → Ensures Q (f a))
      → Ensures Q (m >>= f)
  Ensures-any (ok a) f k = k a refl
  Ensures-any (err e) f k = record { holds = λ b q. cc }

  -- Both branches of a test.
  pub Ensures-if :
      {A : Type 0} {P : A → Type 0} (b : Bool) (x y : Result E A)
      → (b ≡ true → Ensures P x)
      → (b ≡ false → Ensures P y)
      → Ensures P (if b then x else y)
  Ensures-if true x y f g = f refl
  Ensures-if false x y f g = g refl

  pub Ensures-err : {A : Type 0} {P : A → Type 0} (e : E) → Ensures {A = A} P (err e)
  Ensures-err e = record { holds = λ a q. cc }

  pub Ensures-map :
      {A : Type 0} {P Q : A → Type 0} (r : Result E A)
      → ((a : A) → P a → Q a)
      → Ensures P r
      → Ensures Q r
  Ensures-map r f h = record { holds = λ a e. f a (h.holds a e) }

  pub Ensures-both :
      {A : Type 0} {P Q : A → Type 0} (r : Result E A)
      → Ensures P r
      → Ensures Q r
      → Ensures (λ a. P a × Q a) r
  Ensures-both r h k = record { holds = λ a e. (h.holds a e, k.holds a e) }

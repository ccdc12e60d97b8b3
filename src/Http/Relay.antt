-- ===== src/Http/Relay.antt =====
-- What the functions of src/runtime.rs that copy HTTP bodies do: they write, and end with a value or an error.
use zc.Prelude.{
  ◌≡◌, refl, sym, ap, ◌∙◌, subst, [], ◌++◌, append_assoc, Result, ok, err, ok_injective,
}
use zc.Prelude.Text.{Text}
use zc.Frontend.{FrontError}

-- The bytes that were written, also those before an error.
abbrev pub Relay : Type 0 → Type 0
Relay A = Text × Result FrontError A

abbrev pub write : Text → Relay (Unit {0})
write text = (text, ok tt)

abbrev pub lift : {A : Type 0} → Result FrontError A → Relay A
lift r = ([], r)

infixl 5 ◌>>=◌ ◌>>◌
-- The `?` operator: an error ends the function, and what was written stays written.
abbrev pub ◌>>=◌ : {A B : Type 0} → Relay A → (A → Relay B) → Relay B
(out, ok a) >>= next = (out ++ (next a).0, (next a).1)
(out, err e) >>= next = (out, err e)

abbrev pub ◌>>◌ : {A B : Type 0} → Relay A → Relay B → Relay B
first >> second = first >>= λ done. second

-- From the bytes `text`: what is written is the first of them, and on success `left` holds the others.
pub record Spec {A : Type 0} (left : A → Text) (P : A → Text → Type 0) (text : Text) (r : Relay A)
    : Type 0 where
  pub first : (rest : Text) × (text ≡ r.0 ++ rest)
  pub success : (a : A) → r.1 ≡ ok a → (text ≡ r.0 ++ left a) × P a r.0

joined :
    {text after : Text} (out more rest : Text)
    → text ≡ out ++ after
    → after ≡ more ++ rest
    → text ≡ (out ++ more) ++ rest
joined out more rest e f = e ∙ ap (λ t. out ++ t) f ∙ sym (append_assoc out more rest)

module _ {A B : Type 0} {left : A → Text} {P : A → Text → Type 0} {left' : B → Text}
    {Q : B → Text → Type 0} where
  pub Spec-bind :
      (text : Text) (m : Relay A) (next : A → Relay B)
      → Spec left P text m
      → ((a : A) (out : Text)
          → P a out
          → Spec left' (λ b more. Q b (out ++ more)) (left a) (next a))
      → Spec left' Q text (m >>= next)
  Spec-bind text (out, ok a) next h k =
      let now = h.success a refl in
      let later = k a out now.1 in
      record {
        first = (later.first.0, joined out (next a).0 later.first.0 now.0 later.first.1);
        success = λ b e.
            (joined out (next a).0 (left' b) now.0 (later.success b e).0, (later.success b e).1);
      }
  Spec-bind text (out, err e) next h k = record { first = h.first; success = λ b q. cc }

-- A step that writes nothing.
pub Spec-lift :
    {A B : Type 0} {left : B → Text} {Q : B → Text → Type 0} (text : Text) (r : Result FrontError A)
    (next : A → Relay B)
    → ((a : A) → r ≡ ok a → Spec left Q text (next a))
    → Spec left Q text (lift r >>= next)
Spec-lift text (ok a) next k = k a refl
Spec-lift text (err e) next k = record { first = (text, refl); success = λ b q. cc }

pub Spec-write :
    {A : Type 0} {left : A → Text} {Q : A → Text → Type 0} (text out : Text) (r : Relay A)
    → Spec left (λ a more. Q a (out ++ more)) text r
    → Spec left Q (out ++ text) (write out >> r)
Spec-write {A} {left} {Q} text out r h =
    Spec-bind {left = λ u. text} {P = λ u o. o ≡ out} (out ++ text) (write out) (λ u. r)
      (record { first = (text, refl); success = λ a e. (refl, refl) })
      (λ u o e. subst (λ o. Spec left (λ b more. Q b (o ++ more)) text r) (sym e) h)

pub Spec-done :
    {A : Type 0} {left : A → Text} {P : A → Text → Type 0} (a : A)
    → P a []
    → Spec left P (left a) (lift (ok a))
Spec-done {A} {left} {P} a p = record {
  first = (left a, refl);
  success = λ b e. subst (λ b. (left a ≡ left b) × P b []) (ok_injective e) (refl, p);
}

pub Spec-map :
    {A : Type 0} {left : A → Text} {P Q : A → Text → Type 0} (text : Text) (r : Relay A)
    → ((a : A) (out : Text) → P a out → Q a out)
    → Spec left P text r
    → Spec left Q text r
Spec-map text r f h = record {
  first = h.first;
  success = λ a e. ((h.success a e).0, f a r.0 (h.success a e).1);
}

pub lift-ok :
    {A B : Type 0} (r : Result FrontError A) (a : A) (next : A → Relay B)
    → r ≡ ok a
    → (lift r >>= next) ≡ next a
lift-ok r a next h = ap (λ r. lift r >>= next) h

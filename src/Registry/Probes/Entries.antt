-- ===== src/Registry/Probes/Entries.antt =====
-- The entries of src/connection/probes.rs as a map: each token stands once.
use zc.Prelude.{
  ℕ, ◌-◌, ◌≡◌, ◌≢◌, refl, sym, ◌∙◌, subst, false, none, some, List, [], ◌∷◌, ltb, if-cases,
  Bool-cases, ◌⊎◌, inl, inr, arith,
}
use zc.Prelude.Text.{Text, text_eq, text_eq_iff}
use zc.Registry.Probes.{
  Ticket, find_ticket, erase_ticket, put_ticket, modify_ticket, retained, retention,
}

abbrev Entries : Type 0
Entries = List (Text × Ticket)

abbrev pub IsMap : Entries → Type 0
IsMap [] = Unit {0}
IsMap ((k, t) ∷ entries) = (find_ticket k entries ≡ none) × IsMap entries

text_eq-ne : (a b : Text) → a ≢ b → text_eq a b ≡ false
text_eq-ne a b h = elim (Bool-cases (text_eq a b)) [
  | inl same ↦ absurd (h ((text_eq_iff a b).0 same))
  | inr other ↦ other
]

pub find_ticket-erase_self :
    (token : Text) (es : Entries) → find_ticket token (erase_ticket token es) ≡ none
unfolding find_ticket erase_ticket
find_ticket-erase_self token [] = refl
find_ticket-erase_self token ((k, t) ∷ es) = ground (arith, find_ticket-erase_self token es)

pub find_ticket-erase_ne :
    (k token : Text) (es : Entries)
    → k ≢ token
    → find_ticket token (erase_ticket k es) ≡ find_ticket token es
unfolding find_ticket erase_ticket
find_ticket-erase_ne k token [] h = refl
find_ticket-erase_ne k token ((j, t) ∷ es) h = elim (Bool-cases (text_eq j k)) [
  | inl same ↦
      let other : text_eq j token ≡ false =
        text_eq-ne j token (λ e. h (sym ((text_eq_iff j k).0 same) ∙ e)) in
      rw (same, other) (find_ticket-erase_ne k token es h)
  | inr apart ↦ rw apart (ground (arith, find_ticket-erase_ne k token es h))
]

pub find_ticket-put_ne :
    (k token : Text) (t : Ticket) (es : Entries)
    → k ≢ token
    → find_ticket token (put_ticket k t es) ≡ find_ticket token es
unfolding find_ticket put_ticket
find_ticket-put_ne k token t es h = rw (text_eq-ne k token h) (find_ticket-erase_ne k token es h)

pub find_ticket-modify_self :
    (token : Text) (f : Ticket → Ticket) (es : Entries) (t : Ticket)
    → find_ticket token es ≡ some t
    → find_ticket token (modify_ticket token f es) ≡ some (f t)
unfolding find_ticket modify_ticket
find_ticket-modify_self token f [] t h = cc
find_ticket-modify_self token f ((k, u) ∷ es) t h = elim (if-cases (text_eq k token) h) [
  | inl (same, e) ↦ rw same (rw same (cc e))
  | inr (other, e) ↦ rw other (rw other (find_ticket-modify_self token f es t e))
]

pub find_ticket-modify_none :
    (k token : Text) (f : Ticket → Ticket) (es : Entries)
    → find_ticket token es ≡ none
    → find_ticket token (modify_ticket k f es) ≡ none
unfolding find_ticket modify_ticket
find_ticket-modify_none k token f [] h = refl
find_ticket-modify_none k token f ((j, u) ∷ es) h =
    ground (arith, find_ticket-modify_none k token f es)

pub find_ticket-modify_ne :
    (k token : Text) (f : Ticket → Ticket) (es : Entries)
    → k ≢ token
    → find_ticket token (modify_ticket k f es) ≡ find_ticket token es
unfolding find_ticket modify_ticket
find_ticket-modify_ne k token f [] h = refl
find_ticket-modify_ne k token f ((j, u) ∷ es) h = elim (Bool-cases (text_eq j k)) [
  | inl same ↦
      let other : text_eq j token ≡ false =
        text_eq-ne j token (λ e. h (sym ((text_eq_iff j k).0 same) ∙ e)) in
      rw (same, other) (find_ticket-modify_ne k token f es h)
  | inr apart ↦ rw apart (ground (arith, find_ticket-modify_ne k token f es h))
]

pub find_ticket-retained :
    (now : ℕ) (token : Text) (es : Entries)
    → find_ticket token es ≡ none
    → find_ticket token (retained now es) ≡ none
unfolding find_ticket retained
find_ticket-retained now token [] h = refl
find_ticket-retained now token ((k, t) ∷ es) h = ground (arith, find_ticket-retained now token es)

-- A ticket stays as it is or is gone.
pub retained-cases :
    (now : ℕ) (token : Text) (es : Entries)
    → IsMap es
    → (find_ticket token (retained now es) ≡ none)
      ⊎ (find_ticket token (retained now es) ≡ find_ticket token es)
unfolding find_ticket retained
retained-cases now token [] v = inl refl
retained-cases now token ((k, t) ∷ es) (new, v) = elim (Bool-cases (text_eq k token)) [
  | inl same ↦
      let gone =
        find_ticket-retained now token es
          (subst (λ x. find_ticket x es ≡ none) ((text_eq_iff k token).0 same) new) in
      ground arith
  | inr other ↦ let rest = retained-cases now token es v in ground arith
]

erase_ticket-none :
    (k token : Text) (es : Entries)
    → find_ticket token es ≡ none
    → find_ticket token (erase_ticket k es) ≡ none
unfolding find_ticket erase_ticket
erase_ticket-none k token [] h = refl
erase_ticket-none k token ((j, t) ∷ es) h = ground (arith, erase_ticket-none k token es)

pub erase_ticket-IsMap : (k : Text) (es : Entries) → IsMap es → IsMap (erase_ticket k es)
unfolding erase_ticket
erase_ticket-IsMap k [] v = tt
erase_ticket-IsMap k ((j, t) ∷ es) (new, v) = elim (Bool-cases (text_eq j k)) [
  | inl same ↦ rw same (erase_ticket-IsMap k es v)
  | inr other ↦ rw other (erase_ticket-none k j es new, erase_ticket-IsMap k es v)
]

pub put_ticket-IsMap : (k : Text) (t : Ticket) (es : Entries) → IsMap es → IsMap (put_ticket k t es)
unfolding put_ticket
put_ticket-IsMap k t es v = (find_ticket-erase_self k es, erase_ticket-IsMap k es v)

pub modify_ticket-IsMap :
    (k : Text) (f : Ticket → Ticket) (es : Entries) → IsMap es → IsMap (modify_ticket k f es)
unfolding modify_ticket
modify_ticket-IsMap k f [] v = tt
modify_ticket-IsMap k f ((j, t) ∷ es) (new, v) = elim (Bool-cases (text_eq j k)) [
  | inl same ↦ rw same (find_ticket-modify_none k j f es new, modify_ticket-IsMap k f es v)
  | inr other ↦ rw other (find_ticket-modify_none k j f es new, modify_ticket-IsMap k f es v)
]

pub retained-IsMap : (now : ℕ) (es : Entries) → IsMap es → IsMap (retained now es)
unfolding retained
retained-IsMap now [] v = tt
retained-IsMap now ((k, t) ∷ es) (new, v) = elim (Bool-cases (ltb (now - t.reserved) retention)) [
  | inl young ↦ rw young (find_ticket-retained now k es new, retained-IsMap now es v)
  | inr old ↦ rw old (retained-IsMap now es v)
]

-- ===== src/Http/Lines/Flat.antt =====
-- Lines of src/runtime.rs do not depend on the chunks that they come in.
use zc.Prelude.{
  ℕ, ◌≤◌, ◌≡◌, refl, sym, ap, ◌∙◌, Bool, true, false, Option, none, some, [], ◌∷◌, ◌++◌, length,
  flat, ltb, ◌==◌, is_some, if◌then◌else◌, if-cases, Bool-cases, inl, inr, length-append,
  append-nil, append_assoc, Result, ok, err, ◌>>=◌, arith,
}
use zc.Prelude.Text.{Text}
use zc.Frontend.{FrontError, too_long, unexpected_eof}
use zc.Http.Lines.{Chunks, push, cut_line, check_line, end_line, next_line, line_loop, http_line}

pub if_false : {A : Type 0} (b : Bool) (x y : A) → b ≡ false → (if b then x else y) ≡ y
if_false true x y h = cc
if_false false x y h = refl

-- The same on the bytes themselves.
unfoldable pub flatten : Result FrontError (Text × Chunks) → Result FrontError (Text × Text)
flatten (ok (text, chunks)) = ok (text, flat chunks)
flatten (err e) = err e

unfoldable pub spec_end : ℕ → Option (Text × Text) → Text → Result FrontError (Text × Text)
spec_end limit none text = if ltb limit (length text) then err too_long else err unexpected_eof
spec_end limit (some (part, behind)) text =
    if ltb limit (length part) then err too_long else check_line part >>= λ line. ok (line, behind)

unfoldable pub line_spec : ℕ → Text → Result FrontError (Text × Text)
unfolding cut_line spec_end
line_spec limit text = spec_end limit (cut_line text) text

abbrev behind_line : Text → Option (Text × Text) → Option (Text × Text)
behind_line line none = none
behind_line line (some (x, y)) = some (line ++ x, y)

push-none : (b : ℕ) (o : Option (Text × Text)) → push b o ≡ none → o ≡ none
unfolding push
push-none b none h = refl
push-none b (some (x, y)) h = cc

push-behind_line :
    (b : ℕ) (line : Text) (o : Option (Text × Text))
    → push b (behind_line line o) ≡ behind_line (b ∷ line) o
unfolding push
push-behind_line b line none = refl
push-behind_line b line (some (x, y)) = refl

behind_line-nil : (o : Option (Text × Text)) → o ≡ behind_line [] o
behind_line-nil none = refl
behind_line-nil (some (x, y)) = refl

cut_line-append :
    (line text : Text)
    → cut_line line ≡ none
    → cut_line (line ++ text) ≡ behind_line line (cut_line text)
unfolding cut_line
cut_line-append [] text h = behind_line-nil (cut_line text)
cut_line-append (b ∷ line) text h = elim (if-cases (b == 10) h) [
  | inl (feed, e) ↦ cc
  | inr (other, e) ↦ rw other (
      ap (push b) (cut_line-append line text (push-none b (cut_line line) e))
      ∙ push-behind_line b line (cut_line text))
]

abbrev pub before_text : Option (Text × Text) → Text → Option (Text × Text)
before_text none text = none
before_text (some (x, y)) text = some (x, y ++ text)

push-before_text :
    (b : ℕ) (o : Option (Text × Text)) (text : Text)
    → push b (before_text o text) ≡ before_text (push b o) text
unfolding push
push-before_text b none text = refl
push-before_text b (some (x, y)) text = refl

push-some : (b : ℕ) (o : Option (Text × Text)) → is_some (push b o) ≡ is_some o
unfolding push
push-some b none = refl
push-some b (some (x, y)) = refl

pub cut_line-some :
    (s text : Text)
    → is_some (cut_line s) ≡ true
    → cut_line (s ++ text) ≡ before_text (cut_line s) text
unfolding cut_line
cut_line-some [] text h = cc
cut_line-some (b ∷ s) text h = elim (Bool-cases (b == 10)) [
  | inl feed ↦ rw (feed, cut_line) refl
  | inr other ↦
      let later : is_some (cut_line s) ≡ true =
        sym (push-some b (cut_line s))
        ∙ ap is_some (sym (if_false (b == 10) (some (10 ∷ [], s)) _ other))
        ∙ h in
      if_false (b == 10) _ (push b (cut_line (s ++ text))) other
      ∙ ap (push b) (cut_line-some s text later)
      ∙ push-before_text b (cut_line s) text
      ∙ ap (λ o. before_text o text)
          (sym (if_false (b == 10) (some (10 ∷ [], s)) (push b (cut_line s)) other))
]

-- The line grows with what it is cut from.
cut_line-length :
    (line text part behind : Text)
    → cut_line line ≡ none
    → cut_line (line ++ text) ≡ some (part, behind)
    → length line ≤ length part
cut_line-length line text part behind h e =
    grown (cut_line text) (sym (cut_line-append line text h) ∙ e)
  where
    grown :
        (o : Option (Text × Text))
        → behind_line line o ≡ some (part, behind)
        → length line ≤ length part
    grown none e = cc
    grown (some (x, y)) e =
        let same : line ++ x ≡ part = cc e in omega (arith, length-append line x, ap length same)

flatten-end_line :
    (limit : ℕ) (line part behind : Text) (chunks : Chunks)
    → flatten (end_line limit line part behind chunks)
      ≡ spec_end limit
          (some (line ++ part, behind ++ flat chunks))
          (line ++ (part ++ (behind ++ flat chunks)))
unfolding flatten end_line spec_end
flatten-end_line limit line part behind chunks =
    elim (Bool-cases (ltb limit (length (line ++ part)))) [
      | inl long ↦ rw long refl
      | inr short ↦ rw short (checked (check_line (line ++ part)))
    ]
  where
    checked :
        (r : Result FrontError Text)
        → flatten (r >>= λ whole. ok (whole, behind ∷ chunks))
          ≡ (r >>= λ whole. ok (whole, behind ++ flat chunks))
    checked (ok whole) = refl
    checked (err e) = refl

-- A line that is too long already stays so.
too_long_already :
    (limit : ℕ) (line text : Text)
    → cut_line line ≡ none
    → ltb limit (length line) ≡ true
    → line_spec limit (line ++ text) ≡ err too_long
unfolding line_spec
too_long_already limit line text h long = over (cut_line (line ++ text)) refl
  where
    over :
        (o : Option (Text × Text))
        → cut_line (line ++ text) ≡ o
        → spec_end limit o (line ++ text) ≡ err too_long
    over none e = unfold spec_end in let total = length-append line text in ground (arith, total)
    over (some (part, behind)) e =
        unfold spec_end in
        let more = cut_line-length line text part behind h e in ground (arith, more)

next_line-flat :
    (limit : ℕ) (line chunk : Text) (chunks : Chunks) (more : Result FrontError (Text × Chunks))
    (o : Option (Text × Text))
    → cut_line chunk ≡ o
    → cut_line line ≡ none
    → (cut_line (line ++ chunk) ≡ none
        → ltb limit (length (line ++ chunk)) ≡ false
        → flatten more ≡ line_spec limit ((line ++ chunk) ++ flat chunks))
    → flatten (next_line o limit line chunk chunks more)
      ≡ line_spec limit (line ++ (chunk ++ flat chunks))
unfolding next_line line_spec flatten
next_line-flat limit line chunk chunks more (some (part, behind)) e h again =
    flatten-end_line limit line part behind chunks
    ∙ ap (λ o. spec_end limit o (line ++ (chunk ++ flat chunks)))
        (sym (
          cut_line-append line (chunk ++ flat chunks) h
          ∙ ap (behind_line line) (
              cut_line-some chunk (flat chunks) (ap is_some e)
              ∙ ap (λ o. before_text o (flat chunks)) e)))
next_line-flat limit line chunk chunks more none e h again =
    let none_here : cut_line (line ++ chunk) ≡ none =
      cut_line-append line chunk h ∙ ap (behind_line line) e in
    elim (Bool-cases (ltb limit (length (line ++ chunk)))) [
      | inl long ↦ rw long (
          sym (
            ap (line_spec limit) (sym (append_assoc line chunk (flat chunks)))
            ∙ too_long_already limit (line ++ chunk) (flat chunks) none_here long))
      | inr short ↦
          rw short
            (again none_here short ∙ ap (line_spec limit) (append_assoc line chunk (flat chunks)))
    ]

line_loop-flat :
    (limit : ℕ) (line : Text) (chunks : Chunks)
    → cut_line line ≡ none
    → ltb limit (length line) ≡ false
    → flatten (line_loop limit line chunks) ≡ line_spec limit (line ++ flat chunks)
unfolding line_loop flatten
line_loop-flat limit line [] h short =
    sym (ap (line_spec limit) (append-nil line) ∙ unfold line_spec spec_end in rw h (rw short refl))
line_loop-flat limit line ([] ∷ chunks) h short = line_loop-flat limit line chunks h short
line_loop-flat limit line ((b ∷ s) ∷ chunks) h short =
    next_line-flat limit line (b ∷ s) chunks (line_loop limit (line ++ b ∷ s) chunks)
      (cut_line (b ∷ s)) refl h (line_loop-flat limit (line ++ b ∷ s) chunks)

-- A line does not depend on how the bytes are cut into chunks.
pub http_line-flat :
    (limit : ℕ) (chunks : Chunks) → flatten (http_line limit chunks) ≡ line_spec limit (flat chunks)
unfolding http_line
http_line-flat limit chunks = line_loop-flat limit [] chunks refl (ground arith)

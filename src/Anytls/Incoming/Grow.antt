-- ===== src/Anytls/Incoming/Grow.antt =====
-- How the received part of a frame grows in src/anytls.rs, on the read fields alone.
use zc.Prelude.{
  ℕ, ◌≤◌, ◌<◌, ◌≡◌, refl, sym, ap, ◌∙◌, Bool, false, not, List, [], ◌∷◌, ◌++◌, append_assoc,
  append-nil, length, is_empty, All-append, ◌==◌, if◌then◌else◌, arith, Bool-cases, inl, inr,
}
use zc.Prelude.Text.{Text}
use zc.Anytls.Io.{ReadEvent}
use zc.Anytls.Frame.{header_len, header_cmd}
use zc.Anytls.Incoming.{
  IsRaw, raw_bytes, data_bytes, raw_bytes-append, data_bytes-append, partial, undelivered, Incoming,
}

partial_header : (header body : Text) → length header < 7 → partial header body ≡ header
partial_header header body h = ground arith

partial_body : (header body : Text) → length header ≡ 7 → partial header body ≡ header ++ body
partial_body header body h = ground arith

module _ (start out : Text) (reads reads' : List ReadEvent) (received header : Text) (len : ℕ)
    (body : Text) (n : ℕ) (inc : Incoming start out (reads, received, header, len, body, n, false))
    (got : Text) where
  grown :
      (header' body' : Text)
      → partial header' body' ≡ partial header body ++ got
      → received ++ got ≡ start ++ (raw_bytes inc.frames ++ partial header' body')
  grown header' body' e =
      rw (inc.all_received, e)
        (append_assoc start _ got
          ∙ ap (λ t. start ++ t) (append_assoc (raw_bytes inc.frames) _ got))

  pub grow-header :
      length (header ++ got) < 7
      → length header < 7
      → Incoming start out (reads', received ++ got, header ++ got, len, body, n, false)
  grow-header short h = record {
    frames = inc.frames;
    whole = inc.whole;
    all_received = grown (header ++ got) body (
        partial_header (header ++ got) body short
        ∙ ap (λ t. t ++ got) (sym (partial_header header body h)));
    all_handed = inc.all_handed;
    header_fits = omega arith;
    body_length = λ e. absurd (omega arith);
    between = λ e. cc;
  }

  pub full-header :
      length (header ++ got) ≡ 7
      → length header < 7
      → Incoming start out
          (reads', received ++ got, header ++ got, header_len (header ++ got), [], 0, false)
  full-header e7 h = record {
    frames = inc.frames;
    whole = inc.whole;
    all_received = grown (header ++ got) [] (
        partial_body (header ++ got) [] e7
        ∙ append-nil (header ++ got)
        ∙ ap (λ t. t ++ got) (sym (partial_header header body h)));
    all_handed = inc.all_handed;
    header_fits = omega arith;
    body_length = λ e. (refl, omega arith, refl);
    between = λ e. cc;
  }

  pub grow-body :
      length header ≡ 7
      → length (body ++ got) ≤ len
      → Incoming start out (reads', received ++ got, header, len, body ++ got, n, false)
  grow-body e7 fits = record {
    frames = inc.frames;
    whole = inc.whole;
    all_received = grown header (body ++ got) (
        partial_body header (body ++ got) e7
        ∙ sym (append_assoc header body got)
        ∙ ap (λ t. t ++ got) (sym (partial_body header body e7)));
    all_handed = inc.all_handed;
    header_fits = inc.header_fits;
    body_length = λ e. ((inc.body_length e).0, fits, (inc.body_length e).2);
    between = λ e. cc;
  }

-- Whether a whole frame leaves data for the reader.
abbrev pub Announces : Text → Text → Bool → Type 0
Announces header body data_ready =
    data_ready ≡ (if header_cmd header == 2 then not (is_empty body) else false)

undelivered_all :
    (header body : Text) (data_ready : Bool) (n : ℕ)
    → Announces header body data_ready
    → n ≡ 0
    → undelivered data_ready n body ≡ data_bytes ((header, body) ∷ [])
undelivered_all header [] data_ready n a z = ground arith
undelivered_all header (b ∷ body) data_ready n a z =
    rw (z, a)
      (elim (Bool-cases (header_cmd header == 2)) [
        | inl carries ↦ rw carries (sym (append-nil (b ∷ body)))
        | inr control ↦ rw control
      ])

-- The end of a frame.
pub end-frame :
    (start out : Text) (reads : List ReadEvent) (received header : Text) (len : ℕ) (body : Text)
    (n : ℕ) (data_ready : Bool)
    → Incoming start out (reads, received, header, len, body, n, false)
    → length header ≡ 7
    → length body ≡ len
    → Announces header body data_ready
    → Incoming start out (reads, received, [], len, body, n, data_ready)
end-frame start out reads received header len body n data_ready inc e7 e_len a = record {
  frames = inc.frames ++ (header, body) ∷ [];
  whole = All-append IsRaw inc.frames _ inc.whole ((e7, e_len ∙ (inc.body_length e7).0), tt);
  all_received =
      inc.all_received
      ∙ ap (λ t. start ++ t)
          (ap (λ t. raw_bytes inc.frames ++ t)
              (partial_body header body e7 ∙ sym (append-nil (header ++ body)))
            ∙ sym (append-nil _ ∙ raw_bytes-append inc.frames ((header, body) ∷ [])));
  all_handed =
      ap (λ t. out ++ t) (undelivered_all header body data_ready n a (inc.body_length e7).2)
      ∙ ap (λ t. t ++ data_bytes ((header, body) ∷ [])) (sym (append-nil out) ∙ inc.all_handed)
      ∙ sym (data_bytes-append inc.frames ((header, body) ∷ []));
  header_fits = omega arith;
  body_length = λ e. absurd (omega arith);
  between = λ e. (refl, omega (arith, (inc.body_length e7).2));
}

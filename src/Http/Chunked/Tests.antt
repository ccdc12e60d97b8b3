-- ===== src/Http/Chunked/Tests.antt =====
-- Header lines and chunked bodies of src/runtime.rs at concrete values.
use zc.Prelude.{
  take-length-append, drop-length-append, true, length-append, subst, arith, ℕ, ◌-◌, ◌≡◌, refl, sym,
  ap, ◌∙◌, Option, none, some, List, [], ◌∷◌, ◌++◌, length, take, drop, leb, if◌then◌else◌,
  if-cases, inl, inr, flat, ok, err, append-nil, take-append-drop,
}
use zc.Prelude.Text.{Text, bytes, text_eq}
use zc.Frontend.{too_long}
use zc.Http.{crlf}
use zc.Http.Lines.{Chunks, http_header}
use zc.Http.Lines.Flat.{flatten}
use zc.Http.Lines.Headers.{http_header-flat}
use zc.Http.Lines.Bounded.{HeaderSpec, http_header-HeaderSpec}
use zc.Http.Relay.{Spec}
use zc.Http.Chunked.{Calls}
use zc.Http.Chunked.Copy.{copy_chunked, max_chunks}
use zc.Http.Chunked.Grammar.{Documented, IsBody}
use zc.Http.Chunked.Complete.{Serves, copy_chunked-copies}
use zc.Http.Chunked.Copied.{copy_chunked-Spec}

abbrev head_lines : Text
head_lines = bytes "GET / HTTP/1.1" ++ (crlf ++ (bytes "Host: a" ++ (crlf ++ crlf)))

abbrev two_chunks : Chunks
two_chunks = take 15 head_lines ∷ (drop 15 head_lines ++ bytes "body") ∷ []

abbrev one_chunk : Chunks
one_chunk = (head_lines ++ bytes "body") ∷ []

http_header-flat_example : flatten (http_header two_chunks) ≡ flatten (http_header one_chunk)
http_header-flat_example = http_header-flat two_chunks one_chunk refl

http_header-HeaderSpec_example : HeaderSpec [] (flat two_chunks) (http_header two_chunks)
http_header-HeaderSpec_example = http_header-HeaderSpec two_chunks

reads_the_header : http_header two_chunks ≡ ok (head_lines, bytes "body" ∷ [])
unfolding http_header
reads_the_header = refl

split_at :
    (n : ℕ) (text : Text) (rest : Chunks)
    → drop n text ∷ [] ≡ rest
    → text ≡ take n text ++ flat rest
split_at n text rest h =
    sym (take-append-drop n text)
    ∙ ap (λ t. take n text ++ t) (sym (append-nil (drop n text)) ∙ ap flat h)

-- Size lines of one digit, and no trailers.
abbrev one_digit : Text → Option (ℕ × ℕ)
one_digit (d ∷ s) = if text_eq s crlf then some (3, d - b'0') else none
one_digit [] = none

abbrev no_trailers : Text → Option (List Text)
no_trailers text = if text_eq text crlf then some [] else none

abbrev reads : Calls
reads = record {
  parse_chunk_size = one_digit;
  parse_headers = no_trailers;
  copy = λ n chunks. (take n (flat chunks), some (drop n (flat chunks) ∷ []));
  read_exact = λ n chunks.
      if leb n (length (flat chunks))
      then some (take n (flat chunks), drop n (flat chunks) ∷ [])
      else none;
}

reads-Documented : Documented reads
reads-Documented = record {
  copied = λ n chunks. (drop n (flat chunks), sym (take-append-drop n (flat chunks)));
  copied_all = λ n chunks rest e. split_at n (flat chunks) rest (cc);
  read = λ n chunks rest text e. elim (if-cases (leb n (length (flat chunks))) e) [
    | inl (long, h) ↦
        let first : take n (flat chunks) ≡ text = cc h in
        let after : drop n (flat chunks) ∷ [] ≡ rest = cc h in
        split_at n (flat chunks) rest after ∙ ap (λ t. t ++ flat rest) first
    | inr (short, h) ↦ cc
  ];
}

reads-Serves : Serves reads
reads-Serves = record {
  copies = λ text more chunks h.
      subst
        (λ bytes.
          (rest : Chunks) × (◌≡◌ {A = Text × Option Chunks}
            (take (length text) bytes, some (drop (length text) bytes ∷ [])) (text, some rest))
          × (flat rest ≡ more))
        (sym h)
        (
          drop (length text) (text ++ more) ∷ [],
          ap (λ t. (t, some (drop (length text) (text ++ more) ∷ [])))
              (take-length-append text more),
          (append-nil (drop (length text) (text ++ more)) ∙ drop-length-append text more),
        );
  reads = λ text more chunks h.
      subst
        (λ bytes.
          (rest : Chunks) × (◌≡◌ {A = Option (Text × Chunks)}
            (if leb (length text) (length bytes)
              then some (take (length text) bytes, drop (length text) bytes ∷ [])
              else none)
            (some (text, rest)))
          × (flat rest ≡ more))
        (sym h)
        (let long : leb (length text) (length (text ++ more)) ≡ true =
            (let total = length-append text more in ground (arith, total)) in
          (
            drop (length text) (text ++ more) ∷ [],
            rw long (
                ap (λ t. some (t, drop (length text) (text ++ more) ∷ []))
                  (take-length-append text more)),
            (append-nil (drop (length text) (text ++ more)) ∙ drop-length-append text more),
          ));
}

abbrev body : Chunks
body =
    (bytes "3" ++ (crlf ++ bytes "ab"))
    ∷ (bytes "c" ++ (crlf ++ (bytes "0" ++ (crlf ++ (crlf ++ bytes "GET")))))
    ∷ []

copy_chunked-Spec_example :
    Spec flat
      (λ rest out. IsBody reads 10 max_chunks 0 out)
      (flat body)
      (copy_chunked reads 10 body)
copy_chunked-Spec_example = copy_chunked-Spec reads reads-Documented 10 body

copies : copy_chunked reads 3 body ≡ (take 13 (flat body), ok (bytes "GET" ∷ []))
unfolding copy_chunked
copies = refl

stops_at_the_limit : copy_chunked reads 2 body ≡ ([], err too_long)
unfolding copy_chunked
stops_at_the_limit = refl

accepted_body : IsBody reads 3 max_chunks 0 (take 13 (flat body))
accepted_body =
    subst (IsBody reads 3 max_chunks 0) (ap (λ r. r.0) copies)
      ((copy_chunked-Spec reads reads-Documented 3 body).success (bytes "GET" ∷ [])
        (ap (λ r. r.1) copies)).1

copy_chunked-copies_example :
    (rest : Chunks) × (copy_chunked reads 3 ((take 13 (flat body) ++ bytes "more") ∷ [])
      ≡ (take 13 (flat body), ok rest))
    × (flat rest ≡ bytes "more")
copy_chunked-copies_example =
    copy_chunked-copies reads reads-Serves 3 (take 13 (flat body)) (bytes "more")
      ((take 13 (flat body) ++ bytes "more") ∷ []) accepted_body (omega arith) refl

-- ===== src/Http/Chunked/Checks.antt =====
-- The checks of `copy_chunked` of src/runtime.rs, against the grammar of chunked bodies.
use zc.Prelude.{
  ℕ, ◌<◌, ◌+◌, ◌^◌, ◌≤◌, ◌≡◌, refl, sym, ap, ◌∙◌, Bool, true, false, not, ◌&&◌, some, List, [], ◌∷◌,
  length, All, ltb, ◌==◌, if◌then◌else◌, ok, err, guard, ok_or, ok_or-some, >>=-eq-ok, Ensures,
  Ensures-guard, Ensures-any, Ensures-pure, take, all, within, ◌-◌, ok_injective, arith,
}
use zc.Prelude.Text.{Text}
use zc.Frontend.{FrontError, too_long, bad_framing, bad_field}
use zc.Http.Names.{validate_trailer}
use zc.Http.Chunked.{Calls, first_is_hexdigit, chunk_size, add_size, check_trailers, check_names}
use zc.Http.Chunked.Grammar.{IsSize, IsTrailers}

pub if_passes :
    {u : Unit {0}} (b : Bool) (e : FrontError) → (if b then ok tt else err e) ≡ ok u → b ≡ true
if_passes true e h = refl
if_passes false e h = cc

check_names-All :
    (names : List Text) {u : Unit {0}}
    → check_names names ≡ ok u
    → All (λ name. validate_trailer name ≡ ok tt) names
unfolding check_names
check_names-All [] h = tt
check_names-All (name ∷ names) h =
    let (u, passes, others) = >>=-eq-ok (validate_trailer name) (λ u. check_names names) h in
    (passes, check_names-All names others)

pub check_trailers-names :
    (calls : Calls) (trailers : Text) {u : Unit {0}}
    → check_trailers calls trailers ≡ ok u
    → (names : List Text) × (calls.parse_headers trailers ≡ some names)
      × All (λ name. validate_trailer name ≡ ok tt) names
unfolding check_trailers
check_trailers-names calls trailers h =
    let (names, parsed, passes) =
      >>=-eq-ok (ok_or bad_field (calls.parse_headers trailers)) check_names h in
    (names, ok_or-some bad_field _ parsed, check_names-All names passes)

guard_passes : {u : Unit {0}} (b : Bool) (e : FrontError) → guard b e ≡ ok u → b ≡ true
guard_passes true e h = refl
guard_passes false e h = cc

pub chunk_size-parsed :
    (calls : Calls) (line : Text)
    → Ensures
        (λ size.
          ((first_is_hexdigit line && all (within 32 126) (take (length line - 2) line)) ≡ true)
          × (calls.parse_chunk_size line ≡ some (length line, size)))
        (chunk_size calls line)
unfolding chunk_size
chunk_size-parsed calls line =
    Ensures-guard (first_is_hexdigit line && all (within 32 126) (take (length line - 2) line))
      bad_framing _
      (λ visible.
        Ensures-any (ok_or bad_framing (calls.parse_chunk_size line)) _ (λ (end, size) parsed.
          Ensures-guard (end == length line) bad_framing _ (λ whole.
            let ended : end ≡ length line = ground (arith, whole) in
            Ensures-pure _ size
              (visible, ok_or-some bad_framing _ parsed ∙ ap (λ n. some (n, size)) ended))))

pub add_size-sum :
    (limit total size : ℕ) {sum : ℕ}
    → add_size limit total size ≡ ok sum
    → (sum ≡ total + size) × (total + size ≤ limit)
unfolding add_size
add_size-sum limit total size {sum} h =
    let (u, word, checking) = >>=-eq-ok (guard (ltb (total + size) (2 ^ 64)) too_long) _ h in
    let (v, short, returns) =
      >>=-eq-ok (guard (not (ltb limit (total + size))) too_long) _ checking in
    let fits = guard_passes (not (ltb limit (total + size))) too_long short in
    (sym (ok_injective returns), ground (arith, fits))

pub IsSize-chunk_size :
    (calls : Calls) (line : Text) (size : ℕ)
    → IsSize calls line size
    → chunk_size calls line ≡ ok size
unfolding chunk_size
IsSize-chunk_size calls line size (is_line, visible, parsed) =
    let whole : (length line == length line) ≡ true = ground arith in
    rw (visible, parsed, whole) refl

pub fits-add_size :
    (limit total size : ℕ)
    → total + size ≤ limit
    → limit < 2 ^ 64
    → add_size limit total size ≡ ok (total + size)
unfolding add_size
fits-add_size limit total size fits word =
    let small : ltb (total + size) (2 ^ 64) ≡ true = ground arith in
    let short : ltb limit (total + size) ≡ false = ground arith in rw (small, short) refl

All-check_names :
    (names : List Text)
    → All (λ name. validate_trailer name ≡ ok tt) names
    → check_names names ≡ ok tt
unfolding check_names
All-check_names [] h = refl
All-check_names (name ∷ names) (passes, others) = rw passes (All-check_names names others)

pub IsTrailers-check_trailers :
    (calls : Calls) (trailers : Text)
    → IsTrailers calls trailers
    → check_trailers calls trailers ≡ ok tt
unfolding check_trailers
IsTrailers-check_trailers calls trailers (header, (names, parsed, valid)) =
    rw parsed (All-check_names names valid)

-- ===== src/Http/Chunked/Complete.antt =====
-- `copy_chunked` of src/runtime.rs passes every chunked body within its limits on.
use zc.Prelude.{
  ℕ, zero, suc, ◌+◌, ◌^◌, ◌≤◌, ◌<◌, ◌≡◌, refl, ap, ◌∙◌, Bool, true, false, some, ◌++◌, length, flat,
  ◌==◌, append-nil, append_assoc, ok, arith,
}
use zc.Prelude.Text.{Text}
use zc.Http.{crlf}
use zc.Http.Lines.{Chunks, http_line}
use zc.Http.Lines.Exact.{IsLine-http_line, IsHeader-http_header}
use zc.Http.Relay.{◌>>=◌, lift-ok}
use zc.Http.Chunked.{Calls, chunk_size, add_size}
use zc.Http.Chunked.Copy.{
  whole_copy, copy_exact, last_chunk, data_chunk, copy_loop, copy_chunked, max_chunks,
}
use zc.Http.Chunked.Grammar.{IsTrailers, IsChunked, IsBody, last, chunk}
use zc.Http.Chunked.Checks.{IsSize-chunk_size, fits-add_size, IsTrailers-check_trailers}

-- A reader that does not fail: while it has as many bytes as they ask for, tokio's reads succeed with these.
pub record Serves (calls : Calls) : Type 0 where
  pub copies :
      (text more : Text) (chunks : Chunks)
      → flat chunks ≡ text ++ more
      → (rest : Chunks) × (calls.copy (length text) chunks ≡ (text, some rest)) × (flat rest ≡ more)
  pub reads :
      (text more : Text) (chunks : Chunks)
      → flat chunks ≡ text ++ more
      → (rest : Chunks) × (calls.read_exact (length text) chunks ≡ some (text, rest))
        × (flat rest ≡ more)

other_case :
    {A : Type 0} (b : Bool) (x y : A) → b ≡ false → ◌≡◌ {A = A} (elim b [ true ↦ x | false ↦ y ]) y
other_case true x y h = cc
other_case false x y h = refl

module _ (calls : Calls) (serves : Serves calls) where
  copy_exact-copies :
      (body more : Text) (chunks : Chunks)
      → flat chunks ≡ body ++ more
      → (rest : Chunks) × (copy_exact calls (length body) chunks ≡ (body, ok rest))
        × (flat rest ≡ more)
  unfolding copy_exact whole_copy
  copy_exact-copies body more chunks h =
      let (rest, copied, after) = serves.copies body more chunks h in
      let whole : (length body == length body) ≡ true = ground arith in
      (rest, rw copied (rw whole refl), after)

  data_chunk-copies :
      (line body more : Text) (chunks : Chunks)
      → flat chunks ≡ body ++ (crlf ++ more)
      → (rest : Chunks) × (data_chunk calls line (length body) chunks
          ≡ (line ++ (body ++ crlf), ok rest))
        × (flat rest ≡ more)
  unfolding data_chunk
  data_chunk-copies line body more chunks h =
      let (behind, copied, after) = copy_exact-copies body (crlf ++ more) chunks h in
      let (rest, marked, left) = serves.reads crlf more behind after in
      (rest, rw copied (rw marked refl), left)

  last_chunk-copies :
      (line trailers more : Text) (chunks : Chunks)
      → IsTrailers calls trailers
      → flat chunks ≡ trailers ++ more
      → (rest : Chunks) × (last_chunk calls line chunks ≡ (line ++ trailers, ok rest))
        × (flat rest ≡ more)
  unfolding last_chunk
  last_chunk-copies line trailers more chunks valid h =
      let (rest, reads, left) = IsHeader-http_header chunks trailers more valid.0 h in
      let checks = IsTrailers-check_trailers calls trailers valid in
      (rest, rw reads (rw checks (ap (λ t. (line ++ t, ok rest)) (append-nil trailers))), left)

  copy_loop-copies :
      (limit fuel n total size : ℕ) (out more : Text) (chunks : Chunks)
      → IsChunked calls n size out
      → n ≤ fuel
      → total + size ≤ limit
      → limit < 2 ^ 64
      → flat chunks ≡ out ++ more
      → (rest : Chunks) × (copy_loop calls limit fuel total chunks ≡ (out, ok rest))
        × (flat rest ≡ more)
  unfolding copy_loop
  copy_loop-copies limit zero _ total _ _ more chunks (last line trailers sized valid) few fits word
        h =
      absurd (omega arith)
  copy_loop-copies limit zero _ total _ _ more chunks
        (chunk n size line body rest sized some_bytes chunked) few fits word h =
      absurd (omega arith)
  copy_loop-copies limit (suc fuel) _ total _ _ more chunks (last line trailers sized valid) few
        fits word h =
      let (behind, reads, after) =
        IsLine-http_line 4096 chunks line (trailers ++ more) sized.0
          (h ∙ append_assoc line trailers more) in
      let (rest, copied, left) = last_chunk-copies line trailers more behind valid after in
      (
        rest,
        lift-ok (http_line 4096 chunks) (line, behind) _ reads
            ∙ lift-ok (chunk_size calls line) 0 _ (IsSize-chunk_size calls line 0 sized)
            ∙ lift-ok (add_size limit total 0) (total + 0) _ (fits-add_size limit total 0 fits word)
            ∙ copied,
        left,
      )
  copy_loop-copies limit (suc fuel) _ total _ _ more chunks
        (chunk n size line body out sized some_bytes chunked) few fits word h =
      let size_fits : total + length body ≤ limit = omega (arith, fits) in
      let (behind, reads, after) =
        IsLine-http_line 4096 chunks line (body ++ (crlf ++ (out ++ more))) sized.0 (
          h
          ∙ append_assoc line (body ++ (crlf ++ out)) more
          ∙ ap (λ t. line ++ t) (append_assoc body (crlf ++ out) more)) in
      let (next, copied, left) = data_chunk-copies line body (out ++ more) behind after in
      let (rest, again, end) =
        copy_loop-copies limit fuel n (total + length body) size out more next chunked
          (omega (arith, few)) (omega (arith, fits)) word left in
      (
        rest,
        lift-ok (http_line 4096 chunks) (line, behind) _ reads
            ∙ lift-ok (chunk_size calls line) (length body) _
                (IsSize-chunk_size calls line (length body) sized)
            ∙ lift-ok (add_size limit total (length body)) (total + length body) _
                (fits-add_size limit total (length body) size_fits word)
            ∙ other_case (length body == 0) (last_chunk calls line behind)
                (data_chunk calls line (length body) behind
                  >>= copy_loop calls limit fuel (total + length body))
                (ground (arith, some_bytes))
            ∙ ap (λ r. r >>= copy_loop calls limit fuel (total + length body)) copied
            ∙ ap (λ r. ((line ++ (body ++ crlf)) ++ r.0, r.1)) again
            ∙ ap (λ t. (t, ok rest))
                (append_assoc line (body ++ crlf) out
                  ∙ ap (λ t. line ++ t) (append_assoc body crlf out)),
        end,
      )

  -- For every parser, a reader that does not fail and a writer that takes all bytes: a chunked body that comes first, of at most 262144 chunks
  -- and with a payload within a limit below 2 ^ 64, is passed on whole, and the reader holds what follows it.
  pub copy_chunked-copies :
      (limit : ℕ) (out more : Text) (chunks : Chunks)
      → IsBody calls limit max_chunks 0 out
      → limit < 2 ^ 64
      → flat chunks ≡ out ++ more
      → (rest : Chunks) × (copy_chunked calls limit chunks ≡ (out, ok rest)) × (flat rest ≡ more)
  unfolding copy_chunked
  copy_chunked-copies limit out more chunks (n, size, chunked, few, fits) word h =
      copy_loop-copies limit max_chunks n 0 size out more chunks chunked few fits word h

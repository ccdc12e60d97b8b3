-- ===== src/Http/Chunked/Copied.antt =====
-- What `copy_chunked` of src/runtime.rs writes.
use zc.Prelude.{
  ℕ, zero, suc, ◌≤◌, ◌≡◌, refl, sym, ap, ◌∙◌, subst, true, false, Option, none, some, ◌++◌, length,
  flat, ◌==◌, if◌then◌else◌, Bool-cases, inl, inr, append-nil, ok, err, ok_or, ok_or-some, all,
  ok_injective, arith,
}
use zc.Prelude.Text.{Text, text_eq, text_eq_iff}
use zc.Frontend.{bad_framing, unexpected_eof}
use zc.Http.{crlf}
use zc.Http.Lines.{Chunks, http_line, http_header}
use zc.Http.Lines.Exact.{http_line-IsLine, http_header-IsHeader}
use zc.Http.Relay.{
  write, lift, ◌>>=◌, ◌>>◌, Spec, Spec-bind, Spec-lift, Spec-write, Spec-done, Spec-map,
}
use zc.Http.Chunked.{Calls, chunk_size, add_size, check_trailers}
use zc.Http.Chunked.Copy.{
  whole_copy, copy_exact, last_chunk, data_chunk, copy_loop, copy_chunked, max_chunks,
}
use zc.Http.Chunked.Grammar.{Documented, IsSize, IsData, IsLast, IsBody, last-IsBody, next-IsBody}
use zc.Http.Chunked.Checks.{if_passes, check_trailers-names, chunk_size-parsed, add_size-sum}

module _ (calls : Calls) (documented : Documented calls) where
  copy_exact-Spec :
      (size : ℕ) (chunks : Chunks)
      → Spec flat (λ rest out. length out ≡ size) (flat chunks) (copy_exact calls size chunks)
  unfolding copy_exact
  copy_exact-Spec size chunks =
      copied (calls.copy size chunks) (documented.copied size chunks)
        (documented.copied_all size chunks)
    where
      copied :
          (c : Text × Option Chunks)
          → ((rest : Text) × (flat chunks ≡ c.0 ++ rest))
          → ((rest : Chunks) → c.1 ≡ some rest → flat chunks ≡ c.0 ++ flat rest)
          → Spec flat (λ rest out. length out ≡ size) (flat chunks) (whole_copy size c)
      copied (out, none) first all =
          unfold whole_copy in record { first = first; success = λ a e. cc }
      copied (out, some rest) first all =
          unfold whole_copy in
          elim (Bool-cases (length out == size)) [
            | inl whole ↦ rw whole (record {
              first = first;
              success = λ a e.
                  subst (λ a. (flat chunks ≡ out ++ flat a) × (length out ≡ size)) (ok_injective e)
                    (all rest refl, ground (arith, whole));
            })
            | inr short ↦ rw short (record { first = first; success = λ a e. cc })
          ]

  data_chunk-Spec :
      (line : Text) (size : ℕ) (chunks : Chunks)
      → Spec flat
          (λ rest out. IsData line size out)
          (line ++ flat chunks)
          (data_chunk calls line size chunks)
  unfolding data_chunk
  data_chunk-Spec line size chunks = Spec-write (flat chunks) line _ (
      Spec-bind {left = flat} {P = λ rest out. length out ≡ size} (flat chunks)
        (copy_exact calls size chunks) _ (copy_exact-Spec size chunks)
        (λ behind body h.
          Spec-lift (flat behind) (ok_or unexpected_eof (calls.read_exact 2 behind)) _
            (λ (mark, rest) e.
              let bytes = documented.read 2 behind rest mark (ok_or-some unexpected_eof _ e) in
              marked behind rest mark body bytes h)))
    where
      marked :
          (behind rest : Chunks) (mark body : Text)
          → flat behind ≡ mark ++ flat rest
          → length body ≡ size
          → Spec flat
              (λ r more. IsData line size (line ++ (body ++ more)))
              (flat behind)
              (lift (if text_eq mark crlf then ok tt else err bad_framing) >>= λ u.
                (write mark >> lift (ok rest)))
      marked behind rest mark body bytes h =
          Spec-lift (flat behind) (if text_eq mark crlf then ok tt else err bad_framing) _
            (λ u passes.
              let same : mark ≡ crlf =
                (text_eq_iff mark crlf).0 (if_passes (text_eq mark crlf) bad_framing passes) in
              subst
                (λ t.
                  Spec flat (λ r more. IsData line size (line ++ (body ++ more))) t
                    (write mark >> lift (ok rest)))
                (sym bytes)
                (Spec-write (flat rest) mark (lift (ok rest)) (
                  Spec-done {P = λ r more. IsData line size (line ++ (body ++ (mark ++ more)))} rest
                    (body, ap (λ m. line ++ (body ++ m)) (append-nil mark ∙ same), h))))

  last_chunk-Spec :
      (line : Text) (chunks : Chunks)
      → Spec flat
          (λ rest out. IsLast calls line out)
          (line ++ flat chunks)
          (last_chunk calls line chunks)
  unfolding last_chunk
  last_chunk-Spec line chunks =
      Spec-lift (line ++ flat chunks) (http_header chunks) _ (λ (trailers, rest) e.
        Spec-lift (line ++ flat chunks) (check_trailers calls trailers) _ (λ u passes.
          let (valid, parts) = http_header-IsHeader chunks rest trailers e in
          subst
            (λ t.
              Spec flat (λ r out. IsLast calls line out) (line ++ t)
                (write line >> (write trailers >> lift (ok rest))))
            (sym parts)
            (Spec-write (trailers ++ flat rest) line _ (
              Spec-write (flat rest) trailers _ (
                Spec-done {P = λ r more. IsLast calls line (line ++ (trailers ++ more))} rest (
                  trailers,
                  ap (λ t. line ++ t) (append-nil trailers),
                  (valid, check_trailers-names calls trailers passes),
                ))))))

  copy_loop-Spec :
      (limit fuel total : ℕ) (chunks : Chunks)
      → total ≤ limit
      → Spec flat
          (λ rest out. IsBody calls limit fuel total out)
          (flat chunks)
          (copy_loop calls limit fuel total chunks)
  unfolding copy_loop
  copy_loop-Spec limit zero total chunks short = record {
    first = (flat chunks, refl);
    success = λ a e. cc;
  }
  copy_loop-Spec limit (suc fuel) total chunks short =
      Spec-lift (flat chunks) (http_line 4096 chunks) _ (λ (line, rest) e.
        Spec-lift (flat chunks) (chunk_size calls line) _ (λ size sized.
          Spec-lift (flat chunks) (add_size limit total size) _ (λ sum added.
            let (is_line, parts) = http_line-IsLine 4096 chunks rest line e in
            let parsed : IsSize calls line size =
              (let checks = (chunk_size-parsed calls line).holds size sized in
                (is_line, checks.0, checks.1)) in
            let sums = add_size-sum limit total size added in
            subst
              (λ t.
                Spec flat (λ r out. IsBody calls limit (suc fuel) total out) t
                  (elim (size == 0) [
                    | true ↦ last_chunk calls line rest
                    | false ↦ data_chunk calls line size rest >>= copy_loop calls limit fuel sum
                  ]))
              (sym parts)
              (elim (Bool-cases (size == 0)) [
                | inl zero_size ↦ rw zero_size (
                    Spec-map (line ++ flat rest) (last_chunk calls line rest)
                      (λ r out.
                        last-IsBody calls limit fuel total size line out short
                          (ground (arith, zero_size)) parsed)
                      (last_chunk-Spec line rest))
                | inr more_size ↦ rw more_size (
                    Spec-bind (line ++ flat rest) (data_chunk calls line size rest) _
                      (data_chunk-Spec line size rest)
                      (λ behind out written.
                        Spec-map (flat behind) (copy_loop calls limit fuel sum behind)
                          (λ r more.
                            next-IsBody calls limit fuel total size sum line out more
                              (ground (arith, more_size)) sums.0 parsed written)
                          (copy_loop-Spec limit fuel sum behind (omega (arith, sums)))))
              ]))))

  -- For every parser, reads that hand out the next bytes as documented, and a writer that takes all bytes: what `copy_chunked` has written, also before
  -- an error, is the first of the bytes that it is given; when it succeeds, this is one chunked body of at
  -- most 262144 chunks, with permitted trailers and a payload within the limit, and the reader holds what follows.
  pub copy_chunked-Spec :
      (limit : ℕ) (chunks : Chunks)
      → Spec flat
          (λ rest out. IsBody calls limit max_chunks 0 out)
          (flat chunks)
          (copy_chunked calls limit chunks)
  unfolding copy_chunked
  copy_chunked-Spec limit chunks = copy_loop-Spec limit max_chunks 0 chunks (omega arith)

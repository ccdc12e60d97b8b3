-- ===== src/Obfs/Reading.antt =====
-- What `poll_read` of src/simple_obfs.rs hands out: the bytes behind the header, however they come.
use zc.Prelude.{
  ℕ, zero, suc, ◌+◌, ◌-◌, ◌≤◌, ◌≡◌, refl, sym, ap, ◌∙◌, subst, min, Bool, true, false, Option, none,
  some, List, [], ◌∷◌, ◌++◌, length, take, drop, is_empty, ltb, ◌==◌, if◌then◌else◌, inl, inr, ◌⊎◌,
  arith, ok, err, pending, ready, append-nil, append_assoc, take-append-drop,
}
use zc.Prelude.Text.{Text, bytes, starts_with}
use zc.Anytls.Io.{ReadEvent, bytes_read, read_failed, read_waits}
use zc.Obfs.{header_limit, Stream, fails, Polled, crlf}
use zc.Obfs.Read.{
  find_text, header_mark, is_status, line_of, upgrade, parse_header, at_read, read_inner, hand_out,
  read_raw, fires, tick, read_loop,
}
use zc.Obfs.Header.{
  after_header, after_header-append, find_text-some, find_text-none, starts_with-take,
  starts_with-longer,
}

-- What was handed out, against what was read.
abbrev pub IsRead : Bool → Text → Text → ℕ → Text → Type 0
IsRead false received response tail out =
    (out ≡ []) × (response ≡ received) × (after_header received ≡ none)
IsRead true received response tail out =
    (after_header received ≡ some (out ++ drop tail response))
    × (starts_with (bytes "HTTP/1.1 101") received ≡ true)

abbrev pub IsReading : Text → Stream → Type 0
IsReading out s = IsRead s.upgraded s.transport.received s.response s.tail out

-- A stream that has failed before the upgrade has handed out nothing.
abbrev pub IsHanded : Text → Stream → Type 0
IsHanded out s = IsReading out s ⊎ ((s.failed ≡ true) × (out ≡ []))

-- The answers of a poll: text that follows what was handed out before, a wait, or a failure.
abbrev pub ReadSpec : Text → Polled Text → Type 0
ReadSpec out (pending, s) = IsReading out s
ReadSpec out (ready (ok t), s) = IsReading (out ++ t) s
ReadSpec out (ready (err e), s) = IsHanded out s

pub if_split :
    {A : Type 0} (P : A → Type 0) (b : Bool) (x y : A)
    → (b ≡ true → P x)
    → (b ≡ false → P y)
    → P (if b then x else y)
if_split P true x y f g = f refl
if_split P false x y f g = g refl

drop_nil : (k : ℕ) → drop k [] ≡ ◌++◌ {A = ℕ} [] []
drop_nil zero = refl
drop_nil (suc k) = refl

pub drop-drop : (m n k : ℕ) (xs : Text) → k ≡ n + m → drop m (drop n xs) ≡ drop k xs
drop-drop m zero k xs h = let e : m ≡ k = omega (arith, h) in ap (λ i. drop i xs) e
drop-drop m (suc n) zero xs h = absurd (omega (arith, h))
drop-drop m (suc n) (suc k) [] h = drop_nil m
drop-drop m (suc n) (suc k) (x ∷ xs) h = drop-drop m n k xs (omega (arith, h))

pub drop_all : (n : ℕ) (xs : Text) → length xs ≤ n → drop n xs ≡ []
drop_all zero [] h = refl
drop_all zero (x ∷ xs) h = absurd (omega (arith, h))
drop_all (suc n) [] h = refl
drop_all (suc n) (x ∷ xs) h = drop_all n xs (omega (arith, h))

-- Handing out some of the bytes at hand.
pass_on :
    (n tail : ℕ) (response out : Text)
    → (out ++ take n (drop tail response)) ++ drop (tail + n) response ≡ out ++ drop tail response
pass_on n tail response out =
    append_assoc out (take n (drop tail response)) (drop (tail + n) response)
    ∙ ap (λ x. out ++ x)
        (ap (λ x. take n (drop tail response) ++ x)
            (sym (drop-drop n tail (tail + n) response refl))
          ∙ take-append-drop n (drop tail response))

hand_out-ReadSpec :
    (n : ℕ) (out : Text) (s : Stream)
    → s.upgraded ≡ true
    → IsRead true s.transport.received s.response s.tail out
    → ReadSpec out (hand_out n s)
unfolding hand_out
hand_out-ReadSpec n out s up (marked, status) =
    if_split (λ s'. IsReading (out ++ take n (drop s.tail s.response)) s')
      (s.tail + n == length s.response) (record s { response = []; tail = 0 })
      (record s { tail = s.tail + n })
      (λ whole.
        subst (λ u. IsRead u s.transport.received [] 0 (out ++ take n (drop s.tail s.response)))
          (sym up)
          (
            marked
                ∙ ap some (
                    sym (pass_on n s.tail s.response out)
                    ∙ ap (λ x. (out ++ take n (drop s.tail s.response)) ++ x)
                        (drop_all (s.tail + n) s.response (ground arith))),
            status,
          ))
      (λ part.
        subst
          (λ u.
            IsRead u s.transport.received s.response (s.tail + n)
              (out ++ take n (drop s.tail s.response)))
          (sym up) (marked ∙ ap some (sym (pass_on n s.tail s.response out)), status))

-- More bytes behind all that was at hand.
IsRead-more :
    (received response got out : Text) (tail : ℕ)
    → length response ≤ tail
    → IsRead true received response tail out
    → IsRead true (received ++ got) response tail (out ++ got)
IsRead-more received response got out tail h (marked, status) =
    let gone : drop tail response ≡ [] = drop_all tail response h in
    (
      after_header-append received got (out ++ drop tail response) marked
          ∙ ap some (
              ap (λ x. (out ++ x) ++ got) gone
              ∙ ap (λ x. x ++ got) (append-nil out)
              ∙ sym (append-nil (out ++ got))
              ∙ ap (λ x. (out ++ got) ++ x) (sym gone)),
      starts_with-longer (bytes "HTTP/1.1 101") received got status,
    )

read_inner-ReadSpec :
    (room : ℕ) (events : List ReadEvent) (out : Text) (s : Stream)
    → s.upgraded ≡ true
    → length s.response ≤ s.tail
    → IsRead true s.transport.received s.response s.tail out
    → ReadSpec out (read_inner room events s)
unfolding read_inner
read_inner-ReadSpec room [] out s up h v =
    subst (λ u. IsRead u s.transport.received s.response s.tail out) (sym up) v
read_inner-ReadSpec room (read_waits ∷ events) out s up h v =
    subst (λ u. IsRead u (s.transport.received ++ []) s.response s.tail out) (sym up)
      (subst (λ r. IsRead true r s.response s.tail out) (sym (append-nil s.transport.received)) v)
read_inner-ReadSpec room (read_failed k ∷ events) out s up h v = inl (
    subst (λ u. IsRead u (s.transport.received ++ []) s.response s.tail out) (sym up)
      (subst (λ r. IsRead true r s.response s.tail out) (sym (append-nil s.transport.received)) v))
read_inner-ReadSpec room (bytes_read bs ∷ events) out s up h v =
    subst
      (λ u. IsRead u (s.transport.received ++ take room bs) s.response s.tail (out ++ take room bs))
      (sym up) (IsRead-more s.transport.received s.response (take room bs) out s.tail h v)

read_raw-ReadSpec :
    (room : ℕ) (out : Text) (s : Stream)
    → s.upgraded ≡ true
    → IsReading out s
    → ReadSpec out (read_raw room s)
unfolding read_raw
read_raw-ReadSpec room out s up v =
    let w : IsRead true s.transport.received s.response s.tail out =
      subst (λ u. IsRead u s.transport.received s.response s.tail out) up v in
    if_split (ReadSpec out) (ltb s.tail (length s.response)) _ _
      (λ some_left. hand_out-ReadSpec (min room (length s.response - s.tail)) out s up w)
      (λ all_out. read_inner-ReadSpec room s.transport.reads out s up (ground arith) w)

-- A longer response goes on as one that was read, or has failed.
abbrev UpgradeSpec : Bool × Stream → Type 0
UpgradeSpec (true, s) = IsReading [] s
UpgradeSpec (false, s) = s.failed ≡ true

UpgradeSpec-IsReading :
    (next : Bool × Stream) → UpgradeSpec next → next.0 ≡ true → IsReading [] next.1
UpgradeSpec-IsReading (true, s) v h = v
UpgradeSpec-IsReading (false, s) v h = cc

UpgradeSpec-failed :
    (next : Bool × Stream) → UpgradeSpec next → next.0 ≡ false → next.1.failed ≡ true
UpgradeSpec-failed (true, s) v h = cc
UpgradeSpec-failed (false, s) v h = v

is_status-starts :
    (end : Option ℕ) (response : Text)
    → is_status (line_of end response) ≡ true
    → starts_with (bytes "HTTP/1.1 101") response ≡ true
unfolding is_status line_of
is_status-starts none response h = ground arith
is_status-starts (some n) response h =
    starts_with-take (bytes "HTTP/1.1 101") response n (ground arith)

upgrade-UpgradeSpec :
    (end : Option ℕ) (s : Stream)
    → s.upgraded ≡ false
    → s.response ≡ s.transport.received
    → find_text header_mark s.response ≡ end
    → UpgradeSpec (upgrade end s)
unfolding upgrade
upgrade-UpgradeSpec none s down same found =
    if_split UpgradeSpec (length s.response == header_limit) (false, record s { failed = true })
      (true, s) (λ long. refl)
      (λ short.
        subst (λ u. IsRead u s.transport.received s.response s.tail []) (sym down)
          (refl, same, ap after_header (sym same) ∙ find_text-none s.response found))
upgrade-UpgradeSpec (some end) s down same found =
    if_split UpgradeSpec (is_status (line_of (find_text crlf s.response) s.response))
      (true, record s { upgraded = true; deadline = false; tail = end + 4 })
      (false, record s { failed = true })
      (λ good. (
        ap after_header (sym same) ∙ find_text-some s.response end found,
        subst (λ r. starts_with (bytes "HTTP/1.1 101") r ≡ true) same
            (is_status-starts (find_text crlf s.response) s.response good),
      ))
      (λ bad. refl)

tick-upgraded : (deadline : Bool) (s : Stream) → (tick deadline s).upgraded ≡ s.upgraded
unfolding tick
tick-upgraded true s = refl
tick-upgraded false s = refl

tick-received :
    (deadline : Bool) (s : Stream) → (tick deadline s).transport.received ≡ s.transport.received
unfolding tick
tick-received true s = refl
tick-received false s = refl

tick-IsReading :
    (deadline : Bool) (out : Text) (s : Stream) → IsReading out s → IsReading out (tick deadline s)
unfolding tick
tick-IsReading true out s v = v
tick-IsReading false out s v = v

waits-IsReading :
    (events : List ReadEvent) (out : Text) (s : Stream)
    → IsReading out s
    → IsReading out (at_read events [] s)
waits-IsReading events out s v =
    subst (λ r. IsRead s.upgraded r s.response s.tail out) (sym (append-nil s.transport.received)) v

pub read_loop-ReadSpec :
    (room : ℕ) (events : List ReadEvent) (out : Text) (s : Stream)
    → IsReading out s
    → ReadSpec out (read_loop room events s)
unfolding read_loop fails parse_header
read_loop-ReadSpec room [] out s v =
    if_split (ReadSpec out) s.upgraded _ _ (λ up. read_raw-ReadSpec room out s up v)
      λ down.
        if_split (ReadSpec out) (fires s.deadline s.transport.timers) _ _
          (λ late. inl (tick-IsReading s.deadline out s v))
          λ soon. tick-IsReading s.deadline out s v
read_loop-ReadSpec room (read_waits ∷ events) out s v =
    if_split (ReadSpec out) s.upgraded _ _ (λ up. read_raw-ReadSpec room out s up v)
      λ down.
        if_split (ReadSpec out) (fires s.deadline s.transport.timers) _ _
          (λ late. inl (tick-IsReading s.deadline out s v))
          λ soon. waits-IsReading events out (tick s.deadline s) (tick-IsReading s.deadline out s v)
read_loop-ReadSpec room (read_failed k ∷ events) out s v =
    if_split (ReadSpec out) s.upgraded _ _ (λ up. read_raw-ReadSpec room out s up v)
      λ down.
        if_split (ReadSpec out) (fires s.deadline s.transport.timers) _ _
          (λ late. inl (tick-IsReading s.deadline out s v))
          λ soon.
            inl (waits-IsReading events out (tick s.deadline s) (tick-IsReading s.deadline out s v))
read_loop-ReadSpec room (bytes_read bs ∷ events) out s v =
    let got = take (header_limit - length s.response) bs in
    let longer = at_read events got (tick s.deadline s) in
    let fuller : Stream = record longer { response = s.response ++ got } in
    let next = upgrade (find_text header_mark (s.response ++ got)) fuller in
    if_split (ReadSpec out) s.upgraded _ _ (λ up. read_raw-ReadSpec room out s up v)
      λ down.
        let (nothing, same, unmarked) =
          subst (λ u. IsRead u s.transport.received s.response s.tail out) down v in
        let spec : UpgradeSpec next =
          upgrade-UpgradeSpec (find_text header_mark (s.response ++ got)) fuller
            (tick-upgraded s.deadline s ∙ down)
            (ap (λ r. r ++ got) (same ∙ sym (tick-received s.deadline s))) refl in
        if_split (ReadSpec out) (fires s.deadline s.transport.timers) _ _
          (λ late. inl (tick-IsReading s.deadline out s v))
          λ soon.
            if_split (ReadSpec out) (is_empty got) _ _ (λ ended. inr (refl, nothing))
              λ more.
                if_split (ReadSpec out) next.0 _ _
                  (λ go.
                    subst (λ o. ReadSpec o (read_loop room events next.1)) (sym nothing)
                      (read_loop-ReadSpec room events [] next.1
                        (UpgradeSpec-IsReading next spec go)))
                  (λ stop. inr (UpgradeSpec-failed next spec stop, nothing))

-- ===== src/Anytls/Outgoing/Accept.antt =====
-- `poll_write`, `poll_flush` and `shutdown_write` of src/anytls.rs on every branch.
use zc.Prelude.{
  ℕ, zero, suc, ◌<◌, min, ◌≡◌, refl, sym, ap, ◌∙◌, Bool, true, false, not, Option, none, some, List,
  [], ◌∷◌, ◌++◌, append-nil, map, length, take, drop, is_empty, flat, ◌==◌, ◌||◌, if◌then◌else◌,
  Result, ok, err, pending, ready, arith,
}
use zc.Prelude.Text.{Text}
use zc.Anytls.Io.{ErrorKind, IoError}
use zc.Anytls.Frame.{Frame, encode, max_frame, waste}
use zc.Anytls.Padding.{Draws}
use zc.Anytls.Padding.Lossless.{wastes}
use zc.Anytls.Session.{
  Session, Polled, failed, check_error, check_failure, unless_failed, queue, ready_try, drain,
}
use zc.Anytls.Polls.{queue_or_fail, poll_write}
use zc.Anytls.Outgoing.{IsSession, reply, payload, Owes}
use zc.Anytls.Outgoing.Drain.{
  Untouched, Drained, waits, done, broken, drain-Drained, Queued, refused, queued, queue-Queued,
  queued-IsSession, queued-stream, queued-payload, fail-IsSession,
}

-- A data frame of stream 1, and none for no data.
abbrev pub data_frames : Text → List Frame
data_frames [] = []
data_frames (b ∷ text) = record { cmd = 2; id = 1; body = b ∷ text } ∷ []

-- The frame that ends the stream.
abbrev pub fin : Frame
fin = record { cmd = 3; id = 1; body = [] }

-- A frame that is queued behind an emptied queue is owed from then on.
pub queued-Owes :
    (base : Text) (fs : List Frame) (f : Frame) (s : Session) (ps : List Text) (draws : Draws)
    (group : ℕ) (ns : List ℕ)
    → (f.cmd == 0) ≡ false
    → Owes base fs s
    → s.outgoing ≡ []
    → s.written ≡ 0
    → s.hearts ≡ []
    → flat ps ≡ encode f ++ wastes ns
    → Owes base (fs ++ f ∷ []) (record s {
      transport = record s.transport { draws = draws };
      outgoing = ps;
      group = group;
    })
queued-Owes base fs f s ps draws group ns kept (gs, bytes_same, frames_same) q z h same = (
  gs ++ f ∷ map waste ns,
  queued-stream base gs f ns s.transport.sent s.written ps
      (ap (λ p. s.transport.sent ++ drop s.written (flat p)) (sym q) ∙ bytes_same) z same,
  ap (λ l. payload (gs ++ f ∷ map waste ns) ++ map reply l) h
      ∙ append-nil _
      ∙ queued-payload gs f ns kept
      ∙ ap (λ l. l ++ f ∷ [])
          (sym (append-nil (payload gs))
            ∙ ap (λ l. payload gs ++ map reply l) (sym h)
            ∙ frames_same),
)

-- What `poll_write` promises, by its answer.
abbrev pub WriteSpec : Text → List Frame → Text → Polled ℕ → Type 0
WriteSpec base fs text (pending, s) = IsSession s × Owes base fs s
WriteSpec base fs text (ready (err e), s) = IsSession s
WriteSpec base fs text (ready (ok n), s) =
    IsSession s × (n ≡ min (length text) max_frame) × Owes base (fs ++ data_frames (take n text)) s

module _ (base : Text) (fs : List Frame) (text : Text) (n : ℕ)
    (enough : n ≡ min (length text) max_frame) (f : Frame)
    (one : data_frames (take n text) ≡ f ∷ []) (kept : (f.cmd == 0) ≡ false) where
  queue_or_fail-WriteSpec :
      (s s' : Session) (q : Result IoError (Unit {0}) × Session)
      → s'.alive ≡ true
      → IsSession s'
      → Owes base fs s'
      → s'.outgoing ≡ []
      → s'.written ≡ 0
      → s'.hearts ≡ []
      → Queued s' f q
      → WriteSpec base fs text (queue_or_fail q λ s''. (ready (ok n), s''))
  unfolding queue_or_fail failed
  queue_or_fail-WriteSpec s s' q a v o e z h (refused x) =
      fail-IsSession x s' v.padding v.shared v.group
  queue_or_fail-WriteSpec s s' q a v o e z h (queued ps draws group ns le ok_ps same) = (
    queued-IsSession s' ps draws group a z ok_ps le v,
    enough,
    rw one (queued-Owes base fs f s' ps draws group ns kept o e z h same),
  )

one_frame :
    (n b : ℕ) (rest : Text)
    → 0 < n
    → data_frames (take n (b ∷ rest)) ≡ record { cmd = 2; id = 1; body = take n (b ∷ rest) } ∷ []
one_frame zero b rest h = absurd (omega arith)
one_frame (suc n) b rest h = refl

-- After the drain.
ready_try-WriteSpec :
    (base : Text) (fs : List Frame) (b : ℕ) (rest : Text) (s : Session) (r : Polled (Unit {0}))
    → s.alive ≡ true
    → Drained base fs s r
    → let n = min (length (b ∷ rest)) max_frame in
      WriteSpec base fs (b ∷ rest) (
        ready_try r
          λ s'. queue_or_fail (queue 2 1 (take n (b ∷ rest)) s') λ s''. (ready (ok n), s''))
unfolding ready_try
ready_try-WriteSpec base fs b rest s r a (waits s' v u o) = (v, o)
ready_try-WriteSpec base fs b rest s r a (broken e s' v) = v
ready_try-WriteSpec base fs b rest s r a (done s' v u o e z h) =
    let n = min (length (b ∷ rest)) max_frame in
    queue_or_fail-WriteSpec base fs (b ∷ rest) n refl
      (record { cmd = 2; id = 1; body = take n (b ∷ rest) }) (one_frame n b rest (omega arith)) refl
      s s' _ (ap (λ (t : Untouched). t.1.0) u ∙ a) v o e z h
      (queue-Queued 2 1 (take n (b ∷ rest)) s' v.padding)

live_write :
    (base : Text) (fs : List Frame) (text : Text) (s : Session)
    → s.alive ≡ true
    → IsSession s
    → Owes base fs s
    → let n = min (length text) max_frame in
      WriteSpec base fs text (
        if is_empty text
        then (ready (ok 0), s)
        else ready_try
            (drain s)
            λ s'. queue_or_fail (queue 2 1 (take n text) s') λ s''. (ready (ok n), s''))
live_write base fs [] s a v o = (v, omega arith, (o.0, o.1, o.2 ∙ sym (append-nil fs)))
live_write base fs (b ∷ rest) s a v o =
    ready_try-WriteSpec base fs b rest s (drain s) a (drain-Drained base fs s a v o)

-- A poll that begins with `check_error` does only that on a failed session.
pub unless_failed_cases :
    {A : Type 0} (P : Polled A → Type 0) (o : Option ErrorKind) (s : Session) (rest : Polled A)
    → ((e : IoError) → P (ready (err e), s))
    → P rest
    → P (unless_failed (check_failure o) s rest)
unfolding unless_failed check_failure
unless_failed_cases P none s rest no_more go_on = go_on
unless_failed_cases P (some k) s rest no_more go_on = no_more _

pub if_cases :
    {A : Type 0} (P : A → Type 0) (b : Bool) (x y : A)
    → P x
    → (b ≡ false → P y)
    → P (if b then x else y)
if_cases P true x y p q = p
if_cases P false x y p q = q refl

-- On every session that keeps its invariant, and whatever the transport and the random source answer,
-- `poll_write` keeps the invariant. If it accepts n bytes, n is the smaller of the data's length and
-- 65535, and the session then owes just one frame more, the first n bytes of the data (none for no
-- data), behind all frames owed before. If it waits, it owes what it owed.
pub poll_write-WriteSpec :
    (base : Text) (fs : List Frame) (text : Text) (s : Session)
    → IsSession s
    → Owes base fs s
    → WriteSpec base fs text (poll_write text s)
unfolding poll_write check_error
poll_write-WriteSpec base fs text s v o =
    unless_failed_cases (WriteSpec base fs text) s.failure s _ (λ e. v)
      (if_cases (WriteSpec base fs text) (s.closing || not s.alive) _ _ v
        λ live. live_write base fs text s (ground arith) v o)

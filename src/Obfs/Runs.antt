-- ===== src/Obfs/Runs.antt =====
-- Any sequence of polls of src/simple_obfs.rs hands out the bytes behind the header, in order and once.
use zc.Prelude.{
  ℕ, ◌+◌, ◌-◌, ◌≡◌, sym, ◌∙◌, subst, min, true, false, not, ◌||◌, Option, none, some, List, [], ◌∷◌,
  ◌++◌, length, take, drop, is_empty, ltb, ◌==◌, inl, inr, ◌⊎◌, ok, err, pending, ready, append-nil,
}
use zc.Prelude.Text.{Text, bytes, starts_with}
use zc.Anytls.Io.{invalid, WriteEvent, wrote, write_failed, write_waits}
use zc.Obfs.{
  Stream, fails, Polled, ready_try, drain, drained, at_write, write_loop, poll_write, poll_flush,
  poll_shutdown,
}
use zc.Obfs.Read.{poll_read, read_loop}
use zc.Obfs.Header.{after_header}
use zc.Obfs.Reading.{IsReading, IsHanded, ReadSpec, if_split, read_loop-ReadSpec}

-- `drain` reads nothing, and succeeds only on a stream that has not failed.
abbrev DrainSpec : Text → Polled (Unit {0}) → Type 0
DrainSpec out (pending, s) = IsReading out s
DrainSpec out (ready (err e), s) = IsReading out s
DrainSpec out (ready (ok u), s) = IsReading out s

drained-IsReading : (out : Text) (s : Stream) → IsReading out s → IsReading out (drained s)
unfolding drained
drained-IsReading out s v =
    if_split (IsReading out) (is_empty s.unsent) s
      (record s { unsent = []; written = 0; deadline = s.deadline || not s.upgraded }) (λ h. v)
      (λ h. v)

write_loop-DrainSpec :
    (events : List WriteEvent) (w : ℕ) (sent out : Text) (s : Stream)
    → IsReading out s
    → DrainSpec out (write_loop events w sent s)
unfolding write_loop fails
write_loop-DrainSpec [] w sent out s v =
    if_split (DrainSpec out) (ltb w (length s.unsent)) _ _ (λ h. v)
      λ h. drained-IsReading out (at_write [] w sent s) v
write_loop-DrainSpec (write_waits ∷ events) w sent out s v =
    if_split (DrainSpec out) (ltb w (length s.unsent)) _ _ (λ h. v)
      λ h. drained-IsReading out (at_write (write_waits ∷ events) w sent s) v
write_loop-DrainSpec (write_failed k ∷ events) w sent out s v =
    if_split (DrainSpec out) (ltb w (length s.unsent)) _ _ (λ h. v)
      λ h. drained-IsReading out (at_write (write_failed k ∷ events) w sent s) v
write_loop-DrainSpec (wrote n ∷ events) w sent out s v =
    let count = min n (length s.unsent - w) in
    if_split (DrainSpec out) (ltb w (length s.unsent)) _ _
      (λ h.
        if_split (DrainSpec out) (count == 0) _ _ (λ stuck. v)
          λ moved.
            write_loop-DrainSpec events (w + count) (sent ++ take count (drop w s.unsent)) out s v)
      λ h. drained-IsReading out (at_write (wrote n ∷ events) w sent s) v

true-ne : true ≡ false → ⊥
true-ne e = cc

-- What any poll leaves: text that it hands out follows the text before.
abbrev pub PollSpec : {A : Type 0} → (A → Text) → Text → Polled A → Type 0
PollSpec text out (pending, s) = IsHanded out s
PollSpec text out (ready (err e), s) = IsHanded out s
PollSpec text out (ready (ok a), s) = IsHanded (out ++ text a) s

-- A poll that drains first, and then goes on with a stream that reads.
module _ {A : Type 0} (text : A → Text) (out : Text) (rest : Stream → Polled A) where
  ready_try-PollSpec :
      (p : Polled (Unit {0}))
      → DrainSpec out p
      → ((s : Stream) → IsReading out s → PollSpec text out (rest s))
      → PollSpec text out (ready_try p rest)
  ready_try-PollSpec (pending, s) v k = inl v
  ready_try-PollSpec (ready (err e), s) v k = inl v
  ready_try-PollSpec (ready (ok u), s) v k = k s v

  drain_first :
      (s : Stream)
      → IsHanded out s
      → ((s' : Stream) → IsReading out s' → PollSpec text out (rest s'))
      → PollSpec text out (ready_try (drain s) rest)
  unfolding drain
  drain_first s v k =
      if_split (λ p. PollSpec text out (ready_try p rest)) s.failed (ready (err invalid), s)
        (write_loop s.transport.writes s.written s.transport.sent s) (λ bad. v)
        λ good. elim v [
          | inl reading ↦
              ready_try-PollSpec (write_loop s.transport.writes s.written s.transport.sent s)
                (write_loop-DrainSpec s.transport.writes s.written s.transport.sent out s reading) k
          | inr (bad, nothing) ↦ absurd (true-ne (sym bad ∙ good))
        ]

ReadSpec-PollSpec : (out : Text) (p : Polled Text) → ReadSpec out p → PollSpec (λ t. t) out p
ReadSpec-PollSpec out (pending, s) v = inl v
ReadSpec-PollSpec out (ready (ok t), s) v = inl v
ReadSpec-PollSpec out (ready (err e), s) v = v

-- `poll_read` hands out what follows in the bytes behind the header, for every chunking of them.
pub poll_read-PollSpec :
    (room : ℕ) (out : Text) (s : Stream) → IsHanded out s → PollSpec (λ t. t) out (poll_read room s)
unfolding poll_read
poll_read-PollSpec room out s v =
    if_split (PollSpec (λ t. t) out) (room == 0) (ready (ok []), s) _
      (λ none_asked. subst (λ o. IsHanded o s) (sym (append-nil out)) v)
      λ asked.
        drain_first (λ t. t) out (λ s'. read_loop room s'.transport.reads s') s v
          λ s' reading.
            ReadSpec-PollSpec out (read_loop room s'.transport.reads s')
              (read_loop-ReadSpec room s'.transport.reads out s' reading)

-- The polls of the write side hand nothing out.
abbrev no_text : {A : Type 0} → A → Text
no_text a = []

-- Polls in any order, also after failures.
pub data Call : Type 0 where
  read_call : ℕ → Call
  write_call : Option (List ℕ) → Text → Call
  flush_call shutdown_call : Call

-- The text handed out so far, and the stream.
abbrev pub after_poll : {A : Type 0} → (A → Text) → Text → Polled A → Text × Stream
after_poll text out (pending, s) = (out, s)
after_poll text out (ready (err e), s) = (out, s)
after_poll text out (ready (ok a), s) = (out ++ text a, s)

unfoldable pub run_call : (List ℕ → Text) → Call → Text × Stream → Text × Stream
unfolding poll_read poll_write poll_flush poll_shutdown
run_call encode (read_call room) (out, s) = after_poll (λ t. t) out (poll_read room s)
run_call encode (write_call random text) (out, s) =
    after_poll no_text out (poll_write encode random text s)
run_call encode flush_call (out, s) = after_poll no_text out (poll_flush s)
run_call encode shutdown_call (out, s) = after_poll no_text out (poll_shutdown s)

unfoldable pub run_calls : (List ℕ → Text) → List Call → Text × Stream → Text × Stream
unfolding run_call
run_calls encode [] r = r
run_calls encode (call ∷ calls) r = run_calls encode calls (run_call encode call r)

-- What was handed out, of what was received: nothing when the stream failed or no header was read, and
-- after the header all that is not held back in the buffer.
abbrev pub IsRaw : Text → Stream → Type 0
IsRaw out s =
    ((s.failed ≡ true) × (out ≡ []))
    ⊎ ((out ≡ []) × (after_header s.transport.received ≡ none))
    ⊎ ((after_header s.transport.received ≡ some (out ++ drop s.tail s.response))
        × (starts_with (bytes "HTTP/1.1 101") s.transport.received ≡ true))

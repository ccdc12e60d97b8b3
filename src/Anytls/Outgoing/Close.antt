-- ===== src/Anytls/Outgoing/Close.antt =====
-- The write side of a close in src/anytls.rs, and the opening of a session.
use zc.Prelude.{
  ◌≡◌, refl, sym, ap, ◌∙◌, Bool, true, false, List, [], ◌∷◌, ◌++◌, append-nil, map, drop, flat,
  Result, ok, err, pending, ready, Bool-cases, inl, inr,
}
use zc.Prelude.Text.{Text}
use zc.Anytls.Io.{IoError, FlushEvent, flushed, flush_waits, flush_failed, io_error}
use zc.Anytls.Frame.{Frame, encode_all}
use zc.Anytls.Session.{Session, Polled, failed, ready_try, drain}
use zc.Anytls.Polls.{queue_or_fail, after_shutdown, queue_fin, shutdown_write}
use zc.Anytls.Outgoing.{IsSession, reply, payload, Owes, drop-nil, kept-IsSession}
use zc.Anytls.Outgoing.Drain.{
  Untouched, Drained, waits, done, broken, drain-Drained, Queued, refused, queued, queue-Queued,
  queued-IsSession, fail-IsSession,
}
use zc.Anytls.Outgoing.Accept.{fin, queued-Owes}

-- The FIN frame is owed once it is queued.
abbrev pub fin_frames : Bool → List Frame
fin_frames true = fin ∷ []
fin_frames false = []

abbrev pub OwesClose : Text → List Frame → Session → Type 0
OwesClose base fs s = Owes base (fs ++ fin_frames s.fin_queued) s

-- The transport has all that the session ever queued.
abbrev pub Sent : Text → List Frame → Session → Type 0
Sent base fs s = (gs : List Frame) × (s.transport.sent ≡ base ++ encode_all gs) × (payload gs ≡ fs)

abbrev pub CloseSpec : Text → List Frame → Polled (Unit {0}) → Type 0
CloseSpec base fs (pending, s) = IsSession s × OwesClose base fs s × (s.alive ≡ true)
CloseSpec base fs (ready (err e), s) = IsSession s
CloseSpec base fs (ready (ok u), s) =
    IsSession s × (s.write_closed ≡ true) × Sent base (fs ++ fin ∷ []) s

-- What the three steps of `shutdown_write` hand on.
record Open (base : Text) (fs : List Frame) (s : Session) : Type 0 where
  valid : IsSession s
  live : s.alive ≡ true
  owes : OwesClose base fs s

record Empty (base : Text) (fs : List Frame) (s : Session) : Type 0 where
  here : Open base fs s
  no_packets : s.outgoing ≡ []
  none_written : s.written ≡ 0
  no_hearts : s.hearts ≡ []

module _ (base : Text) (fs : List Frame) where
  after_drain :
      (s : Session) (r : Polled (Unit {0})) (k : Session → Polled (Unit {0}))
      → Open base fs s
      → Drained base (fs ++ fin_frames s.fin_queued) s r
      → ((s' : Session)
          → Empty base fs s'
          → s'.fin_queued ≡ s.fin_queued
          → CloseSpec base fs (k s'))
      → CloseSpec base fs (ready_try r k)
  unfolding ready_try
  after_drain s r k h (broken e s' v) next = v
  after_drain s r k h (waits s' v u o) next =
      let fin_same : s'.fin_queued ≡ s.fin_queued = ap (λ (t : Untouched). t.1.3) u in
      (
        v,
        (o.0, o.1, o.2 ∙ ap (λ b. fs ++ fin_frames b) (sym fin_same)),
        ap (λ (t : Untouched). t.1.0) u ∙ h.live,
      )
  after_drain s r k h (done s' v u o e z n) next =
      let fin_same : s'.fin_queued ≡ s.fin_queued = ap (λ (t : Untouched). t.1.3) u in
      next s'
        (record {
          here = record {
            valid = v;
            live = ap (λ (t : Untouched). t.1.0) u ∙ h.live;
            owes = (o.0, o.1, o.2 ∙ ap (λ b. fs ++ fin_frames b) (sym fin_same));
          };
          no_packets = e;
          none_written = z;
          no_hearts = n;
        })
        fin_same

  after_queue :
      (s : Session) (q : Result IoError (Unit {0}) × Session) (k : Session → Polled (Unit {0}))
      → Empty base fs s
      → s.fin_queued ≡ false
      → Queued (record s { fin_queued = true }) fin q
      → ((s' : Session) → Open base fs s' → s'.fin_queued ≡ true → CloseSpec base fs (k s'))
      → CloseSpec base fs (queue_or_fail q k)
  unfolding queue_or_fail failed
  after_queue s q k h no_fin (refused x) next =
      fail-IsSession x (record s { fin_queued = true }) h.here.valid.padding h.here.valid.shared
        h.here.valid.group
  after_queue s q k h no_fin (queued ps draws group ns le ok_ps same) next =
      let v = h.here.valid in
      next _
        (record {
          valid =
              queued-IsSession (record s { fin_queued = true }) ps draws group h.here.live
                h.none_written ok_ps le (kept-IsSession s s.transport true s.write_closed v);
          live = h.here.live;
          owes =
              queued-Owes base fs fin (record s { fin_queued = true }) ps draws group ns refl
                (
                  h.here.owes.0,
                  h.here.owes.1,
                  h.here.owes.2 ∙ ap (λ b. fs ++ fin_frames b) no_fin ∙ append-nil fs,
                )
                h.no_packets h.none_written h.no_hearts same;
        })
        refl

  after_events :
      (events : List FlushEvent) (s : Session)
      → Empty base fs s
      → s.fin_queued ≡ true
      → CloseSpec base fs (after_shutdown events s)
  unfolding after_shutdown failed
  after_events [] s h is_fin = (h.here.valid, h.here.owes, h.here.live)
  after_events (flush_waits ∷ events) s h is_fin = (
    kept-IsSession s (record s.transport { shutdowns = events }) s.fin_queued s.write_closed
        h.here.valid,
    h.here.owes,
    h.here.live,
  )
  after_events (flush_failed k ∷ events) s h is_fin =
      fail-IsSession (io_error k)
        (record s { transport = record s.transport { shutdowns = events } }) h.here.valid.padding
        h.here.valid.shared h.here.valid.group
  after_events (flushed ∷ events) s h is_fin =
      let (gs, bytes_same, frames_same) = h.here.owes in
      (
        kept-IsSession s (record s.transport { shutdowns = events }) s.fin_queued true h.here.valid,
        refl,
        (
          gs,
          sym (append-nil s.transport.sent)
              ∙ ap (λ t. s.transport.sent ++ t) (sym (drop-nil s.written))
              ∙ ap (λ p. s.transport.sent ++ drop s.written (flat p)) (sym h.no_packets)
              ∙ bytes_same,
          sym (append-nil (payload gs))
              ∙ ap (λ l. payload gs ++ map reply l) (sym h.no_hearts)
              ∙ frames_same
              ∙ ap (λ b. fs ++ fin_frames b) is_fin,
        ),
      )

  after_fin :
      (s : Session)
      → Empty base fs s
      → CloseSpec base fs
          (queue_fin s λ b. ready_try (drain b) λ c. after_shutdown c.transport.shutdowns c)
  unfolding queue_fin
  after_fin s h = elim (Bool-cases s.fin_queued) [
    | inl queued_before ↦ simp queued_before (last s h.here queued_before)
    | inr first ↦ simp first (
        after_queue s _ _ h first
          (queue-Queued 3 1 [] (record s { fin_queued = true }) h.here.valid.padding) last)
  ]
    where
      last :
          (b : Session)
          → Open base fs b
          → b.fin_queued ≡ true
          → CloseSpec base fs (ready_try (drain b) λ c. after_shutdown c.transport.shutdowns c)
      last b h is_fin =
          after_drain b (drain b) _ h (drain-Drained base _ b h.live h.valid h.owes)
            λ c empty same. after_events c.transport.shutdowns c empty (same ∙ is_fin)

-- Polled again and again, `shutdown_write` queues the FIN frame once, behind all frames accepted before,
-- and it succeeds only when the transport has taken every byte of these frames, with nothing but
-- padding between them; while it waits, the invariant holds and nothing is lost.
pub shutdown_write-CloseSpec :
    (base : Text) (fs : List Frame) (s : Session)
    → IsSession s
    → s.alive ≡ true
    → OwesClose base fs s
    → CloseSpec base fs (shutdown_write s)
unfolding shutdown_write
shutdown_write-CloseSpec base fs s v a o =
    after_drain base fs s (drain s) _ (record { valid = v; live = a; owes = o })
      (drain-Drained base _ s a v o) λ s' empty same. after_fin base fs s' empty

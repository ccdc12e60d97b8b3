-- ===== src/Anytls/Outgoing/Drain.antt =====
-- `queue` and `drain` of src/anytls.rs: every queued frame reaches the transport once and in order.
use zc.Prelude.{
  ℕ, ◌+◌, ◌≤◌, min, ◌≡◌, refl, sym, ap, ◌∙◌, Bool, true, false, Option, some, List, [], ◌∷◌, ◌++◌,
  append_assoc, append-nil, map, length, drop, is_empty, flat, All, ◌==◌, ◌||◌, Result, ok, err,
  pending, ready, arith, inl, inr, ◌⊎◌, Result-cases,
}
use zc.Prelude.Text.{Text}
use zc.Anytls.Io.{
  ErrorKind, IoError, ReadEvent, FlushEvent, flushed, flush_waits, flush_failed, io_error,
}
use zc.Anytls.Frame.{
  Frame, encode, encode_all, encode_all-append, append_frame, append_frame-encode, waste,
}
use zc.Anytls.Padding.{Padding, Draws, packets, max_stop}
use zc.Anytls.Padding.Valid.{IsPadding}
use zc.Anytls.Padding.Sizes.{IsPacket, packets_bounded}
use zc.Anytls.Padding.Lossless.{wastes, packets_lossless}
use zc.Anytls.Session.{
  Session, Polled, finish, fail, failed, queue, write_out, flush_transport, after_flush, ready_try,
  queue_try, drain_hearts, drain,
}
use zc.Anytls.Outgoing.{
  IsSession, stream, reply, payload, payload-append, payload-wastes, Owes, Wrote, waiting, emptied,
  broke, write_loop-Wrote, kept-IsSession, start-Position, drop-nil,
}

-- The fields that the write side leaves alone.
abbrev pub Untouched : Type 0
Untouched =
    (List ReadEvent × Text × Text × ℕ × Text × ℕ × Bool)
    × (Bool
        × Bool
        × Bool
        × Bool
        × Bool
        × Bool
        × Bool
        × ℕ
        × Option ErrorKind
        × Bool
        × Padding
        × Padding)

abbrev pub untouched : Session → Untouched
untouched s = (
  (
    s.transport.reads, s.transport.received, s.header, s.body_len, s.body, s.delivered,
    s.data_ready,
  ),
  (
    s.alive, s.v2, s.acknowledged, s.fin_queued, s.write_closed, s.peer_closed, s.closing,
    s.close_drained, s.failure, s.whole_closed, s.padding, s.shared,
  ),
)

pub finish-IsSession :
    (s : Session)
    → IsPadding s.padding
    → IsPadding s.shared
    → s.group ≤ max_stop
    → IsSession (finish s)
unfolding finish
finish-IsSession s p q g = record {
  position = λ e. cc;
  packets = tt;
  hearts = omega arith;
  padding = p;
  shared = q;
  group = g;
  dead = λ e. (refl, refl);
}

pub fail-IsSession :
    (e : IoError) (s : Session)
    → IsPadding s.padding
    → IsPadding s.shared
    → s.group ≤ max_stop
    → IsSession (fail e s)
unfolding fail
fail-IsSession e s p q g = finish-IsSession (record s { failure = some e.kind }) p q g

-- The outcome of `queue` on an empty queue.
pub data Queued (s : Session) (f : Frame) : Result IoError (Unit {0}) × Session → Type 0 where
  refused : (e : IoError) → Queued s f (err e, s)
  queued :
      (ps : List Text) (draws : Draws) (group : ℕ) (ns : List ℕ)
      → group ≤ max_stop
      → All IsPacket ps
      → flat ps ≡ encode f ++ wastes ns
      → Queued s f (
        ok tt,
        record s { transport = record s.transport { draws = draws }; outgoing = ps; group = group },
      )

-- Either outcome of `packets` with what is known of it.
pub packets_cases :
    (p : Padding) (group : ℕ) (text : Text) (draws : Draws)
    → IsPadding p
    → ((e : IoError) × (packets p group text draws ≡ err e))
      ⊎ ((ps : List Text) × (draws' : Draws) × (ns : List ℕ) × (packets p group text draws
            ≡ ok (ps, draws'))
          × All IsPacket ps
          × (flat ps ≡ text ++ wastes ns))
packets_cases p group text draws valid = elim (Result-cases (packets p group text draws)) [
  | inr e ↦ inl e
  | inl ((ps, draws'), is) ↦
      let kept = packets_lossless p group text draws draws' ps is in
      inr
        (ps, draws', kept.0, is, (packets_bounded p group text draws draws' ps valid is).0, kept.1)
]

pub queue-Queued :
    (cmd id : ℕ) (body : Text) (s : Session)
    → IsPadding s.padding
    → Queued s (record { cmd = cmd; id = id; body = body }) (queue cmd id body s)
unfolding queue
queue-Queued cmd id body s valid =
    elim (packets_cases s.padding s.group frame s.transport.draws valid) [
      | inl (e, is) ↦ rw (is, queue) (refused e)
      | inr (ps, draws, ns, is, ok_ps, same) ↦
          rw (is, queue)
            (queued ps draws (min (s.group + 1) max_stop) ns (omega arith) ok_ps
              (same ∙ ap (λ t. t ++ wastes ns) (append_frame-encode [] cmd id body)))
    ]
  where
    frame : Text
    frame = append_frame [] cmd id body

-- The outcome of a drain that began with `fs` owed.
pub data Drained (base : Text) (fs : List Frame) (s : Session) : Polled (Unit {0}) → Type 0 where
  waits :
      (s' : Session)
      → IsSession s'
      → untouched s' ≡ untouched s
      → Owes base fs s'
      → Drained base fs s (pending, s')
  done :
      (s' : Session)
      → IsSession s'
      → untouched s' ≡ untouched s
      → Owes base fs s'
      → s'.outgoing ≡ []
      → s'.written ≡ 0
      → s'.hearts ≡ []
      → Drained base fs s (ready (ok tt), s')
  broken : (e : IoError) (s' : Session) → IsSession s' → Drained base fs s (ready (err e), s')

-- `write_out` alone.
data WroteOut (base : Text) (fs : List Frame) (s : Session) : Polled (Unit {0}) → Type 0 where
  out_waits :
      (s' : Session)
      → IsSession s'
      → untouched s' ≡ untouched s
      → Owes base fs s'
      → WroteOut base fs s (pending, s')
  out_done :
      (s' : Session)
      → IsSession s'
      → untouched s' ≡ untouched s
      → Owes base fs s'
      → s'.outgoing ≡ []
      → s'.written ≡ 0
      → s'.hearts ≡ s.hearts
      → WroteOut base fs s (ready (ok tt), s')
  out_broken : (e : IoError) (s' : Session) → IsSession s' → WroteOut base fs s (ready (err e), s')

Wrote-WroteOut :
    (base : Text) (fs : List Frame) (s : Session) (r : Polled (Unit {0}))
    → s.alive ≡ true
    → IsSession s
    → Owes base fs s
    → Wrote s (stream s) r
    → WroteOut base fs s r
Wrote-WroteOut base fs s r a v owes (waiting events p ps w sent pos ok_ps e) =
    out_waits _
      (record {
        position = λ _. pos;
        packets = ok_ps;
        hearts = v.hearts;
        padding = v.padding;
        shared = v.shared;
        group = v.group;
        dead = λ d. cc;
      })
      refl (owes.0, e ∙ owes.1, owes.2)
Wrote-WroteOut base fs s r a v owes (emptied events w sent z e) =
    out_done _
      (record {
        position = λ _. z;
        packets = tt;
        hearts = v.hearts;
        padding = v.padding;
        shared = v.shared;
        group = v.group;
        dead = λ d. cc;
      })
      refl (owes.0, ap (λ t. sent ++ t) (drop-nil w) ∙ append-nil sent ∙ e ∙ owes.1, owes.2) refl z
      refl
Wrote-WroteOut base fs s r a v owes (broke e k t ps w) =
    out_broken e _ (fail-IsSession k _ v.padding v.shared v.group)

Wrote_out :
    (base : Text) (fs : List Frame) (s : Session)
    → s.alive ≡ true
    → IsSession s
    → Owes base fs s
    → WroteOut base fs s (write_out s)
unfolding write_out
Wrote_out base fs s a v owes =
    let goes_on : (is_empty s.outgoing || s.alive) ≡ true = ground arith in
    rw goes_on (
      Wrote-WroteOut base fs s _ a v owes (
        write_loop-Wrote s.transport.writes s.outgoing s.written s.transport.sent s _ (v.position a)
          v.packets refl))

-- A frame put on an empty queue is what the stream gains, with its padding.
pub queued-stream :
    (base : Text) (gs : List Frame) (f : Frame) (ns : List ℕ) (sent : Text) (w : ℕ) (ps : List Text)
    → sent ++ drop w [] ≡ base ++ encode_all gs
    → w ≡ 0
    → flat ps ≡ encode f ++ wastes ns
    → sent ++ drop w (flat ps) ≡ base ++ encode_all (gs ++ f ∷ map waste ns)
unfolding encode_all
queued-stream base gs f ns sent w ps e z same =
    let whole : sent ≡ base ++ encode_all gs =
      sym (append-nil sent) ∙ ap (λ t. sent ++ t) (sym (drop-nil w)) ∙ e in
    rw (z, same, whole, encode_all-append) (append_assoc base (encode_all gs) _)

-- The payload gains the frame.
pub queued-payload :
    (gs : List Frame) (f : Frame) (ns : List ℕ)
    → (f.cmd == 0) ≡ false
    → payload (gs ++ f ∷ map waste ns) ≡ payload gs ++ f ∷ []
queued-payload gs f ns h = payload-append gs (f ∷ map waste ns) ∙ rw (h, payload-wastes ns)

module _ (base : Text) (fs : List Frame) (s : Session) (a : s.alive ≡ true) where
  -- The state that an emptied queue leaves to the next step.
  record Ready (s' : Session) : Type 0 where
    valid : IsSession s'
    same : untouched s' ≡ untouched s
    owes : Owes base fs s'
    none_queued : s'.outgoing ≡ []
    none_written : s'.written ≡ 0

  ready_try-Drained :
      (r : Polled (Unit {0})) (k : Session → Polled (Unit {0}))
      → WroteOut base fs s r
      → ((s' : Session) → Ready s' → s'.hearts ≡ s.hearts → Drained base fs s (k s'))
      → Drained base fs s (ready_try r k)
  unfolding ready_try
  ready_try-Drained r k (out_waits s' v u o) next = waits s' v u o
  ready_try-Drained r k (out_done s' v u o q w h) next =
      next s' (record { valid = v; same = u; owes = o; none_queued = q; none_written = w }) h
  ready_try-Drained r k (out_broken e s' v) next = broken e s' v

  flush-Drained :
      (events : List FlushEvent) (s' : Session)
      → Ready s'
      → s'.hearts ≡ []
      → Drained base fs s (after_flush events s')
  unfolding after_flush failed
  flush-Drained [] s' r h = waits s' r.valid r.same r.owes
  flush-Drained (flush_waits ∷ events) s' r h =
      waits _
        (kept-IsSession s' (record s'.transport { flushes = events }) s'.fin_queued s'.write_closed
          r.valid)
        r.same r.owes
  flush-Drained (flush_failed k ∷ events) s' r h = broken _ _ (
      fail-IsSession (io_error k)
        (record s' { transport = record s'.transport { flushes = events } }) r.valid.padding
        r.valid.shared r.valid.group)
  flush-Drained (flushed ∷ events) s' r h =
      done _
        (kept-IsSession s' (record s'.transport { flushes = events }) s'.fin_queued s'.write_closed
          r.valid)
        r.same r.owes r.none_queued r.none_written h

  alive-untouched : (s' : Session) → untouched s' ≡ untouched s → s'.alive ≡ true
  alive-untouched s' u = ap (λ (t : Untouched). t.1.0) u ∙ a

  flush_transport-Drained :
      (s' : Session) → Ready s' → s'.hearts ≡ [] → Drained base fs s (flush_transport s')
  unfolding flush_transport
  flush_transport-Drained s' r h =
      simp (alive-untouched s' r.same) (flush-Drained s'.transport.flushes s' r h)

fewer_hearts :
    (s : Session) (id : ℕ) (hearts : List ℕ)
    → s.hearts ≡ id ∷ hearts
    → s.alive ≡ true
    → IsSession s
    → IsSession (record s { hearts = hearts })
fewer_hearts s id hearts e a v = record {
  position = v.position;
  packets = v.packets;
  hearts = omega (arith, v.hearts, ap (λ (l : List ℕ). length l) e);
  padding = v.padding;
  shared = v.shared;
  group = v.group;
  dead = λ d. cc;
}

pub queued-IsSession :
    (s : Session) (ps : List Text) (draws : Draws) (group : ℕ)
    → s.alive ≡ true
    → s.written ≡ 0
    → All IsPacket ps
    → group ≤ max_stop
    → IsSession s
    → IsSession (record s {
      transport = record s.transport { draws = draws };
      outgoing = ps;
      group = group;
    })
queued-IsSession s ps draws group a z ok_ps le v = record {
  position = λ _. rw z (start-Position ps ok_ps);
  packets = ok_ps;
  hearts = v.hearts;
  padding = v.padding;
  shared = v.shared;
  group = le;
  dead = λ d. cc;
}

-- One heartbeat: its reply is queued on the empty queue, and the drain goes on.
module _ (base : Text) (fs : List Frame) (s : Session) (a : s.alive ≡ true) (id : ℕ)
    (hearts : List ℕ) where
  Drained-trans :
      (s' : Session) (r : Polled (Unit {0}))
      → untouched s' ≡ untouched s
      → Drained base fs s' r
      → Drained base fs s r
  Drained-trans s' r u (waits t v w o) = waits t v (w ∙ u) o
  Drained-trans s' r u (done t v w o q z h) = done t v (w ∙ u) o q z h
  Drained-trans s' r u (broken e t v) = broken e t v

  reply-Owes :
      (s' : Session) (ps : List Text) (draws : Draws) (group : ℕ) (ns : List ℕ)
      → Ready base fs s a s'
      → s'.hearts ≡ id ∷ hearts
      → flat ps ≡ encode (reply id) ++ wastes ns
      → Owes base fs (record s' {
        transport = record s'.transport { draws = draws };
        outgoing = ps;
        group = group;
        hearts = hearts;
      })
  reply-Owes s' ps draws group ns r e same =
      let (gs, bytes_same, frames_same) = r.owes in
      (
        gs ++ reply id ∷ map waste ns,
        queued-stream base gs (reply id) ns s'.transport.sent s'.written ps
            (ap (λ q. s'.transport.sent ++ drop s'.written (flat q)) (sym r.none_queued)
              ∙ bytes_same)
            r.none_written same,
        ap (λ l. l ++ map reply hearts) (queued-payload gs (reply id) ns refl)
            ∙ append_assoc (payload gs) (reply id ∷ []) (map reply hearts)
            ∙ ap (λ l. payload gs ++ map reply l) (sym e)
            ∙ frames_same,
      )

  queue_try-Drained :
      (s' : Session) (q : Result IoError (Unit {0}) × Session) (k : Session → Polled (Unit {0}))
      → Ready base fs s a s'
      → s'.hearts ≡ id ∷ hearts
      → Queued (record s' { hearts = hearts }) (reply id) q
      → ((t : Session)
          → t.alive ≡ true
          → IsSession t
          → t.hearts ≡ hearts
          → Owes base fs t
          → Drained base fs t (k t))
      → Drained base fs s (queue_try q k)
  unfolding queue_try
  queue_try-Drained s' q k r e (refused x) next =
      broken x _ (fewer_hearts s' id hearts e (alive-untouched base fs s a s' r.same) r.valid)
  queue_try-Drained s' q k r e (queued ps draws group ns le ok_ps same) next =
      let alive' = alive-untouched base fs s a s' r.same in
      let t = record s' {
        transport = record s'.transport { draws = draws };
        outgoing = ps;
        group = group;
        hearts = hearts;
      } in
      Drained-trans t _ r.same (
        next t alive'
          (queued-IsSession (record s' { hearts = hearts }) ps draws group alive' r.none_written
            ok_ps le (fewer_hearts s' id hearts e alive' r.valid))
          refl (reply-Owes s' ps draws group ns r e same))

pub drain_hearts-Drained :
    (hearts : List ℕ) (base : Text) (fs : List Frame) (s : Session)
    → s.alive ≡ true
    → IsSession s
    → s.hearts ≡ hearts
    → Owes base fs s
    → Drained base fs s (drain_hearts hearts s)
unfolding drain_hearts
drain_hearts-Drained [] base fs s a v e owes =
    ready_try-Drained base fs s a _ flush_transport (Wrote_out base fs s a v owes)
      λ s' r h. flush_transport-Drained base fs s a s' r (h ∙ e)
drain_hearts-Drained (id ∷ hearts) base fs s a v e owes =
    ready_try-Drained base fs s a _ _ (Wrote_out base fs s a v owes) λ s' r h.
      queue_try-Drained base fs s a id hearts s' _ _ r (h ∙ e)
        (queue-Queued 9 id [] (record s' { hearts = hearts }) r.valid.padding)
        λ t alive' v' e' owes'. drain_hearts-Drained hearts base fs t alive' v' e' owes'

pub drain-Drained :
    (base : Text) (fs : List Frame) (s : Session)
    → s.alive ≡ true
    → IsSession s
    → Owes base fs s
    → Drained base fs s (drain s)
unfolding drain
drain-Drained base fs s a v owes = drain_hearts-Drained s.hearts base fs s a v refl owes

-- ===== src/Anytls/Session.antt =====
-- The session of src/anytls.rs between its polls: the state, and the operations that queue, drain and
-- finish.
use zc.Prelude.{
  ℕ, ◌+◌, ◌-◌, ◌*◌, min, Bool, true, false, ◌||◌, Option, none, some, List, [], ◌∷◌, ◌++◌, length,
  take, drop, is_empty, ◌==◌, if◌then◌else◌, Result, ok, err, Poll, pending, ready,
}
use zc.Prelude.Text.{Text}
use zc.Anytls.Io.{
  ErrorKind, IoError, io_error, closed, truncated_read, write_zero, WriteEvent, wrote, write_failed,
  write_waits, FlushEvent, flushed, flush_waits, flush_failed, ReadEvent,
}
use zc.Anytls.Frame.{append_frame}
use zc.Anytls.Padding.{Padding, Draws, packets, max_stop}

abbrev pub max_hearts : ℕ
max_hearts = 32

abbrev pub max_close_drain : ℕ
max_close_drain = 1024 * 1024

-- The transport below the session: what its next polls will answer, one list for each kind of poll (an
-- empty list waits for ever), and the bytes that it has taken and given so far.
pub record Transport : Type 0 where
  pub writes : List WriteEvent
  pub flushes : List FlushEvent
  pub shutdowns : List FlushEvent
  pub reads : List ReadEvent
  pub draws : Draws
  pub sent : Text
  pub received : Text

-- `AnyTls`. `alive` is `inner.is_some()`; `header` and `body` hold the bytes read so far, of 7 and of
-- `body_len`, so `header_read` and `body_read` are their lengths; `closing` is
-- `close_deadline.is_some()`. The wakers carry no data.
pub record Session : Type 0 where
  pub transport : Transport
  pub alive : Bool
  pub padding : Padding
  pub shared : Padding
  pub group : ℕ
  pub outgoing : List Text
  pub written : ℕ
  pub hearts : List ℕ
  pub reply_pending : Bool
  pub header : Text
  pub body_len : ℕ
  pub body : Text
  pub delivered : ℕ
  pub data_ready : Bool
  pub v2 : Bool
  pub acknowledged : Bool
  pub fin_queued : Bool
  pub write_closed : Bool
  pub peer_closed : Bool
  pub closing : Bool
  pub close_drained : ℕ
  pub failure : Option ErrorKind
  pub whole_closed : Bool

-- A poll's answer and the state that it leaves.
abbrev pub Polled : Type 0 → Type 0
Polled A = Poll (Result IoError A) × Session

-- `finish`
unfoldable pub finish : Session → Session
finish s = record s {
  alive = false;
  closing = false;
  outgoing = [];
  hearts = [];
  whole_closed = elim s.failure [ none ↦ true | some k ↦ s.whole_closed ];
}

-- `fail`: the state, and the error that is returned.
unfoldable pub fail : IoError → Session → Session
unfolding finish
fail e s = finish (record s { failure = some e.kind })

unfoldable pub failed : {A : Type 0} → IoError → Session → Polled A
failed e s = (ready (err (truncated_read e)), fail e s)

unfoldable pub check_failure : Option ErrorKind → Result IoError (Unit {0})
check_failure none = ok tt
check_failure (some k) = err (truncated_read (io_error k))

-- `check_error`
unfoldable pub check_error : Session → Result IoError (Unit {0})
unfolding check_failure truncated_read io_error
check_error s = check_failure s.failure

-- `self.check_error()?`
unfoldable pub unless_failed :
    {A : Type 0} → Result IoError (Unit {0}) → Session → Polled A → Polled A
unless_failed (err e) s rest = (ready (err e), s)
unless_failed (ok u) s rest = rest

-- `queue`: the frame becomes the packets of the next group.
unfoldable pub queue : ℕ → ℕ → Text → Session → Result IoError (Unit {0}) × Session
queue cmd id body s =
    elim (packets s.padding s.group (append_frame [] cmd id body) s.transport.draws) [
      | err e ↦ (err e, s)
      | ok (ps, draws) ↦ (
        ok tt,
        record s {
          transport = record s.transport { draws = draws };
          outgoing = ps;
          group = min (s.group + 1) max_stop;
        },
      )
    ]

-- `ready!(..)?`: go on only from a poll that is ready with success.
unfoldable pub ready_try : {A : Type 0} → Polled (Unit {0}) → (Session → Polled A) → Polled A
ready_try (pending, s) rest = (pending, s)
ready_try (ready (err e), s) rest = (ready (err e), s)
ready_try (ready (ok u), s) rest = rest s

-- The inner loop of `drain` over what the transport answers: the packets left, how much of the first is
-- written, and what is sent. `n` bytes are at most those that were offered.
unfoldable pub write_loop : List WriteEvent → List Text → ℕ → Text → Session → Polled (Unit {0})
unfolding failed io_error
write_loop events [] w sent s = (
  ready (ok tt),
  record s {
    transport = record s.transport { writes = events; sent = sent };
    outgoing = [];
    written = w;
  },
)
write_loop [] (p ∷ ps) w sent s = (
  pending,
  record s {
    transport = record s.transport { writes = []; sent = sent };
    outgoing = p ∷ ps;
    written = w;
  },
)
write_loop (write_waits ∷ events) (p ∷ ps) w sent s = (
  pending,
  record s {
    transport = record s.transport { writes = events; sent = sent };
    outgoing = p ∷ ps;
    written = w;
  },
)
write_loop (write_failed k ∷ events) (p ∷ ps) w sent s = failed (io_error k) (record s {
  transport = record s.transport { writes = events; sent = sent };
  outgoing = p ∷ ps;
  written = w;
})
write_loop (wrote n ∷ events) (p ∷ ps) w sent s =
    let count = min n (length p - w) in
    let full = w + count == length p in
    let rest =
      write_loop events (if full then ps else p ∷ ps) (if full then 0 else w + count)
        (sent ++ take count (drop w p)) s in
    if count == 0
    then failed (io_error write_zero) (record s {
      transport = record s.transport { writes = events; sent = sent };
      outgoing = p ∷ ps;
      written = w;
    })
    else rest

unfoldable pub write_out : Session → Polled (Unit {0})
unfolding write_loop closed
write_out s =
    if is_empty s.outgoing || s.alive
    then write_loop s.transport.writes s.outgoing s.written s.transport.sent s
    else (ready (err closed), s)

unfoldable pub after_flush : List FlushEvent → Session → Polled (Unit {0})
unfolding failed fail io_error truncated_read
after_flush [] s = (pending, s)
after_flush (flush_waits ∷ events) s =
    (pending, record s { transport = record s.transport { flushes = events } })
after_flush (flush_failed k ∷ events) s =
    failed (io_error k) (record s { transport = record s.transport { flushes = events } })
after_flush (flushed ∷ events) s =
    (ready (ok tt), record s { transport = record s.transport { flushes = events } })

unfoldable pub flush_transport : Session → Polled (Unit {0})
unfolding after_flush closed
flush_transport s = if s.alive then after_flush s.transport.flushes s else (ready (err closed), s)

-- `self.queue(..)?` in `drain`: the error is returned, and the session does not fail by it.
unfoldable pub queue_try :
    {A : Type 0} → Result IoError (Unit {0}) × Session → (Session → Polled A) → Polled A
queue_try (err e, s) rest = (ready (err e), s)
queue_try (ok u, s) rest = rest s

-- The outer loop of `drain`, over the heartbeats that wait for a reply.
unfoldable pub drain_hearts : List ℕ → Session → Polled (Unit {0})
unfolding ready_try write_out flush_transport queue_try queue
drain_hearts [] s = ready_try (write_out s) flush_transport
drain_hearts (id ∷ hearts) s =
    ready_try (write_out s)
      λ s'. queue_try (queue 9 id [] (record s' { hearts = hearts })) λ s''. drain_hearts hearts s''

-- `drain`
unfoldable pub drain : Session → Polled (Unit {0})
unfolding drain_hearts
drain s = drain_hearts s.hearts s

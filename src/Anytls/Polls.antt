-- ===== src/Anytls/Polls.antt =====
-- The `AsyncRead` and `AsyncWrite` methods of src/anytls.rs, and the opening of a session.
use zc.Prelude.{
  ℕ, zero, suc, ◌+◌, ◌-◌, min, Bool, true, false, not, ◌&&◌, ◌||◌, none, List, [], ◌∷◌, ◌++◌,
  length, take, is_empty, ltb, ◌==◌, if◌then◌else◌, replicate, Result, ok, err, ◌>>=◌, ◌>>◌, guard,
  pending, ready,
}
use zc.Prelude.Text.{Text, bytes}
use zc.Anytls.Io.{
  IoError, io_error, invalid, closed, truncated_read, timed_out, other, is_eof, FlushEvent, flushed,
  flush_waits, flush_failed, ReadEvent, bytes_read, read_failed, read_waits,
}
use zc.Anytls.Frame.{append_frame, be16, max_frame}
use zc.Anytls.Padding.{Padding, auth_size, packets}
use zc.Anytls.Session.{
  Session, Transport, Polled, finish, fail, failed, check_error, unless_failed, queue, ready_try,
  drain, max_close_drain,
}
use zc.Anytls.Receive.{receive}

unfoldable pub poll_read : (Text → Text) → ℕ → Session → Polled Text
unfolding receive
poll_read digest zero s = (ready (ok []), s)
poll_read digest (suc room) s = receive digest (suc room) s

-- `if let Err(e) = self.queue(..) { return self.fail(e) }`
unfoldable pub queue_or_fail :
    {A : Type 0} → Result IoError (Unit {0}) × Session → (Session → Polled A) → Polled A
unfolding failed fail truncated_read
queue_or_fail (err e, s) rest = failed e s
queue_or_fail (ok u, s) rest = rest s

-- `poll_write`: the answer is the number of bytes that are accepted.
unfoldable pub poll_write : Text → Session → Polled ℕ
unfolding check_error unless_failed queue_or_fail ready_try drain queue closed
poll_write text s =
    let n = min (length text) max_frame in
    unless_failed (check_error s) s (
      if s.closing || not s.alive
      then (ready (err closed), s)
      else if is_empty text
      then (ready (ok 0), s)
      else ready_try (drain s)
          λ s'. queue_or_fail (queue 2 1 (take n text) s') λ s''. (ready (ok n), s''))

unfoldable pub poll_flush : Session → Polled (Unit {0})
unfolding check_error unless_failed drain
poll_flush s = unless_failed (check_error s) s (
    if not s.alive
    then (ready (ok tt), s)
    else if s.write_closed
    then (ready (ok tt), s)
    else drain s)

unfoldable pub after_shutdown : List FlushEvent → Session → Polled (Unit {0})
unfolding failed fail io_error truncated_read
after_shutdown [] s = (pending, s)
after_shutdown (flush_waits ∷ events) s =
    (pending, record s { transport = record s.transport { shutdowns = events } })
after_shutdown (flush_failed k ∷ events) s =
    failed (io_error k) (record s { transport = record s.transport { shutdowns = events } })
after_shutdown (flushed ∷ events) s = (
  ready (ok tt),
  record s { transport = record s.transport { shutdowns = events }; write_closed = true },
)

-- The FIN frame is queued once.
unfoldable pub queue_fin : Session → (Session → Polled (Unit {0})) → Polled (Unit {0})
unfolding queue_or_fail queue
queue_fin s rest =
    if s.fin_queued
    then rest s
    else queue_or_fail (queue 3 1 [] (record s { fin_queued = true })) rest

-- `shutdown_write`
unfoldable pub shutdown_write : Session → Polled (Unit {0})
unfolding ready_try drain queue_fin after_shutdown
shutdown_write s =
    ready_try (drain s)
      λ a. queue_fin a λ b. ready_try (drain b) λ c. after_shutdown c.transport.shutdowns c

-- After the discarding loop: the session is finished when both directions are closed.
unfoldable pub shutdown_end : Session → Polled (Unit {0})
unfolding finish
shutdown_end s = if s.peer_closed && s.write_closed then (ready (ok tt), finish s) else (pending, s)

unfoldable pub discarded : Text → Session → Session
discarded bs s = record s {
  transport = record s.transport { received = s.transport.received ++ bs };
  close_drained = s.close_drained + length bs;
}

-- The loop that reads and discards what the peer still sends, at most `fuel` times in one poll.
unfoldable pub discard : ℕ → List ReadEvent → Session → Polled (Unit {0})
unfolding shutdown_end discarded failed fail io_error invalid truncated_read is_eof
discard zero events s =
    shutdown_end (record s { transport = record s.transport { reads = events } })
discard (suc fuel) [] s =
    let s' = record s { transport = record s.transport { reads = [] } } in
    if s.peer_closed then shutdown_end s' else (pending, s')
discard (suc fuel) (event ∷ events) s =
    let s' = record s { transport = record s.transport { reads = events } } in
    let unread = record s { transport = record s.transport { reads = event ∷ events } } in
    let room = min (max_close_drain - s.close_drained + 1) 16384 in
    if s.peer_closed then shutdown_end unread else elim event [
      | read_waits ↦ (pending, s')
      | read_failed k ↦
          if is_eof k
          then shutdown_end (record s' { peer_closed = true })
          else failed (io_error k) s'
      | bytes_read bs ↦
          let got = take room bs in
          let next = discard fuel events (discarded got s) in
          if is_empty got
          then shutdown_end (record s' { peer_closed = true })
          else if ltb max_close_drain (s.close_drained + length got)
          then failed invalid (discarded got s')
          else next
    ]

-- The write side of `poll_shutdown`: waiting does not hold up the reads.
unfoldable pub after_write_side : Polled (Unit {0}) → Polled (Unit {0})
unfolding discard
after_write_side (ready (err e), s) = (ready (err e), s)
after_write_side (pending, s) = discard 16 s.transport.reads s
after_write_side (ready (ok u), s) = discard 16 s.transport.reads s

-- `poll_shutdown`; `expired` says that the deadline of the close has passed.
unfoldable pub poll_shutdown : Bool → Session → Polled (Unit {0})
unfolding check_error unless_failed shutdown_write after_write_side failed fail io_error
    truncated_read
poll_shutdown expired s =
    let s' = record s { closing = true } in
    unless_failed (check_error s) s (
      if not s.alive
      then (ready (ok tt), s)
      else if expired
      then failed (io_error timed_out) s'
      else if s.write_closed
      then after_write_side (ready (ok tt), s')
      else after_write_side (shutdown_write s'))

-- The authentication message of `open`: the password's digest, the length of the padding, and the
-- padding. `sha256` is of another crate.
unfoldable pub auth_message : (Text → Text) → Text → ℕ → Text
unfolding be16
auth_message sha256 password n = sha256 password ++ be16 n ++ replicate n 0

-- The three frames that open a session and its stream. `version` is the package's, and `address` the
-- SOCKS address of the target, which another crate writes.
unfoldable pub opening_frames : Text → Padding → Text → Text
opening_frames version p address =
    append_frame
      (append_frame
        (append_frame [] 4 0
          (bytes "v=2\nclient=zc/" ++ version ++ bytes "\npadding-md5=" ++ p.md5))
        1 1 [])
      2 1 address

-- `open` up to its last flush; `accepted` is what the transport took of the authentication message, in
-- one write, and `flush` what its flush then gave.
unfoldable pub open_session :
    (Text → Text)
    → Text
    → Text
    → Text
    → Padding
    → ℕ
    → Result IoError (Unit {0})
    → Transport
    → Result IoError Session
unfolding auth_size auth_message opening_frames append_frame packets io_error
open_session sha256 version password address shared accepted flush t = do
  (n, draws) ← auth_size shared t.draws
  guard (accepted == length (auth_message sha256 password n)) (io_error other)
  flush
  (outgoing, draws') ← packets shared 1 (opening_frames version shared address) draws
  ok (record {
    transport = record t { draws = draws'; sent = t.sent ++ auth_message sha256 password n };
    alive = true;
    padding = shared;
    shared = shared;
    group = 2;
    outgoing = outgoing;
    written = 0;
    hearts = [];
    reply_pending = false;
    header = [];
    body_len = 0;
    body = [];
    delivered = 0;
    data_ready = false;
    v2 = false;
    acknowledged = false;
    fin_queued = false;
    write_closed = false;
    peer_closed = false;
    closing = false;
    close_drained = 0;
    failure = none;
    whole_closed = false;
  })

-- ===== src/Obfs.antt =====
-- src/simple_obfs.rs: the HTTP envelope around the first write and the first read. The transport below,
-- and the timer, are a script: each poll takes the next event.
pub mod Wire
pub mod Header
pub mod Read
pub mod Reading
pub mod Runs
pub mod Tests
use zc.Prelude.{
  ℕ, zero, suc, ◌+◌, ◌-◌, ◌%◌, min, Bool, true, false, not, ◌&&◌, ◌||◌, Option, none, some, List,
  [], ◌∷◌, ◌++◌, length, take, drop, any, get_or, is_empty, leb, ltb, ◌==◌, if◌then◌else◌, Result,
  ok, err, Poll, pending, ready, ◌>>=◌, ◌>>◌, guard,
}
use zc.Prelude.Text.{Text, bytes, starts_with, decimal}
use zc.Anytls.Io.{
  ErrorKind, IoError, io_error, invalid, truncated_read, write_zero, unexpected_eof, timed_out,
  other, WriteEvent, wrote, write_failed, write_waits, FlushEvent, flushed, flush_waits,
  flush_failed, ReadEvent, bytes_read, read_failed, read_waits,
}

abbrev pub header_limit : ℕ
header_limit = 8192

abbrev pub first_write_limit : ℕ
first_write_limit = 65536

-- The scripts, and what went through in each direction.
pub record Transport : Type 0 where
  pub writes : List WriteEvent
  pub flushes : List FlushEvent
  pub shutdowns : List FlushEvent
  pub reads : List ReadEvent
  -- Whether the timer is ready, for each of its polls.
  pub timers : List Bool
  pub sent : Text
  pub received : Text

-- `HttpObfsStream`; `deadline` says whether there is a timer.
pub record Stream : Type 0 where
  pub transport : Transport
  pub host : Text
  pub port : ℕ
  pub started : Bool
  pub unsent : Text
  pub written : ℕ
  pub response : Text
  pub tail : ℕ
  pub upgraded : Bool
  pub deadline : Bool
  pub failed : Bool

abbrev pub Polled : Type 0 → Type 0
Polled A = Poll (Result IoError A) × Stream

unfoldable pub validate_host : Text → Result IoError (Unit {0})
unfolding invalid
validate_host host =
    guard
      (not (is_empty host || ltb 255 (length host) || any (λ b. b == 0 || b == 13 || b == 10) host))
      invalid

-- `HttpObfsStream::new`
unfoldable pub new_stream : Transport → Text → ℕ → Result IoError Stream
unfolding validate_host invalid
new_stream transport host port = do
  validate_host host
  guard (not (port == 0)) invalid
  ok (record {
    transport = transport;
    host = host;
    port = port;
    started = false;
    unsent = [];
    written = 0;
    response = [];
    tail = 0;
    upgraded = false;
    deadline = false;
    failed = false;
  })

-- `self.failed = true; return Poll::Ready(Err(error))`
unfoldable pub fails : {A : Type 0} → IoError → Stream → Polled A
fails e s = (ready (err e), record s { failed = true })

-- `ready!(poll)?`
abbrev pub ready_try : {A B : Type 0} → Polled A → (Stream → Polled B) → Polled B
ready_try (pending, s) rest = (pending, s)
ready_try (ready (err e), s) rest = (ready (err e), s)
ready_try (ready (ok a), s) rest = rest s

abbrev pub at_write : List WriteEvent → ℕ → Text → Stream → Stream
at_write events w sent s = record s {
  transport = record s.transport { writes = events; sent = sent };
  written = w;
}

-- What follows the loop of `drain`.
unfoldable pub drained : Stream → Stream
drained s =
    if is_empty s.unsent
    then s
    else record s { unsent = []; written = 0; deadline = s.deadline || not s.upgraded }

-- The loop of `drain`: `w` bytes are written, and `sent` is what the transport took so far.
unfoldable pub write_loop : List WriteEvent → ℕ → Text → Stream → Polled (Unit {0})
unfolding fails io_error drained
write_loop [] w sent s =
    if ltb w (length s.unsent)
    then (pending, at_write [] w sent s)
    else (ready (ok tt), drained (at_write [] w sent s))
write_loop (write_waits ∷ events) w sent s =
    if ltb w (length s.unsent)
    then (pending, at_write events w sent s)
    else (ready (ok tt), drained (at_write (write_waits ∷ events) w sent s))
write_loop (write_failed k ∷ events) w sent s =
    if ltb w (length s.unsent)
    then fails (io_error k) (at_write events w sent s)
    else (ready (ok tt), drained (at_write (write_failed k ∷ events) w sent s))
write_loop (wrote n ∷ events) w sent s =
    let count = min n (length s.unsent - w) in
    let rest = write_loop events (w + count) (sent ++ take count (drop w s.unsent)) s in
    if ltb w (length s.unsent)
    then if count == 0 then fails (io_error write_zero) (at_write events w sent s) else rest
    else (ready (ok tt), drained (at_write (wrote n ∷ events) w sent s))

unfoldable pub drain : Stream → Polled (Unit {0})
unfolding write_loop invalid
drain s =
    if s.failed
    then (ready (err invalid), s)
    else write_loop s.transport.writes s.written s.transport.sent s

abbrev pub crlf : Text
crlf = 13 ∷ 10 ∷ []

unfoldable pub host_field : Text → ℕ → Text
unfolding decimal
host_field host port = if port == 80 then host else host ++ b':' ∷ decimal port

-- The request, whose body has `count` bytes. The encoder of base64 is of another crate.
unfoldable pub request : (List ℕ → Text) → Text → ℕ → List ℕ → ℕ → Text
unfolding host_field decimal
request encode host port random count =
    bytes "GET / HTTP/1.1"
    ++ crlf
    ++ bytes "Host: "
    ++ host_field host port
    ++ crlf
    ++ bytes "User-Agent: curl/7."
    ++ decimal (get_or random 0 0 % 51)
    ++ b'.' ∷ decimal (get_or random 1 0 % 2)
    ++ crlf
    ++ bytes "Upgrade: websocket"
    ++ crlf
    ++ bytes "Connection: Upgrade"
    ++ crlf
    ++ bytes "Sec-WebSocket-Key: "
    ++ encode (drop 2 random)
    ++ crlf
    ++ bytes "Content-Length: "
    ++ decimal count
    ++ crlf
    ++ crlf

-- The inner `poll_write` of data that need no envelope.
unfoldable pub write_raw : List WriteEvent → Text → Stream → Polled ℕ
unfolding io_error
write_raw [] text s = (pending, s)
write_raw (write_waits ∷ events) text s = (pending, at_write events s.written s.transport.sent s)
write_raw (write_failed k ∷ events) text s =
    (ready (err (io_error k)), at_write events s.written s.transport.sent s)
write_raw (wrote n ∷ events) text s = (
  ready (ok (min n (length text))),
  at_write events s.written (s.transport.sent ++ take (min n (length text)) text) s,
)

-- The first write: the random bytes are drawn, or the draw fails.
unfoldable pub write_first : (List ℕ → Text) → Option (List ℕ) → Text → Stream → Polled ℕ
unfolding request io_error
write_first encode none text s = (ready (err (io_error other)), s)
write_first encode (some random) text s =
    let count = min (length text) first_write_limit in
    (
      ready (ok count),
      record s {
        unsent = request encode s.host s.port random count ++ take count text;
        started = true;
      },
    )

unfoldable pub poll_write : (List ℕ → Text) → Option (List ℕ) → Text → Stream → Polled ℕ
unfolding drain write_raw write_first
poll_write encode random text s = ready_try (drain s) λ s'.
    if is_empty text
    then (ready (ok 0), s')
    else if s'.started
    then write_raw s'.transport.writes text s'
    else write_first encode random text s'

unfoldable pub flush_inner : List FlushEvent → Stream → Polled (Unit {0})
unfolding io_error
flush_inner [] s = (pending, s)
flush_inner (flush_waits ∷ events) s =
    (pending, record s { transport = record s.transport { flushes = events } })
flush_inner (flush_failed k ∷ events) s =
    (ready (err (io_error k)), record s { transport = record s.transport { flushes = events } })
flush_inner (flushed ∷ events) s =
    (ready (ok tt), record s { transport = record s.transport { flushes = events } })

-- `poll_flush`
unfoldable pub poll_flush : Stream → Polled (Unit {0})
unfolding drain flush_inner
poll_flush s = ready_try (drain s) λ s'. flush_inner s'.transport.flushes s'

unfoldable pub shutdown_inner : List FlushEvent → Stream → Polled (Unit {0})
unfolding io_error
shutdown_inner [] s = (pending, s)
shutdown_inner (flush_waits ∷ events) s =
    (pending, record s { transport = record s.transport { shutdowns = events } })
shutdown_inner (flush_failed k ∷ events) s =
    (ready (err (io_error k)), record s { transport = record s.transport { shutdowns = events } })
shutdown_inner (flushed ∷ events) s =
    (ready (ok tt), record s { transport = record s.transport { shutdowns = events } })

-- `poll_shutdown`
unfoldable pub poll_shutdown : Stream → Polled (Unit {0})
unfolding drain shutdown_inner
poll_shutdown s = ready_try (drain s) λ s'. shutdown_inner s'.transport.shutdowns s'

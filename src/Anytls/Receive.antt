-- ===== src/Anytls/Receive.antt =====
-- The read side of src/anytls.rs: header checks, control frames, and the loop of `receive`.
use zc.Prelude.{
  ℕ, zero, suc, ◌+◌, ◌-◌, min, Bool, true, false, not, ◌&&◌, ◌||◌, List, [], ◌∷◌, ◌++◌, length,
  take, drop, is_empty, leb, within, ◌==◌, if◌then◌else◌, Result, ok, err, ◌>>=◌, ◌>>◌, guard,
  ok_or, Poll, pending, ready,
}
use zc.Prelude.Text.{Text, bytes}
use zc.Anytls.Io.{
  ErrorKind, IoError, io_error, invalid, truncated_read, unexpected_eof, permission_denied,
  connection_refused, ReadEvent, bytes_read, read_failed, read_waits,
}
use zc.Anytls.Frame.{header_id, header_len, header_cmd}
use zc.Anytls.Padding.{parse, fields, number, get_field, max_text}
use zc.Anytls.Session.{
  Session, Transport, Polled, finish, fail, failed, check_error, unless_failed, drain, max_hearts,
}

-- `validate_header`: which headers a session may receive.
unfoldable pub validate_header : Session → Bool
unfolding header_cmd header_id header_len
validate_header s =
    let cmd = header_cmd s.header in
    let id = header_id s.header in
    let len = header_len s.header in
    if cmd == 0
    then id == 0
    else if cmd == 2
    then id == 1
    else if cmd == 3
    then id == 1 && len == 0
    else if cmd == 5 || cmd == 6
    then id == 0 && leb len max_text
    else if cmd == 7
    then s.v2 && not s.acknowledged && id == 1 && leb len max_text
    else if cmd == 8 || cmd == 9
    then s.v2 && len == 0
    else if cmd == 10
    then not s.v2 && id == 0 && leb len max_text
    else false

-- The version that a command 10 announces.
unfoldable pub server_version : Text → Result IoError ℕ
unfolding fields number get_field invalid
server_version body = do
  fs ← fields body
  text ← ok_or invalid (get_field (bytes "v") fs)
  v ← number text
  guard (within 2 65535 v) invalid
  ok v

module _ (digest : Text → Text) where
  unfoldable pub update_padding : Session → Result IoError (Unit {0}) × Session
  unfolding parse
  update_padding s = elim (parse digest s.body) [
    | err e ↦ (err e, s)
    | ok p ↦ (ok tt, record s { shared = p })
  ]

  unfoldable pub update_version : Session → Result IoError (Unit {0}) × Session
  unfolding server_version
  update_version s = elim (server_version s.body) [
    | err e ↦ (err e, s)
    | ok v ↦ (ok tt, record s { v2 = true })
  ]

  -- `control`: what a whole frame does.
  unfoldable pub control : Session → Result IoError (Unit {0}) × Session
  unfolding update_padding update_version io_error invalid finish header_cmd header_id
  control s =
      let cmd = header_cmd s.header in
      if cmd == 0 || cmd == 9
      then (ok tt, s)
      else if cmd == 2
      then (ok tt, record s { data_ready = not (is_empty s.body) })
      else if cmd == 3
      then (ok tt, finish s)
      else if cmd == 5
      then (err (io_error permission_denied), s)
      else if cmd == 6
      then update_padding s
      else if cmd == 7
      then (
        if is_empty s.body then ok tt else err (io_error connection_refused),
        record s { acknowledged = true },
      )
      else if cmd == 8
      then (if length s.hearts == max_hearts then (err invalid, s) else (
        ok tt,
        record s { hearts = s.hearts ++ header_id s.header ∷ []; reply_pending = true },
      ))
      else if cmd == 10
      then update_version s
      else (err invalid, s)

-- Reading up to `target` bytes into a buffer that holds `have`. Each poll is offered the room that is
-- left.
pub data Fill : Type 0 where
  full waits cut_off : Fill
  broken : ErrorKind → Fill

pub record Filled : Type 0 where
  pub status : Fill
  pub have : Text
  pub events : List ReadEvent

unfoldable pub read_into : List ReadEvent → ℕ → Text → Filled
read_into [] target have = record {
  status = if leb target (length have) then full else waits;
  have = have;
  events = [];
}
read_into (read_waits ∷ events) target have =
    if leb target (length have)
    then record { status = full; have = have; events = read_waits ∷ events }
    else record { status = waits; have = have; events = events }
read_into (read_failed k ∷ events) target have =
    if leb target (length have)
    then record { status = full; have = have; events = read_failed k ∷ events }
    else record { status = broken k; have = have; events = events }
read_into (bytes_read bs ∷ events) target have =
    let got = take (target - length have) bs in
    let rest = read_into events target (have ++ got) in
    if leb target (length have)
    then record { status = full; have = have; events = bytes_read bs ∷ events }
    else if is_empty got
    then record { status = cut_off; have = have; events = events }
    else rest

-- The outcome of a buffer's loop: the session goes on, or the poll ends.
unfoldable pub after_fill : Fill → Session → (Session → Polled Text) → Polled Text
unfolding failed fail io_error truncated_read
after_fill full s rest = rest s
after_fill waits s rest = (pending, s)
after_fill cut_off s rest = failed (io_error unexpected_eof) s
after_fill (broken k) s rest = failed (io_error k) s

unfoldable pub advance : Transport → List ReadEvent → Text → Transport
advance t events got = record t { reads = events; received = t.received ++ got }

-- `while self.header_read < 7`
unfoldable pub header_loop : Session → (Session → Polled Text) → Polled Text
unfolding read_into after_fill advance validate_header header_len failed fail invalid truncated_read
header_loop s rest =
    let r = read_into s.transport.reads 7 s.header in
    let s' = record s {
      transport = advance s.transport r.events (drop (length s.header) r.have);
      header = r.have;
    } in
    if leb 7 (length s.header)
    then rest s
    else after_fill r.status s' λ s''.
      if validate_header s''
      then rest (record s'' { body_len = header_len s''.header; body = []; delivered = 0 })
      else failed invalid s''

-- `while self.body_read < self.body.len()`
unfoldable pub body_loop : Session → (Session → Polled Text) → Polled Text
unfolding read_into after_fill advance
body_loop s rest =
    let r = read_into s.transport.reads s.body_len s.body in
    after_fill r.status
      (record s {
        transport = advance s.transport r.events (drop (length s.body) r.have);
        body = r.have;
      })
      rest

-- The part of a PSH body that is handed out.
unfoldable pub deliver : ℕ → Session → Polled Text
deliver room s =
    let n = min room (length s.body - s.delivered) in
    (
      ready (ok (take n (drop s.delivered s.body))),
      record s {
        delivered = s.delivered + n;
        data_ready = if s.delivered + n == length s.body then false else s.data_ready;
      },
    )

unfoldable pub after_drain :
    Poll (Result IoError (Unit {0})) × Session → (Session → Polled Text) → Polled Text
after_drain (pending, s) rest = rest s
after_drain (ready (err e), s) rest = (ready (err e), s)
after_drain (ready (ok u), s) rest = rest (record s { reply_pending = false })

-- Heartbeat replies are tried and do not hold up the reads.
unfoldable pub reply_first : Session → (Session → Polled Text) → Polled Text
unfolding drain after_drain
reply_first s rest = if s.reply_pending then after_drain (drain s) rest else rest s

-- A whole frame: its effect, or the failure of the session.
unfoldable pub after_control :
    Result IoError (Unit {0}) × Session → (Session → Polled Text) → Polled Text
unfolding failed fail truncated_read
after_control (err e, s) rest = failed e s
after_control (ok u, s) rest = rest (record s { header = [] })

module _ (digest : Text → Text) where
  -- One round of the loop of `receive`; `again` is the next one.
  unfoldable pub round : ℕ → Session → (Session → Polled Text) → Polled Text
  unfolding deliver reply_first header_loop body_loop after_control control
  round room s again =
      if s.data_ready
      then deliver room s
      else if not s.alive
      then (ready (ok []), s)
      else if s.closing
      then (pending, s)
      else reply_first s
          λ a. header_loop a λ b. body_loop b λ c. after_control (control digest c) again

  unfoldable pub rounds : ℕ → ℕ → Session → Polled Text
  unfolding round
  rounds zero room s = (pending, s)
  rounds (suc n) room s = round room s (λ s'. rounds n room s')

  -- `receive`, into a buffer with `room` bytes left; the answer is what is put there.
  unfoldable pub receive : ℕ → Session → Polled Text
  unfolding rounds check_error unless_failed
  receive room s = unless_failed (check_error s) s (rounds 32 room s)

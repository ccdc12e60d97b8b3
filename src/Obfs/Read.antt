-- ===== src/Obfs/Read.antt =====
-- `poll_read` of src/simple_obfs.rs.
use zc.Prelude.{
  ℕ, suc, ◌+◌, ◌-◌, min, Bool, true, false, ◌&&◌, ◌||◌, Option, none, some, List, [], ◌∷◌, ◌++◌,
  length, take, drop, get_elem?, is_empty, ltb, ◌==◌, if◌then◌else◌, ok, err, pending, ready,
}
use zc.Prelude.Text.{Text, bytes, starts_with}
use zc.Anytls.Io.{
  ErrorKind, IoError, io_error, invalid, truncated_read, unexpected_eof, timed_out, ReadEvent,
  bytes_read, read_failed, read_waits,
}
use zc.Obfs.{header_limit, Stream, fails, Polled, ready_try, drain, crlf}

-- `windows(n).position(|part| part == pattern)`
unfoldable pub find_text : Text → Text → Option ℕ
unfolding starts_with
find_text pattern [] = none
find_text pattern (b ∷ s) =
    let rest = find_text pattern s in
    if starts_with pattern (b ∷ s)
    then some 0
    else elim rest [ none ↦ none | some i ↦ some (suc i) ]

abbrev pub header_mark : Text
header_mark = crlf ++ crlf

-- The status line's test of byte 12, where there is one.
unfoldable pub is_blank : Option ℕ → Bool
is_blank none = true
is_blank (some b) = b == b' ' || b == 9

unfoldable pub is_status : Text → Bool
unfolding starts_with is_blank
is_status status = starts_with (bytes "HTTP/1.1 101") status && is_blank (get_elem? status 12)

-- The bytes before the first line's end; the mark of a header has one.
unfoldable pub line_of : Option ℕ → Text → Text
line_of none response = response
line_of (some n) response = take n response

-- What the loop does with a longer response: whether it goes on, and the state.
unfoldable pub upgrade : Option ℕ → Stream → Bool × Stream
unfolding is_status line_of find_text
upgrade none s =
    if length s.response == header_limit then (false, record s { failed = true }) else (true, s)
upgrade (some end) s =
    if is_status (line_of (find_text crlf s.response) s.response)
    then (true, record s { upgraded = true; deadline = false; tail = end + 4 })
    else (false, record s { failed = true })

unfoldable pub parse_header : Stream → Bool × Stream
unfolding find_text upgrade
parse_header s = upgrade (find_text header_mark s.response) s

abbrev pub at_read : List ReadEvent → Text → Stream → Stream
at_read events got s = record s {
  transport = record s.transport { reads = events; received = s.transport.received ++ got };
}

-- The inner `poll_read` after the upgrade; the end of the stream is an empty read.
unfoldable pub read_inner : ℕ → List ReadEvent → Stream → Polled Text
unfolding io_error
read_inner room [] s = (pending, s)
read_inner room (read_waits ∷ events) s = (pending, at_read events [] s)
read_inner room (read_failed k ∷ events) s = (ready (err (io_error k)), at_read events [] s)
read_inner room (bytes_read bs ∷ events) s =
    (ready (ok (take room bs)), at_read events (take room bs) s)

-- `if self.tail == self.response.len()`
unfoldable pub hand_out : ℕ → Stream → Polled Text
hand_out n s = (
  ready (ok (take n (drop s.tail s.response))),
  if s.tail + n == length s.response
      then record s { response = []; tail = 0 }
      else record s { tail = s.tail + n },
)

-- The branch of the loop after the upgrade.
unfoldable pub read_raw : ℕ → Stream → Polled Text
unfolding hand_out read_inner
read_raw room s =
    if ltb s.tail (length s.response)
    then hand_out (min room (length s.response - s.tail)) s
    else read_inner room s.transport.reads s

-- A poll of the timer, where there is one.
unfoldable pub fires : Bool → List Bool → Bool
fires deadline [] = false
fires deadline (b ∷ timers) = deadline && b

unfoldable pub tick : Bool → Stream → Stream
tick false s = s
tick true s = record s { transport = record s.transport { timers = drop 1 s.transport.timers } }

-- A failure of the inner `poll_read` before the upgrade.
unfoldable pub read_error : ErrorKind → Text → IoError
unfolding io_error truncated_read
read_error k response = if is_empty response then io_error k else truncated_read (io_error k)

-- The loop of `poll_read`.
unfoldable pub read_loop : ℕ → List ReadEvent → Stream → Polled Text
unfolding read_raw fires tick fails io_error read_error parse_header invalid
read_loop room [] s =
    if s.upgraded
    then read_raw room s
    else if fires s.deadline s.transport.timers
    then fails (io_error timed_out) (tick s.deadline s)
    else (pending, tick s.deadline s)
read_loop room (read_waits ∷ events) s =
    if s.upgraded
    then read_raw room s
    else if fires s.deadline s.transport.timers
    then fails (io_error timed_out) (tick s.deadline s)
    else (pending, at_read events [] (tick s.deadline s))
read_loop room (read_failed k ∷ events) s =
    if s.upgraded
    then read_raw room s
    else if fires s.deadline s.transport.timers
    then fails (io_error timed_out) (tick s.deadline s)
    else fails (read_error k s.response) (at_read events [] (tick s.deadline s))
read_loop room (bytes_read bs ∷ events) s =
    let got = take (header_limit - length s.response) bs in
    let longer = at_read events got (tick s.deadline s) in
    let next = parse_header (record longer { response = s.response ++ got }) in
    let rest = read_loop room events next.1 in
    if s.upgraded
    then read_raw room s
    else if fires s.deadline s.transport.timers
    then fails (io_error timed_out) (tick s.deadline s)
    else if is_empty got
    then fails (io_error unexpected_eof) longer
    else if next.0
    then rest
    else (ready (err invalid), next.1)

-- `poll_read` with room for so many bytes; what it answers is what it puts there.
unfoldable pub poll_read : ℕ → Stream → Polled Text
unfolding drain read_loop
poll_read room s =
    if room == 0
    then (ready (ok []), s)
    else ready_try (drain s) λ s'. read_loop room s'.transport.reads s'

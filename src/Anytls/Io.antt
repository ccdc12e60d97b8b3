-- ===== src/Anytls/Io.antt =====
-- `std::io::Error` as src/anytls.rs and src/simple_obfs.rs build and pass it, and what one poll of
-- the transport below them answers.
use zc.Prelude.{ℕ, Bool, true, false}
use zc.Prelude.Text.{Text}

-- `io::ErrorKind`: the kinds that the code names, and any other.
pub data ErrorKind : Type 0 where
  invalid_data broken_pipe write_zero unexpected_eof permission_denied : ErrorKind
  connection_refused connection_reset timed_out other : ErrorKind
  unnamed : ℕ → ErrorKind

-- `protocol` says that the payload is `ProtocolReadTruncated`.
pub record IoError : Type 0 where
  pub kind : ErrorKind
  pub protocol : Bool

unfoldable pub io_error : ErrorKind → IoError
io_error k = record { kind = k; protocol = false }

-- `invalid()` and `closed()`
unfoldable pub invalid : IoError
unfolding io_error
invalid = io_error invalid_data

unfoldable pub closed : IoError
unfolding io_error
closed = io_error broken_pipe

-- `outbound::truncated_read`: the kind stays, the payload marks a cut protocol read.
unfoldable pub truncated_read : IoError → IoError
truncated_read e = record { kind = e.kind; protocol = true }

unfoldable pub is_eof : ErrorKind → Bool
is_eof unexpected_eof = true
is_eof _ = false

-- One `poll_write`: the transport takes some bytes, at most those that it was given, fails, or waits.
pub data WriteEvent : Type 0 where
  wrote : ℕ → WriteEvent
  write_failed : ErrorKind → WriteEvent
  write_waits : WriteEvent

-- One `poll_flush` or `poll_shutdown`.
pub data FlushEvent : Type 0 where
  flushed flush_waits : FlushEvent
  flush_failed : ErrorKind → FlushEvent

-- One `poll_read`: bytes, cut to the room of the buffer; the end of the stream; a failure; or a wait.
pub data ReadEvent : Type 0 where
  bytes_read : Text → ReadEvent
  read_failed : ErrorKind → ReadEvent
  read_waits : ReadEvent

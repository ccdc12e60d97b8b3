-- ===== src/Obfs/Tests.antt =====
-- The envelope of src/simple_obfs.rs at concrete values.
use zc.Prelude.{ℕ, ◌≡◌, refl, some, List, [], ◌∷◌, ◌++◌, false}
use zc.Prelude.Text.{Text, bytes}
use zc.Anytls.Io.{wrote, write_waits, bytes_read, read_waits}
use zc.Obfs.{Transport, Stream, crlf}
use zc.Obfs.Runs.{Call, read_call, write_call, run_calls}

abbrev encode : List ℕ → Text
encode random = bytes "key"

abbrev transport : Transport
transport = record {
  writes = wrote 20 ∷ write_waits ∷ wrote 1000 ∷ [];
  flushes = [];
  shutdowns = [];
  reads =
      bytes_read (bytes "HTTP/1.1 101 OK" ++ 13 ∷ [])
      ∷ read_waits
      ∷ bytes_read ((10 ∷ []) ++ crlf ++ bytes "raw")
      ∷ bytes_read (bytes "more")
      ∷ [];
  timers = [];
  sent = [];
  received = [];
}

abbrev stream : Stream
stream = record {
  transport = transport;
  host = bytes "example.com";
  port = 80;
  started = false;
  unsent = [];
  written = 0;
  response = [];
  tail = 0;
  upgraded = false;
  deadline = false;
  failed = false;
}

abbrev polls : List Call
polls =
    write_call (some (1 ∷ 1 ∷ [])) (bytes "hello")
    ∷ read_call 100
    ∷ read_call 100
    ∷ read_call 2
    ∷ read_call 100
    ∷ read_call 100
    ∷ []

hands_out : (run_calls encode polls ([], stream)).0 ≡ bytes "rawmore"
unfolding run_calls
hands_out = refl

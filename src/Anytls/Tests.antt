-- ===== src/Anytls/Tests.antt =====
-- Runs of src/anytls.rs at concrete inputs, and the theorems at such inputs.
use zc.Prelude.{
  ℕ, ◌+◌, ◌≤◌, ◌≡◌, refl, false, none, some, List, [], ◌∷◌, ◌++◌, length, flat, All, Result, ok,
  err, Poll, ready, arith,
}
use zc.Prelude.Text.{Text, bytes}
use zc.Anytls.Io.{IoError, wrote, flushed, flush_waits, bytes_read, ReadEvent}
use zc.Anytls.Frame.{Frame, encode, encode_all, read_frame, read_frame-encode}
use zc.Anytls.Padding.{Padding, size, check, Draws, parse, packets, auth_size}
use zc.Anytls.Padding.Valid.{IsPadding, parse-IsPadding}
use zc.Anytls.Padding.Sizes.{IsPacket, packets_bounded, auth_size-le}
use zc.Anytls.Padding.Lossless.{wastes, packets_lossless}
use zc.Anytls.Session.{Session, Transport}
use zc.Anytls.Polls.{open_session, poll_read, poll_write, shutdown_write, auth_message}
use zc.Anytls.Outgoing.{IsSession, Owes}
use zc.Anytls.Outgoing.Accept.{WriteSpec, poll_write-WriteSpec}
use zc.Anytls.Outgoing.Close.{CloseSpec, shutdown_write-CloseSpec}
use zc.Anytls.Outgoing.Open.{announced, open_session-Owes}

-- The hash functions of other crates, replaced by short ones.
abbrev digest : Text → Text
digest text = bytes "d1"

abbrev scheme : Text
scheme = bytes "stop=3\n0=4-4\n1=3-5,c,9-9"

abbrev padding : Padding
padding = record {
  md5 = bytes "d1";
  stop = 3;
  groups = (1, size 3 5 ∷ check ∷ size 9 9 ∷ []) ∷ (0, size 4 4 ∷ []) ∷ [];
}

parse-scheme : parse digest scheme ≡ ok padding
unfolding parse
parse-scheme = refl

-- `DEFAULT`, the scheme that a session starts with.
abbrev default_scheme : Text
default_scheme =
    bytes
      "stop=8\n0=30-30\n1=100-400\n2=400-500,c,500-1000,c,500-1000,c,500-1000,c,500-1000\n3=9-9,500-1000\n4=500-1000\n5=500-1000\n6=500-1000\n7=500-1000"

abbrev IsAccepted : Result IoError Padding → Type 0
IsAccepted (ok p) = Unit
IsAccepted (err e) = ⊥

default-IsAccepted : IsAccepted (parse digest default_scheme)
unfolding parse
default-IsAccepted = tt

padding-IsPadding : IsPadding padding
padding-IsPadding = parse-IsPadding digest scheme padding parse-scheme

parse-IsPadding_example : IsPadding padding
unfolding parse
parse-IsPadding_example = parse-IsPadding digest scheme padding refl

abbrev draws : Draws
draws = some 7 ∷ some 8 ∷ []

-- 7 is drawn as 3 + 7 % 2; the rest of the data is one packet, filled up to 9 bytes.
abbrev two_packets : List Text
two_packets = (1 ∷ 2 ∷ 3 ∷ 4 ∷ []) ∷ (5 ∷ 0 ∷ 0 ∷ 0 ∷ 0 ∷ 0 ∷ 0 ∷ 1 ∷ 0 ∷ []) ∷ []

packets_two : packets padding 1 (1 ∷ 2 ∷ 3 ∷ 4 ∷ 5 ∷ []) draws ≡ ok (two_packets, some 8 ∷ [])
unfolding packets
packets_two = refl

packets_bounded_example : All IsPacket two_packets × (length two_packets ≤ 17)
packets_bounded_example =
    packets_bounded padding 1 (1 ∷ 2 ∷ 3 ∷ 4 ∷ 5 ∷ []) draws (some 8 ∷ []) two_packets
      padding-IsPadding packets_two

packets_lossless_example :
    (ns : List ℕ) × (flat two_packets ≡ (1 ∷ 2 ∷ 3 ∷ 4 ∷ 5 ∷ []) ++ wastes ns)
packets_lossless_example =
    packets_lossless padding 1 (1 ∷ 2 ∷ 3 ∷ 4 ∷ 5 ∷ []) draws (some 8 ∷ []) two_packets packets_two

auth_size_four : auth_size padding draws ≡ ok (4, draws)
unfolding auth_size
auth_size_four = refl

auth_size-le_example : 4 + 34 ≤ 4096
auth_size-le_example = auth_size-le padding draws draws 4 padding-IsPadding auth_size_four

abbrev settings : Frame
settings = record { cmd = 4; id = 0; body = 118 ∷ 61 ∷ 50 ∷ [] }

read_frame-encode_example : read_frame (encode settings ++ (9 ∷ [])) ≡ some (settings, 9 ∷ [])
read_frame-encode_example =
    read_frame-encode settings (9 ∷ [])
      (record { cmd_byte = omega arith; id_word = omega arith; body_fits = omega arith })

-- A transport that takes what it is given piece by piece and has a heartbeat and data to give.
abbrev chunks : List ReadEvent
chunks =
    bytes_read (10 ∷ 0 ∷ 0 ∷ 0 ∷ 0 ∷ 0 ∷ [])
    ∷ bytes_read (3 ∷ [])
    ∷ bytes_read (bytes "v=2")
    ∷ bytes_read (8 ∷ 0 ∷ 0 ∷ 0 ∷ 5 ∷ 0 ∷ 0 ∷ [])
    ∷ bytes_read (2 ∷ 0 ∷ 0 ∷ 0 ∷ 1 ∷ 0 ∷ 2 ∷ [])
    ∷ bytes_read (104 ∷ [])
    ∷ bytes_read (105 ∷ [])
    ∷ []

abbrev transport : Transport
transport = record {
  writes = wrote 50 ∷ wrote 200 ∷ wrote 1000 ∷ wrote 1000 ∷ wrote 1000 ∷ [];
  flushes = flushed ∷ flush_waits ∷ flushed ∷ flushed ∷ [];
  shutdowns = flushed ∷ [];
  reads = chunks;
  draws = draws;
  sent = [];
  received = [];
}

abbrev password : Text
password = bytes "secret"

abbrev address : Text
address = 1 ∷ 127 ∷ 0 ∷ 0 ∷ 1 ∷ 0 ∷ 80 ∷ []

abbrev blank : Session
blank = record {
  transport = transport;
  alive = false;
  padding = padding;
  shared = padding;
  group = 2;
  outgoing = [];
  written = 0;
  hearts = [];
  reply_pending = false;
  header = [];
  body_len = 0;
  body = [];
  delivered = 0;
  data_ready = false;
  v2 = false;
  acknowledged = false;
  fin_queued = false;
  write_closed = false;
  peer_closed = false;
  closing = false;
  close_drained = 0;
  failure = none;
  whole_closed = false;
}

abbrev session_of : Result IoError Session → Session
session_of (ok s) = s
session_of (err e) = blank

abbrev opened : Session
opened =
    session_of (open_session digest (bytes "1.1.0") password address padding 8 (ok tt) transport)

opened_lem :
    open_session digest (bytes "1.1.0") password address padding 8 (ok tt) transport ≡ ok opened
unfolding open_session
opened_lem = refl

open_session-Owes_example :
    IsSession opened
    × ((n : ℕ) × Owes
          (auth_message digest password n)
          (announced (bytes "1.1.0") padding address)
          opened
        × (8 ≡ length (auth_message digest password n)))
open_session-Owes_example =
    open_session-Owes digest (bytes "1.1.0") password address padding 8 (ok tt) transport opened
      padding-IsPadding opened_lem

abbrev base : Text
base = auth_message digest password 4

abbrev first : List Frame
first = announced (bytes "1.1.0") padding address

opened-IsSession : IsSession opened
opened-IsSession =
    (open_session-Owes digest (bytes "1.1.0") password address padding 8 (ok tt) transport opened
      padding-IsPadding opened_lem).0

opened-Owes : Owes base first opened
unfolding open_session encode_all encode
opened-Owes = (first, refl, refl)

-- The first write drains the opening frames: 50 bytes and then the rest, and takes the data.
abbrev after_write : Poll (Result IoError ℕ) × Session
after_write = poll_write (bytes "hello") opened

write_accepts : after_write.0 ≡ ready (ok 5)
unfolding poll_write open_session
write_accepts = refl

poll_write-WriteSpec_example :
    WriteSpec base first (bytes "hello") (poll_write (bytes "hello") opened)
poll_write-WriteSpec_example =
    poll_write-WriteSpec base first (bytes "hello") opened opened-IsSession opened-Owes

shutdown_write-CloseSpec_example : CloseSpec base first (shutdown_write opened)
shutdown_write-CloseSpec_example =
    shutdown_write-CloseSpec base first opened opened-IsSession (unfold open_session in refl)
      (unfold open_session encode_all encode in (first, refl, refl))

-- Settings, a heartbeat and two bytes of data, in seven chunks.
read_delivers : (poll_read digest 10 opened).0 ≡ ready (ok (bytes "hi"))
unfolding poll_read open_session
read_delivers = refl

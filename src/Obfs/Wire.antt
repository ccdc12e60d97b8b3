-- ===== src/Obfs/Wire.antt =====
-- What src/simple_obfs.rs puts on the wire: the envelope once, and the accepted bytes behind it.
use zc.Prelude.{
  ℕ, ◌≤◌, ◌≡◌, min, not, ◌||◌, Option, none, some, List, [], ◌++◌, length, take, drop, is_empty,
  if◌then◌else◌, ok, err, pending, ready,
}
use zc.Prelude.Text.{Text}
use zc.Obfs.{Stream, Polled, request, first_write_limit}

-- All bytes that were sent or are owed.
abbrev pub wire : Stream → Text
wire s = s.transport.sent ++ drop s.written s.unsent

abbrev pub IsWriter : Stream → Type 0
IsWriter s = s.written ≤ length s.unsent

-- The fields that decide about an envelope.
abbrev Kept : Stream → Stream → Type 0
Kept s s' = (s'.started ≡ s.started) × (s'.host ≡ s.host) × (s'.port ≡ s.port)

-- `drain` sends what is owed, and ends with nothing owed.
abbrev Drained : Text → Stream → Polled (Unit {0}) → Type 0
Drained total s (pending, s') = (wire s' ≡ total) × IsWriter s' × Kept s s'
Drained total s (ready (err e), s') = (wire s' ≡ total) × IsWriter s' × Kept s s'
Drained total s (ready (ok u), s') =
    (s'.transport.sent ≡ total) × (s'.unsent ≡ []) × (s'.written ≡ 0) × Kept s s'

-- The request, when the accepted bytes are the first.
abbrev pub envelope : (List ℕ → Text) → Option (List ℕ) → Stream → Text → Text
envelope encode none s text = []
envelope encode (some random) s text =
    if s.started
    then []
    else if is_empty text
    then []
    else request encode s.host s.port random (min (length text) first_write_limit)

abbrev pub WireSpec : (List ℕ → Text) → Option (List ℕ) → Text → Stream → Polled ℕ → Type 0
WireSpec encode random text s (pending, s') = (wire s' ≡ wire s) × IsWriter s' × Kept s s'
WireSpec encode random text s (ready (err e), s') = (wire s' ≡ wire s) × IsWriter s' × Kept s s'
WireSpec encode random text s (ready (ok n), s') =
    (wire s' ≡ wire s ++ (envelope encode random s text ++ take n text))
    × (n ≤ length text)
    × IsWriter s'
    × (s'.started ≡ (s.started || not (is_empty text)))
    × (s'.host ≡ s.host)
    × (s'.port ≡ s.port)

abbrev IsSent : Stream → Stream → Type 0
IsSent s s' = (s'.transport.sent ≡ wire s) × (s'.unsent ≡ []) × (s'.written ≡ 0) × Kept s s'

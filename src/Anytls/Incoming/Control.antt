-- ===== src/Anytls/Incoming/Control.antt =====
-- `control` and `receive` of src/anytls.rs.
use zc.Prelude.{ℕ, ◌≤◌, ◌≡◌, true, false, List, ◌++◌, map, ◌==◌, Result, ok, err}
use zc.Prelude.Text.{Text}
use zc.Anytls.Io.{IoError}
use zc.Anytls.Frame.{Frame, header_cmd}
use zc.Anytls.Padding.{Padding, max_stop}
use zc.Anytls.Padding.Valid.{IsPadding}
use zc.Anytls.Session.{Session}
use zc.Anytls.Outgoing.{IsSession, reply, Owes}
use zc.Anytls.Outgoing.Drain.{untouched}
use zc.Anytls.Incoming.{Incoming}
use zc.Anytls.Incoming.Grow.{Announces}

-- What is left to prove a session valid after it ends.
record Parts (s : Session) : Type 0 where
  padding : IsPadding s.padding
  shared : IsPadding s.shared
  group : s.group ≤ max_stop

-- What a whole frame does to a session that keeps its invariant.
data Controlled (s : Session) : Result IoError (Unit {0}) × Session → Type 0 where
  refused : (e : IoError) (s' : Session) → Parts s' → Controlled s (err e, s')
  taken :
      (s' : Session)
      → IsSession s'
      → ((base : Text) (fs : List Frame)
          → (ids : List ℕ) × Owes base (fs ++ map reply ids) s
          → s'.alive ≡ true
          → (ids : List ℕ) × Owes base (fs ++ map reply ids) s')
      → (untouched s').0 ≡ (
        s.transport.reads, s.transport.received, s.header, s.body_len, s.body, s.delivered,
        s'.data_ready,
      )
      → Announces s.header s.body s'.data_ready
      → Controlled s (ok tt, s')

module _ (digest : Text → Text) (s : Session) (live : s.alive ≡ true) (v : IsSession s)
    (no_data : s.data_ready ≡ false) where
  Other : Type 0
  Other = (header_cmd s.header == 2) ≡ false

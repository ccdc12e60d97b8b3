-- ===== src/Anytls/Incoming/Loop.antt =====
-- The loop of `receive` in src/anytls.rs.
use zc.Prelude.{
  drop-length-append, ℕ, ◌≤◌, ◌<◌, ◌≡◌, refl, sym, ap, subst, ◌∙◌, true, false, List, [], ◌++◌, map,
  length, drop, flat, leb, if◌then◌else◌, arith, Bool-cases, leb→le, inl, inr, ok, err, pending,
  ready,
}
use zc.Prelude.Text.{Text}
use zc.Anytls.Io.{ReadEvent, io_error, unexpected_eof, invalid}
use zc.Anytls.Frame.{Frame, header_len}
use zc.Anytls.Session.{Session, Transport, Polled, failed, drain}
use zc.Anytls.Receive.{
  read_into, Filled, Fill, full, waits, cut_off, broken, validate_header, after_fill, advance,
  header_loop, body_loop, after_drain, reply_first,
}
use zc.Anytls.Outgoing.{IsSession, reply, Owes}
use zc.Anytls.Outgoing.Drain
use zc.Anytls.Outgoing.Drain.{
  Untouched, untouched, Drained, drain-Drained, fail-IsSession, finish-IsSession,
}
use zc.Anytls.Incoming.{Incoming, Fills, read_into-Fills}
use zc.Anytls.Incoming.Grow.{grow-header, full-header, grow-body}

module _ (base : Text) (fs : List Frame) (start : Text) where
  -- The invariant of both sides, when the reader has got `out`.
  pub record Reading (out : Text) (s : Session) : Type 0 where
    pub valid : IsSession s
    pub owes : s.alive ≡ true → (ids : List ℕ) × Owes base (fs ++ map reply ids) s
    pub incoming : Incoming start out (untouched s).0

  -- What a read promises, by its answer.
  abbrev pub ReadSpec : Text → Polled Text → Type 0
  ReadSpec out (pending, s) = Reading out s
  ReadSpec out (ready (err e), s) = IsSession s
  ReadSpec out (ready (ok text), s) = Reading (out ++ text) s

  -- Between the steps of one round.
  pub record Live (out : Text) (s : Session) : Type 0 where
    pub reading : Reading out s
    pub alive : s.alive ≡ true
    pub no_data : s.data_ready ≡ false

  after_drain-ReadSpec :
      (out : Text) (s : Session) (ids : List ℕ) (r : Polled (Unit {0})) (k : Session → Polled Text)
      → Live out s
      → Drained base (fs ++ map reply ids) s r
      → ((s' : Session) → Live out s' → ReadSpec out (k s'))
      → ReadSpec out (after_drain r k)
  unfolding after_drain
  after_drain-ReadSpec out s ids r k h (Drain.broken e s' v) next = v
  after_drain-ReadSpec out s ids r k h (Drain.waits s' v u o) next = next s' (record {
    reading = record {
      valid = v;
      owes = λ _. (ids, o);
      incoming = subst (λ (t : Untouched). Incoming start out t.0) (sym u) h.reading.incoming;
    };
    alive = ap (λ (t : Untouched). t.1.0) u ∙ h.alive;
    no_data = ap (λ (t : Untouched). t.0.6) u ∙ h.no_data;
  })
  after_drain-ReadSpec out s ids r k h (Drain.done s' v u o q z e) next =
      next (record s' { reply_pending = false })
        (record {
          reading = record {
            valid = record {
              position = v.position;
              packets = v.packets;
              hearts = v.hearts;
              padding = v.padding;
              shared = v.shared;
              group = v.group;
              dead = v.dead;
            };
            owes = λ _. (ids, o);
            incoming = subst (λ (t : Untouched). Incoming start out t.0) (sym u) h.reading.incoming;
          };
          alive = ap (λ (t : Untouched). t.1.0) u ∙ h.alive;
          no_data = ap (λ (t : Untouched). t.0.6) u ∙ h.no_data;
        })

  pub reply_first-ReadSpec :
      (out : Text) (s : Session) (k : Session → Polled Text)
      → Live out s
      → ((s' : Session) → Live out s' → ReadSpec out (k s'))
      → ReadSpec out (reply_first s k)
  unfolding reply_first
  reply_first-ReadSpec out s k h next = elim (Bool-cases s.reply_pending) [
    | inl waiting ↦
        let (ids, o) = h.reading.owes h.alive in
        simp waiting (
          after_drain-ReadSpec out s ids (drain s) k h
            (drain-Drained base _ s h.alive h.reading.valid o) next)
    | inr none_waits ↦ simp none_waits (next s h)
  ]

  -- A session whose frame is being read, with the read fields replaced.
  moved :
      (out : Text) (s : Session) (t : Transport) (header : Text) (len : ℕ) (body : Text) (n : ℕ)
      → Live out s
      → t.sent ≡ s.transport.sent
      → Incoming start out (t.reads, t.received, header, len, body, n, s.data_ready)
      → Live out
          (record s { transport = t; header = header; body_len = len; body = body; delivered = n })
  moved out s t header len body n h sent_same inc = record {
    reading = record {
      valid = record {
        position = h.reading.valid.position;
        packets = h.reading.valid.packets;
        hearts = h.reading.valid.hearts;
        padding = h.reading.valid.padding;
        shared = h.reading.valid.shared;
        group = h.reading.valid.group;
        dead = h.reading.valid.dead;
      };
      owes = λ a.
          let (ids, o) = h.reading.owes a in
          (ids, (o.0, ap (λ b. b ++ drop s.written (flat s.outgoing)) sent_same ∙ o.1, o.2));
      incoming = inc;
    };
    alive = h.alive;
    no_data = h.no_data;
  }

  fields_no_data :
      (out : Text) (s : Session)
      → Live out s
      → Incoming start out (
        s.transport.reads, s.transport.received, s.header, s.body_len, s.body, s.delivered, false,
      )
  fields_no_data out s h =
      subst
        (λ b.
          Incoming start out
            (s.transport.reads, s.transport.received, s.header, s.body_len, s.body, s.delivered, b))
        h.no_data h.reading.incoming

  with_data :
      (out : Text) (s : Session) {reads : List ReadEvent} {received header : Text} {len : ℕ}
      {body : Text} {n : ℕ}
      → Live out s
      → Incoming start out (reads, received, header, len, body, n, false)
      → Incoming start out (reads, received, header, len, body, n, s.data_ready)
  with_data out s {reads} {received} {header} {len} {body} {n} h inc =
      subst (λ b. Incoming start out (reads, received, header, len, body, n, b)) (sym h.no_data) inc

  abbrev header_state : Session → Filled → Session
  unfolding advance
  header_state s r = record s {
    transport = advance s.transport r.events (drop (length s.header) r.have);
    header = r.have;
  }

  -- The header is read: up to seven bytes.
  header_filled :
      (out : Text) (s : Session) (k : Session → Polled Text) (r : Filled)
      → Live out s
      → length s.header < 7
      → Fills 7 s.header r
      → ((s' : Session) → Live out s' → length s'.header ≡ 7 → ReadSpec out (k s'))
      → (st : Fill) → r.status ≡ st
      → ReadSpec out (
          after_fill st
            (record s {
              transport = advance s.transport r.events (drop (length s.header) r.have);
              header = r.have;
            })
            λ s''.
              if validate_header s''
              then k (record s'' { body_len = header_len s''.header; body = []; delivered = 0 })
              else failed invalid s'')
  unfolding after_fill advance failed
  header_filled out s k r h short f next cut_off e =
      let v = h.reading.valid in
      fail-IsSession (io_error unexpected_eof) (header_state s r) v.padding v.shared v.group
  header_filled out s k r h short f next (broken x) e =
      let v = h.reading.valid in
      fail-IsSession (io_error x) (header_state s r) v.padding v.shared v.group
  header_filled out s k r h short f next waits e =
      (moved out s (header_state s r).transport r.have s.body_len s.body s.delivered h refl (
        with_data out s h (
          rw (f.grown, drop-length-append)
            (grow-header start out s.transport.reads r.events s.transport.received s.header
              s.body_len s.body s.delivered (fields_no_data out s h) f.got
              (subst (λ t. length t < 7) f.grown (f.unfinished e)) short)))).reading
  header_filled out s k r h short f next full e =
      elim (Bool-cases (validate_header (header_state s r))) [
        | inr bad ↦
            let v = h.reading.valid in
            simp bad (fail-IsSession invalid (header_state s r) v.padding v.shared v.group)
        | inl good ↦ simp good (
            next _
              (moved out s (header_state s r).transport r.have (header_len r.have) [] 0 h refl (
                with_data out s h (
                  rw (f.grown, drop-length-append)
                    (full-header start out s.transport.reads r.events s.transport.received s.header
                      s.body_len s.body s.delivered (fields_no_data out s h) f.got
                      (subst (λ t. length t ≡ 7) f.grown (f.complete e)) short))))
              (f.complete e))
      ]

  pub header_loop-ReadSpec :
      (out : Text) (s : Session) (k : Session → Polled Text)
      → Live out s
      → ((s' : Session) → Live out s' → length s'.header ≡ 7 → ReadSpec out (k s'))
      → ReadSpec out (header_loop s k)
  unfolding header_loop
  header_loop-ReadSpec out s k h next = elim (Bool-cases (leb 7 (length s.header))) [
    | inl whole ↦
        simp whole (
          next s h
            (omega (arith, leb→le 7 (length s.header) whole, h.reading.incoming.header_fits)))
    | inr part ↦ simp part (
        let r = read_into s.transport.reads 7 s.header in
        header_filled out s k r h (ground arith)
          (read_into-Fills s.transport.reads 7 s.header (ground arith)) next r.status refl)
  ]

  -- The body is read, up to its length.
  abbrev body_state : Session → Filled → Session
  unfolding advance
  body_state s r = record s {
    transport = advance s.transport r.events (drop (length s.body) r.have);
    body = r.have;
  }

  body_grown :
      (out : Text) (s : Session) (r : Filled)
      → Live out s
      → length s.header ≡ 7
      → Fills s.body_len s.body r
      → Live out (body_state s r)
  unfolding advance
  body_grown out s r h seven f =
      moved out s (body_state s r).transport s.header s.body_len r.have s.delivered h refl (
        with_data out s h (
          rw (f.grown, drop-length-append)
            (grow-body start out s.transport.reads r.events s.transport.received s.header s.body_len
              s.body s.delivered (fields_no_data out s h) f.got seven
              (subst (λ t. length t ≤ s.body_len) f.grown f.fits))))

  body_filled :
      (out : Text) (s : Session) (k : Session → Polled Text) (r : Filled)
      → Live out s
      → length s.header ≡ 7
      → Fills s.body_len s.body r
      → ((s' : Session)
          → Live out s'
          → length s'.header ≡ 7
          → length s'.body ≡ s'.body_len
          → ReadSpec out (k s'))
      → (st : Fill) → r.status ≡ st
      → ReadSpec out (after_fill st (body_state s r) k)
  unfolding after_fill advance failed
  body_filled out s k r h seven f next cut_off e =
      let v = h.reading.valid in
      fail-IsSession (io_error unexpected_eof) (body_state s r) v.padding v.shared v.group
  body_filled out s k r h seven f next (broken x) e =
      let v = h.reading.valid in
      fail-IsSession (io_error x) (body_state s r) v.padding v.shared v.group
  body_filled out s k r h seven f next waits e = (body_grown out s r h seven f).reading
  body_filled out s k r h seven f next full e =
      next (body_state s r) (body_grown out s r h seven f) seven (f.complete e)

  pub body_loop-ReadSpec :
      (out : Text) (s : Session) (k : Session → Polled Text)
      → Live out s
      → length s.header ≡ 7
      → ((s' : Session)
          → Live out s'
          → length s'.header ≡ 7
          → length s'.body ≡ s'.body_len
          → ReadSpec out (k s'))
      → ReadSpec out (body_loop s k)
  unfolding body_loop
  body_loop-ReadSpec out s k h seven next =
      let r = read_into s.transport.reads s.body_len s.body in
      body_filled out s k r h seven
        (read_into-Fills s.transport.reads s.body_len s.body
          (h.reading.incoming.body_length seven).1)
        next r.status refl

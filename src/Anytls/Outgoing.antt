-- ===== src/Anytls/Outgoing.antt =====
-- The write side of src/anytls.rs: what the transport is given, frame by frame.
pub mod Drain
pub mod Accept
pub mod Close
pub mod Open
use zc.Prelude.{
  ℕ, zero, suc, ◌+◌, ◌-◌, ◌≤◌, ◌<◌, min, ◌≡◌, refl, sym, ap, ◌∙◌, Bool, true, false, Option, none,
  some, List, [], ◌∷◌, ◌++◌, append_assoc, append-nil, map, length, take, drop, is_empty, flat, All,
  leb, ltb, ◌==◌, if◌then◌else◌, Result, ok, err, Poll, pending, ready, arith, Bool-cases, inl, inr,
  take-append-drop, length-append,
}
use zc.Prelude.Text.{Text}
use zc.Anytls.Io.{ErrorKind, IoError, WriteEvent, wrote, write_failed, write_waits, FlushEvent}
use zc.Anytls.Frame.{
  Frame, encode, encode_all, encode_all-append, append_frame, append_frame-encode, waste,
}
use zc.Anytls.Padding.{Padding, Draws, packets, max_stop}
use zc.Anytls.Padding.Valid.{IsPadding}
use zc.Anytls.Padding.Sizes.{IsPacket, packets_bounded}
use zc.Anytls.Padding.Lossless.{wastes, packets_lossless}
use zc.Anytls.Session.{
  Session, Transport, Polled, finish, fail, failed, queue, write_loop, write_out, flush_transport,
  ready_try, drain, max_hearts,
}
use zc.Anytls.Session

-- How far the first packet is written: never to its end.
abbrev pub Position : List Text → ℕ → Type 0
Position [] w = w ≡ 0
Position (p ∷ ps) w = w < length p

-- What a session keeps between polls.
pub record IsSession (s : Session) : Type 0 where
  pub position : s.alive ≡ true → Position s.outgoing s.written
  pub packets : All IsPacket s.outgoing
  pub hearts : length s.hearts ≤ max_hearts
  pub padding : IsPadding s.padding
  pub shared : IsPadding s.shared
  pub group : s.group ≤ max_stop
  pub dead : s.alive ≡ false → (s.outgoing ≡ []) × (s.hearts ≡ [])

-- It does not depend on what the transport will answer, nor on the marks of a close.
pub kept-IsSession :
    (s : Session) (t : Transport) (fin done : Bool)
    → IsSession s
    → IsSession (record s { transport = t; fin_queued = fin; write_closed = done })
kept-IsSession s t fin done v = record {
  position = v.position;
  packets = v.packets;
  hearts = v.hearts;
  padding = v.padding;
  shared = v.shared;
  group = v.group;
  dead = v.dead;
}

-- What the transport has, and what is queued behind it.
abbrev pub stream : Session → Text
stream s = s.transport.sent ++ drop s.written (flat s.outgoing)

-- The reply to a heartbeat.
abbrev pub reply : ℕ → Frame
reply id = record { cmd = 9; id = id; body = [] }

-- The frames that are no padding.
abbrev pub payload : List Frame → List Frame
payload [] = []
payload (f ∷ fs) = if f.cmd == 0 then payload fs else f ∷ payload fs

pub payload-append : (fs gs : List Frame) → payload (fs ++ gs) ≡ payload fs ++ payload gs
payload-append [] gs = refl
payload-append (f ∷ fs) gs = elim (Bool-cases (f.cmd == 0)) [
  | inl pad ↦ rw (pad, payload-append fs gs)
  | inr kept ↦ rw (kept, payload-append fs gs)
]

pub payload-wastes : (ns : List ℕ) → payload (map waste ns) ≡ []
payload-wastes [] = refl
payload-wastes (n ∷ ns) = payload-wastes ns

-- Behind `base` the session's bytes are whole frames; without the padding these are `fs`, but for the
-- heartbeat replies that are still to be queued.
abbrev pub Owes : Text → List Frame → Session → Type 0
Owes base fs s =
    (gs : List Frame) × (stream s ≡ base ++ encode_all gs) × (payload gs ++ map reply s.hearts ≡ fs)

drop-append :
    {A : Type 0} (n : ℕ) (xs ys : List A) → n ≤ length xs → drop n (xs ++ ys) ≡ drop n xs ++ ys
drop-append zero xs ys h = refl
drop-append (suc n) [] ys h = absurd (omega arith)
drop-append (suc n) (x ∷ xs) ys h = drop-append n xs ys (omega arith)

drop-all : {A : Type 0} (n : ℕ) (xs ys : List A) → n ≡ length xs → drop n (xs ++ ys) ≡ ys
drop-all zero [] ys h = refl
drop-all zero (x ∷ xs) ys h = absurd (omega arith)
drop-all (suc n) [] ys h = absurd (omega arith)
drop-all (suc n) (x ∷ xs) ys h = drop-all n xs ys (omega arith)

pub drop-nil : {A : Type 0} (n : ℕ) → drop {A = A} n [] ≡ []
drop-nil zero = refl
drop-nil (suc n) = refl

pub drop-drop : {A : Type 0} (m n : ℕ) (xs : List A) → drop m (drop n xs) ≡ drop (n + m) xs
drop-drop m zero xs = ap (λ k. drop k xs) (omega arith)
drop-drop m (suc n) [] = drop-nil m ∙ sym (drop-nil (suc n + m))
drop-drop m (suc n) (x ∷ xs) =
    let e : suc n + m ≡ suc (n + m) = omega arith in rw e (drop-drop m n xs)

-- Writing `count` bytes of the first packet moves them from the queue to the transport.
move_bytes :
    (count w : ℕ) (p rest sent : Text)
    → w + count ≤ length p
    → (sent ++ take count (drop w p)) ++ drop (w + count) (p ++ rest) ≡ sent ++ drop w (p ++ rest)
move_bytes count w p rest sent h =
    rw (drop-append (w + count) p rest h, drop-append w p rest (omega arith), ← drop-drop count w p)
      (append_assoc sent (take count (drop w p)) (drop count (drop w p) ++ rest)
        ∙ ap (λ t. sent ++ t)
            (sym (append_assoc (take count (drop w p)) (drop count (drop w p)) rest)
              ∙ ap (λ t. t ++ rest) (take-append-drop count (drop w p))))

pub start-Position : (ps : List Text) → All IsPacket ps → Position ps 0
start-Position [] h = refl
start-Position (p ∷ ps) h = h.0

-- What the writing of the queue leads to.
pub data Wrote (s : Session) (total : Text) : Polled (Unit {0}) → Type 0 where
  waiting :
      (events : List WriteEvent) (p : Text) (ps : List Text) (w : ℕ) (sent : Text)
      → w < length p
      → All IsPacket (p ∷ ps)
      → sent ++ drop w (flat (p ∷ ps)) ≡ total
      → Wrote s total (
        pending,
        record s {
          transport = record s.transport { writes = events; sent = sent };
          outgoing = p ∷ ps;
          written = w;
        },
      )
  emptied :
      (events : List WriteEvent) (w : ℕ) (sent : Text)
      → w ≡ 0
      → sent ≡ total
      → Wrote s total (
        ready (ok tt),
        record s {
          transport = record s.transport { writes = events; sent = sent };
          outgoing = [];
          written = w;
        },
      )
  broke :
      (e k : IoError) (t : Transport) (ps : List Text) (w : ℕ)
      → Wrote s total
          (ready (err e), fail k (record s { transport = t; outgoing = ps; written = w }))

pub write_loop-Wrote :
    (events : List WriteEvent) (ps : List Text) (w : ℕ) (sent : Text) (s : Session) (total : Text)
    → Position ps w
    → All IsPacket ps
    → sent ++ drop w (flat ps) ≡ total
    → Wrote s total (write_loop events ps w sent s)
unfolding write_loop failed
write_loop-Wrote events [] w sent s total pos ok_ps e =
    emptied events w sent pos (sym (append-nil sent) ∙ ap (λ t. sent ++ t) (sym (drop-nil w)) ∙ e)
write_loop-Wrote [] (p ∷ ps) w sent s total pos ok_ps e = waiting [] p ps w sent pos ok_ps e
write_loop-Wrote (write_waits ∷ events) (p ∷ ps) w sent s total pos ok_ps e =
    waiting events p ps w sent pos ok_ps e
write_loop-Wrote (write_failed k ∷ events) (p ∷ ps) w sent s total pos ok_ps e = broke _ _ _ _ _
write_loop-Wrote (wrote n ∷ events) (p ∷ ps) w sent s total pos ok_ps e =
    let count = min n (length p - w) in
    let moved_on = move_bytes count w p (flat ps) sent (omega arith) ∙ e in
    elim (Bool-cases (count == 0)) [
      | inl stopped ↦ rw stopped (broke _ _ _ _ _)
      | inr moved ↦ rw moved (elim (Bool-cases (w + count == length p)) [
        | inl full ↦ rw full (
            write_loop-Wrote events ps 0 (sent ++ take count (drop w p)) s total
              (start-Position ps ok_ps.1) ok_ps.1
              (ap (λ t. (sent ++ take count (drop w p)) ++ t)
                  (sym (drop-all (w + count) p (flat ps) (ground arith)))
                ∙ moved_on))
        | inr part ↦ rw part (
            write_loop-Wrote events (p ∷ ps) (w + count) (sent ++ take count (drop w p)) s total
              (ground arith) ok_ps moved_on)
      ])
    ]

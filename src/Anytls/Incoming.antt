-- ===== src/Anytls/Incoming.antt =====
-- The read side of src/anytls.rs: what the reader is handed of what the transport gave.
pub mod Grow
pub mod Loop
pub mod Control
use zc.Prelude.{
  take-length-append, drop-length-append, ℕ, zero, suc, ◌+◌, ◌-◌, ◌≤◌, ◌<◌, min, ◌≡◌, refl, sym, ap,
  ◌∙◌, Bool, true, false, Option, none, some, List, [], ◌∷◌, ◌++◌, append_assoc, append-nil, map,
  length, take, drop, is_empty, flat, All, All-append, leb, ltb, ◌==◌, if◌then◌else◌, arith,
  Bool-cases, inl, inr, length-append, length-take, take-append-drop, flat-append,
}
use zc.Prelude.Text.{Text}
use zc.Anytls.Io.{ReadEvent, bytes_read, read_failed, read_waits}
use zc.Anytls.Frame.{header_len, header_cmd}
use zc.Anytls.Receive.{read_into, Filled, Fill, full, waits}

-- A received frame as it came: seven header bytes, and as many more as they say.
abbrev pub Raw : Type 0
Raw = Text × Text

abbrev pub IsRaw : Raw → Type 0
IsRaw (header, body) = (length header ≡ 7) × (length body ≡ header_len header)

abbrev pub raw_bytes : List Raw → Text
raw_bytes [] = []
raw_bytes ((header, body) ∷ fs) = header ++ body ++ raw_bytes fs

-- What the data frames (command 2) carry.
abbrev pub data_bytes : List Raw → Text
data_bytes [] = []
data_bytes ((header, body) ∷ fs) =
    if header_cmd header == 2 then body ++ data_bytes fs else data_bytes fs

-- The fields of a session that the read side works on.
abbrev pub Fields : Type 0
Fields = List ReadEvent × Text × Text × ℕ × Text × ℕ × Bool

-- What is received of the current frame, and of the last data frame not yet handed out.
abbrev pub partial : Text → Text → Text
partial header body = if leb 7 (length header) then header ++ body else header

abbrev pub undelivered : Bool → ℕ → Text → Text
undelivered data_ready delivered body = if data_ready then drop delivered body else []

-- The received bytes, from `start` on, are whole frames and a part of the next one, and the reader has got
-- `out`: all that the data frames carry, but for the rest of the last one.
pub record Incoming (start out : Text) (u : Fields) : Type 0 where
  pub frames : List Raw
  pub whole : All IsRaw frames
  pub all_received : u.1 ≡ start ++ (raw_bytes frames ++ partial u.2 u.4)
  pub all_handed : out ++ undelivered u.6 u.5 u.4 ≡ data_bytes frames
  pub header_fits : length u.2 ≤ 7
  pub body_length : length u.2 ≡ 7 → (u.3 ≡ header_len u.2) × (length u.4 ≤ u.3) × (u.5 ≡ 0)
  pub between : u.6 ≡ true → (u.2 ≡ []) × (u.5 ≤ length u.4)

pub raw_bytes-append : (fs gs : List Raw) → raw_bytes (fs ++ gs) ≡ raw_bytes fs ++ raw_bytes gs
raw_bytes-append [] gs = refl
raw_bytes-append ((h, b) ∷ fs) gs = simp (raw_bytes-append fs gs, append_assoc)

pub data_bytes-append : (fs gs : List Raw) → data_bytes (fs ++ gs) ≡ data_bytes fs ++ data_bytes gs
data_bytes-append [] gs = refl
data_bytes-append ((h, b) ∷ fs) gs = elim (Bool-cases (header_cmd h == 2)) [
  | inl carries ↦
      rw (carries, data_bytes-append fs gs) (sym (append_assoc b (data_bytes fs) (data_bytes gs)))
  | inr control ↦ rw (control, data_bytes-append fs gs)
]

-- Filling a buffer appends what came, never beyond the target, and is done at the target.
pub record Fills (target : ℕ) (before : Text) (r : Filled) : Type 0 where
  pub got : Text
  pub grown : r.have ≡ before ++ got
  pub fits : length r.have ≤ target
  pub complete : r.status ≡ full → length r.have ≡ target
  pub unfinished : r.status ≡ waits → length r.have < target

stays :
    (target : ℕ) (text : Text) (status : Fill) (events : List ReadEvent)
    → length text ≤ target
    → (status ≡ full → length text ≡ target)
    → (status ≡ waits → length text < target)
    → Fills target text (record { status = status; have = text; events = events })
stays target text status events h c u = record {
  got = [];
  grown = sym (append-nil text);
  fits = h;
  complete = c;
  unfinished = u;
}

longer :
    (target : ℕ) (before got : Text) (r : Filled)
    → Fills target (before ++ got) r
    → Fills target before r
longer target before got r f = record {
  got = got ++ f.got;
  grown = f.grown ∙ append_assoc before got f.got;
  fits = f.fits;
  complete = f.complete;
  unfinished = f.unfinished;
}

pub read_into-Fills :
    (events : List ReadEvent) (target : ℕ) (before : Text)
    → length before ≤ target
    → Fills target before (read_into events target before)
unfolding read_into
read_into-Fills [] target before h = stays target before _ _ h (ground arith) (ground arith)
read_into-Fills (read_waits ∷ events) target before h =
    elim (Bool-cases (leb target (length before))) [
      | inl at_end ↦ rw at_end (stays target before _ _ h (ground arith) (ground arith))
      | inr room ↦ rw room (stays target before _ _ h (λ e. cc) (ground arith))
    ]
read_into-Fills (read_failed k ∷ events) target before h =
    elim (Bool-cases (leb target (length before))) [
      | inl at_end ↦ rw at_end (stays target before _ _ h (ground arith) (ground arith))
      | inr room ↦ rw room (stays target before _ _ h (λ e. cc) (ground arith))
    ]
read_into-Fills (bytes_read bs ∷ events) target before h =
    let got = take (target - length before) bs in
    elim (Bool-cases (leb target (length before))) [
      | inl at_end ↦ rw at_end (stays target before _ _ h (ground arith) (ground arith))
      | inr room ↦ rw room (elim (Bool-cases (is_empty got)) [
        | inl ended ↦ rw ended (stays target before _ _ h (λ e. cc) (ground arith))
        | inr more ↦ rw more (
            longer target before got _ (
              read_into-Fills events target (before ++ got)
                (omega (arith, length-append before got, length-take (target - length before) bs))))
      ])
    ]

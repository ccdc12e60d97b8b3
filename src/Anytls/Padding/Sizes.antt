-- ===== src/Anytls/Padding/Sizes.antt =====
-- The sizes that src/anytls.rs draws, and the number and length of the packets.
use zc.Prelude.{
  ℕ, ◌+◌, ◌-◌, ◌%◌, ◌≤◌, ◌<◌, ◌≡◌, refl, none, some, List, [], ◌∷◌, ◌++◌, length, length-append,
  length-take, replicate, All, All-append, ok, Ensures, Ensures-pure, Ensures-bind, arith,
  if◌then◌else◌, ltb, ◌==◌, Bool-cases, inl, inr,
}
use zc.Prelude.Text.{Text}
use zc.Anytls.Frame.{Frame, encode, append_frame, append_frame-encode, length-encode}
use zc.Anytls.Padding.{
  PadStep, size, check, Groups, Padding, Draws, u32_max, sample, random_size, get_group, auth_size,
  first_size, cut, cut_steps, last_packet, packets, size_limit,
}
use zc.Anytls.Padding.Valid.{IsStep, IsGroup, IsPadding}

-- A drawn size lies between the bounds, and reaches the upper one only where they agree.
abbrev pub Drawn : ℕ → ℕ → ℕ × Draws → Type 0
Drawn least most (n, draws) = (least ≤ n) × (n ≤ most) × (n ≡ most → least ≡ most)

sample-Drawn :
    (least span bound : ℕ) (draws : Draws)
    → 0 < span
    → Ensures (Drawn least (least + span)) (sample least span bound draws)
unfolding sample
sample-Drawn least span bound [] h = record { holds = λ a e. cc }
sample-Drawn least span bound (none ∷ draws) h = record { holds = λ a e. cc }
sample-Drawn least span bound (some w ∷ draws) h = elim (Bool-cases (ltb w bound)) [
  | inl taken ↦ rw taken (Ensures-pure _ (least + w % span, draws) (omega arith))
  | inr again ↦ rw again (sample-Drawn least span bound draws h)
]

pub random_size-Drawn :
    (least most : ℕ) (draws : Draws)
    → least ≤ most
    → Ensures (Drawn least most) (random_size least most draws)
unfolding random_size
random_size-Drawn least most draws le = elim (Bool-cases (least == most)) [
  | inl same ↦ rw same (Ensures-pure _ (least, draws) (ground arith))
  | inr wide ↦
      let e : least + (most - least) ≡ most = omega arith in
      rw wide (
        rw e at (
          sample-Drawn least (most - least) (u32_max - u32_max % (most - least)) draws
            (ground arith)))
]

get_group-IsStep :
    (stop g : ℕ) (groups : Groups)
    → All (IsGroup stop) groups
    → All (IsStep g) (get_group g groups) × (length (get_group g groups) ≤ 16)
unfolding get_group
get_group-IsStep stop g [] h = omega arith
get_group-IsStep stop g ((k, steps) ∷ rest) (h, hs) = elim (Bool-cases (k == g)) [
  | inl same ↦ let e : k ≡ g = ground arith in rw same (rw e at h.steps, h.few_steps)
  | inr not_same ↦ rw not_same (get_group-IsStep stop g rest hs)
]

first_size-le :
    (steps : List PadStep) (draws : Draws)
    → All (IsStep 0) steps
    → Ensures (λ (r : ℕ × Draws). r.0 ≤ 4062) (first_size steps draws)
unfolding first_size size_limit
first_size-le [] draws h = Ensures-pure _ (0, draws) (omega arith)
first_size-le (check ∷ steps) draws h = absurd (h.0 refl)
first_size-le (size l m ∷ steps) draws h = record {
  holds = λ (n, ds) e.
      let d = (random_size-Drawn l m draws h.0.1).holds (n, ds) e in omega (arith, h.0.2);
}

-- With an accepted scheme the authentication padding is at most 4062 bytes, so the message of 34 bytes
-- and the padding fits 4096 bytes and its length field 16 bits.
pub auth_size-le :
    (p : Padding) (draws draws' : Draws) (n : ℕ)
    → IsPadding p
    → auth_size p draws ≡ ok (n, draws')
    → n + 34 ≤ 4096
unfolding auth_size
auth_size-le p draws draws' n valid e =
    let le =
      (first_size-le (get_group 0 p.groups) draws
          (get_group-IsStep p.stop 0 p.groups valid.groups).0).holds
        (n, draws') e in
    omega (arith, le)

abbrev pub IsPacket : Text → Type 0
IsPacket packet = 1 ≤ length packet

length-append_frame :
    (out : Text) (cmd id : ℕ) (body : Text)
    → length (append_frame out cmd id body) ≡ length out + (length body + 7)
length-append_frame out cmd id body =
    let f : Frame = record { cmd = cmd; id = id; body = body } in
    rw append_frame-encode (omega (arith, length-append out (encode f), length-encode f))

cut-IsPacket : (n : ℕ) (text : Text) → 1 ≤ n → IsPacket (cut n text).0
unfolding cut
cut-IsPacket n [] h = omega (arith, length-append_frame [] 0 0 (replicate n 0))
cut-IsPacket n (b ∷ rest) h =
    let pad : Text = replicate (n - length (b ∷ rest) - 7) 0 in
    ground (arith, length-take n (b ∷ rest), length-append_frame (b ∷ rest) 0 0 pad)

abbrev Packets : ℕ → List Text × Text × Draws → Type 0
Packets most (ps, rest, draws) = All IsPacket ps × (length ps ≤ most)

cut_steps-IsPacket :
    (group : ℕ) (steps : List PadStep) (text : Text) (draws : Draws)
    → All (IsStep group) steps
    → Ensures (Packets (length steps)) (cut_steps steps text draws)
unfolding cut_steps
cut_steps-IsPacket group [] text draws h = Ensures-pure _ ([], text, draws) (omega arith)
cut_steps-IsPacket group (check ∷ steps) [] draws h = Ensures-pure _ ([], [], draws) (omega arith)
cut_steps-IsPacket group (check ∷ steps) (b ∷ text) draws h = record {
  holds = λ r e.
      let k = (cut_steps-IsPacket group steps (b ∷ text) draws h.1).holds r e in (k.0, omega arith);
}
cut_steps-IsPacket group (size l m ∷ steps) text draws h =
    Ensures-bind _ _ (random_size-Drawn l m draws h.0.1) λ (n, ds) drawn.
      Ensures-bind _ _ (cut_steps-IsPacket group steps (cut n text).1 ds h.1) λ (ps, rest, ds') k.
        Ensures-pure _ ((cut n text).0 ∷ ps, rest, ds')
          ((cut-IsPacket n text (omega arith), k.0), omega arith)

last_packet-IsPacket :
    (text : Text) → All IsPacket (last_packet text) × (length (last_packet text) ≤ 1)
unfolding last_packet
last_packet-IsPacket [] = omega arith
last_packet-IsPacket (b ∷ text) = omega arith

chosen-IsStep :
    (p : Padding) (group : ℕ)
    → IsPadding p
    → All (IsStep group) (if ltb group p.stop then get_group group p.groups else [])
      × (length (if ltb group p.stop then get_group group p.groups else []) ≤ 16)
chosen-IsStep p group valid = elim (Bool-cases (ltb group p.stop)) [
  | inl padded ↦ rw padded (get_group-IsStep p.stop group p.groups valid.groups)
  | inr plain ↦ rw plain (omega arith)
]

pub packets-Ensures :
    (p : Padding) (group : ℕ) (text : Text) (draws : Draws)
    → IsPadding p
    → Ensures
        (λ (r : List Text × Draws). All IsPacket r.0 × (length r.0 ≤ 17))
        (packets p group text draws)
unfolding packets
packets-Ensures p group text draws valid =
    let chosen = chosen-IsStep p group valid in
    Ensures-bind _ _ (cut_steps-IsPacket group _ text draws chosen.0) λ (ps, rest, ds) h.
      let last = last_packet-IsPacket rest in
      Ensures-pure _ (ps ++ last_packet rest, ds)
        (
          All-append IsPacket ps (last_packet rest) h.0 last.0,
          omega (arith, length-append ps (last_packet rest)),
        )

-- With an accepted scheme a group of frames becomes at most 17 packets, and no packet is empty, so
-- the transport is never asked to write nothing.
pub packets_bounded :
    (p : Padding) (group : ℕ) (text : Text) (draws draws' : Draws) (ps : List Text)
    → IsPadding p
    → packets p group text draws ≡ ok (ps, draws')
    → All IsPacket ps × (length ps ≤ 17)
packets_bounded p group text draws draws' ps valid e =
    (packets-Ensures p group text draws valid).holds (ps, draws') e

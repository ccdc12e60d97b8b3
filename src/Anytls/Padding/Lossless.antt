-- ===== src/Anytls/Padding/Lossless.antt =====
-- Padding in src/anytls.rs only adds waste frames behind the data.
use zc.Prelude.{
  ℕ, ◌+◌, ◌≡◌, refl, sym, ◌∙◌, ap, List, [], ◌∷◌, ◌++◌, map, append_assoc, append-nil, length,
  take-append-drop, replicate, flat, flat-append, ok, Ensures, Ensures-pure, Ensures-bind,
  Ensures-any, if◌then◌else◌, ltb, Bool-cases, inl, inr,
}
use zc.Prelude.Text.{Text}
use zc.Anytls.Frame.{encode, encode_all, append_frame-encode, waste}
use zc.Anytls.Padding.{
  PadStep, size, check, Padding, Draws, random_size, get_group, cut, cut_steps, last_packet,
  packets,
}

-- The bytes of waste frames of the given sizes.
abbrev pub wastes : List ℕ → Text
wastes ns = encode_all (map waste ns)

-- What a packet and the rest hold together: the data, and at the data's end perhaps one waste frame.
data Cut (text packet rest : Text) : Type 0 where
  plain : packet ++ rest ≡ text → Cut text packet rest
  padded : (n : ℕ) → packet ≡ text ++ encode (waste n) → rest ≡ [] → Cut text packet rest

cut-Cut : (n : ℕ) (text : Text) → Cut text (cut n text).0 (cut n text).1
unfolding cut
cut-Cut n [] = padded n (append_frame-encode [] 0 0 (replicate n 0)) refl
cut-Cut n (b ∷ text) = elim (Bool-cases (ltb n (length (b ∷ text)))) [
  | inl long ↦ rw long (plain (take-append-drop n (b ∷ text)))
  | inr short ↦ rw short (elim (Bool-cases (ltb (length (b ∷ text) + 7) n)) [
    | inl room ↦ rw room (padded _ (append_frame-encode (b ∷ text) 0 0 _) refl)
    | inr tight ↦ rw tight (plain (append-nil (b ∷ text)))
  ])
]

abbrev Kept : Text → List Text × Text × Draws → Type 0
Kept text (ps, rest, draws) = (ns : List ℕ) × (flat ps ++ rest ≡ text ++ wastes ns)

Kept-cons :
    (text packet rest : Text) (ps : List Text) (last : Text) (draws : Draws)
    → Cut text packet rest
    → Kept rest (ps, last, draws)
    → Kept text (packet ∷ ps, last, draws)
unfolding encode_all
Kept-cons text packet rest ps last draws (plain e) (ns, k) =
    (ns, rw (append_assoc, k, ← append_assoc, e))
Kept-cons text packet rest ps last draws (padded n e none_left) (ns, k) =
    (n ∷ ns, rw (append_assoc, k, none_left, e) (append_assoc text (encode (waste n)) (wastes ns)))

cut_steps-Kept :
    (steps : List PadStep) (text : Text) (draws : Draws)
    → Ensures (Kept text) (cut_steps steps text draws)
unfolding cut_steps encode_all
cut_steps-Kept [] text draws = Ensures-pure _ ([], text, draws) ([], sym (append-nil text))
cut_steps-Kept (check ∷ steps) [] draws = Ensures-pure _ ([], [], draws) ([], refl)
cut_steps-Kept (check ∷ steps) (b ∷ text) draws = cut_steps-Kept steps (b ∷ text) draws
cut_steps-Kept (size l m ∷ steps) text draws = Ensures-any (random_size l m draws) _ λ (n, ds) _.
    Ensures-bind _ _ (cut_steps-Kept steps (cut n text).1 ds) λ (ps, rest, ds') k.
      Ensures-pure _ ((cut n text).0 ∷ ps, rest, ds')
        (Kept-cons text _ _ ps rest ds' (cut-Cut n text) k)

flat-last_packet : (ps : List Text) (rest : Text) → flat (ps ++ last_packet rest) ≡ flat ps ++ rest
unfolding last_packet
flat-last_packet ps [] = ap flat (append-nil ps) ∙ sym (append-nil (flat ps))
flat-last_packet ps (b ∷ rest) = flat-append ps _ ∙ ap (λ t. flat ps ++ t) (append-nil (b ∷ rest))

pub packets-Kept :
    (p : Padding) (group : ℕ) (text : Text) (draws : Draws)
    → Ensures
        (λ (r : List Text × Draws). (ns : List ℕ) × (flat r.0 ≡ text ++ wastes ns))
        (packets p group text draws)
unfolding packets
packets-Kept p group text draws =
    Ensures-bind _ _
      (cut_steps-Kept (if ltb group p.stop then get_group group p.groups else []) text draws)
      λ (ps, rest, ds) k.
        Ensures-pure _ (ps ++ last_packet rest, ds) (k.0, flat-last_packet ps rest ∙ k.1)

-- Whatever the scheme, the group and the random words, the packets carry the data unchanged, whole and
-- in order, and behind its last byte nothing but waste frames.
pub packets_lossless :
    (p : Padding) (group : ℕ) (text : Text) (draws draws' : Draws) (ps : List Text)
    → packets p group text draws ≡ ok (ps, draws')
    → (ns : List ℕ) × (flat ps ≡ text ++ wastes ns)
packets_lossless p group text draws draws' ps e =
    (packets-Kept p group text draws).holds (ps, draws') e

-- ===== src/Anytls/Frame.antt =====
-- The frames of src/anytls.rs: seven header bytes (command, stream id, length) and the body.
use zc.Prelude.{
  take-length-append, drop-length-append, ℕ, ◌+◌, ◌*◌, ◌/◌, ◌%◌, ◌^◌, ◌≤◌, ◌<◌, ◌≡◌, refl, true,
  Option, none, some, List, [], ◌∷◌, ◌++◌, append_assoc, arith, length, take, drop, replicate, leb,
  if◌then◌else◌, length-append,
}
use zc.Prelude.Text.{Text}

-- `MAX_FRAME`, the largest body.
abbrev pub max_frame : ℕ
max_frame = 65535

-- `u32::to_be_bytes` and `u16::to_be_bytes`
unfoldable pub be32 : ℕ → Text
be32 n = (n / 2 ^ 24 % 256) ∷ (n / 2 ^ 16 % 256) ∷ (n / 256 % 256) ∷ (n % 256) ∷ []

unfoldable pub be16 : ℕ → Text
be16 n = (n / 256 % 256) ∷ (n % 256) ∷ []

-- `append_frame(out, cmd, id, body)`; `body.len() as u16` keeps the low 16 bits.
unfoldable pub append_frame : Text → ℕ → ℕ → Text → Text
unfolding be32 be16
append_frame out cmd id body = out ++ (cmd ∷ be32 id ++ be16 (length body % 2 ^ 16) ++ body)

-- `u32::from_be_bytes(self.header[1..5])` and `u16::from_be_bytes([self.header[5], self.header[6]])`
unfoldable pub header_id : Text → ℕ
header_id (c ∷ a ∷ b ∷ d ∷ e ∷ rest) = a * 2 ^ 24 + b * 2 ^ 16 + d * 256 + e
header_id _ = 0

unfoldable pub header_len : Text → ℕ
header_len (c ∷ a ∷ b ∷ d ∷ e ∷ f ∷ g ∷ rest) = f * 256 + g
header_len _ = 0

unfoldable pub header_cmd : Text → ℕ
header_cmd [] = 0
header_cmd (c ∷ rest) = c

pub record Frame : Type 0 where
  pub cmd : ℕ
  pub id : ℕ
  pub body : Text

pub record IsFrame (f : Frame) : Type 0 where
  pub cmd_byte : f.cmd < 256
  pub id_word : f.id < 2 ^ 32
  pub body_fits : length f.body ≤ max_frame

unfoldable pub encode : Frame → Text
unfolding append_frame
encode f = append_frame [] f.cmd f.id f.body

unfoldable pub encode_all : List Frame → Text
encode_all [] = []
encode_all (f ∷ fs) = encode f ++ encode_all fs

-- An independent reader of the wire format: seven header bytes, then as many bytes as they say.
split_body : ℕ → ℕ → ℕ → Text → Option (Frame × Text)
split_body cmd id len rest =
    if leb len (length rest)
    then some (record { cmd = cmd; id = id; body = take len rest }, drop len rest)
    else none

unfoldable pub read_frame : Text → Option (Frame × Text)
unfolding split_body
read_frame (c ∷ a ∷ b ∷ d ∷ e ∷ f ∷ g ∷ rest) =
    split_body c (a * 2 ^ 24 + b * 2 ^ 16 + d * 256 + e) (f * 256 + g) rest
read_frame _ = none

-- A waste frame, by which the sender pads: command 0, stream 0, `n` zero bytes.
abbrev pub waste : ℕ → Frame
waste n = record { cmd = 0; id = 0; body = replicate n 0 }

pub append_frame-encode :
    (out : Text) (cmd id : ℕ) (body : Text)
    → append_frame out cmd id body ≡ out ++ encode (record { cmd = cmd; id = id; body = body })
unfolding encode append_frame
append_frame-encode out cmd id body = refl

pub encode_all-append :
    (fs gs : List Frame) → encode_all (fs ++ gs) ≡ encode_all fs ++ encode_all gs
unfolding encode_all
encode_all-append [] gs = refl
encode_all-append (f ∷ fs) gs = simp (encode_all-append fs gs, append_assoc)

pub length-encode : (f : Frame) → length (encode f) ≡ length f.body + 7
unfolding encode append_frame
length-encode f = omega arith

split_body_whole :
    (cmd id len : ℕ) (body rest : Text)
    → len ≡ length body
    → split_body cmd id len (body ++ rest) ≡ some (record { cmd = cmd; id = id; body = body }, rest)
unfolding split_body
split_body_whole cmd id len body rest e = rw e (
    let fits : leb (length body) (length (body ++ rest)) ≡ true =
      ground (arith, length-append body rest) in
    rw (fits, take-length-append, drop-length-append))

join32 :
    (n : ℕ)
    → n < 2 ^ 32
    → n / 2 ^ 24 % 256 * 2 ^ 24 + n / 2 ^ 16 % 256 * 2 ^ 16 + n / 256 % 256 * 256 + n % 256 ≡ n
join32 n h = omega arith

join16 : (n : ℕ) → n ≤ max_frame → n % 2 ^ 16 / 256 % 256 * 256 + n % 2 ^ 16 % 256 ≡ n
join16 n h = omega arith

-- A frame that fits the header's fields is read back whole, and what follows it is left alone.
pub read_frame-encode :
    (f : Frame) (rest : Text) → IsFrame f → read_frame (encode f ++ rest) ≡ some (f, rest)
unfolding encode append_frame read_frame
read_frame-encode f rest ok_frame =
    rw (join32 f.id ok_frame.id_word)
      (split_body_whole f.cmd f.id _ f.body rest (join16 (length f.body) ok_frame.body_fits))

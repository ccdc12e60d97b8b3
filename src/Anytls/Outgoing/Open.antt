-- ===== src/Anytls/Outgoing/Open.antt =====
-- The opening of a session in src/anytls.rs.
use zc.Prelude.{
  Result, ℕ, ◌≡◌, sym, ap, ◌∙◌, List, [], ◌∷◌, ◌++◌, append-nil, append_assoc, map, length, ◌==◌,
  ok, arith, ==_iff, Ensures, Ensures-any, Ensures-guard, Ensures-pure,
}
use zc.Prelude.Text.{Text, bytes}
use zc.Anytls.Io.{IoError}
use zc.Anytls.Frame.{
  Frame, encode, encode_all, encode_all-append, append_frame, append_frame-encode, waste,
}
use zc.Anytls.Padding.{Padding, auth_size, packets}
use zc.Anytls.Padding.Valid.{IsPadding}
use zc.Anytls.Padding.Sizes.{packets-Ensures}
use zc.Anytls.Padding.Lossless.{packets-Kept, wastes}
use zc.Anytls.Session.{Session, Transport}
use zc.Anytls.Polls.{auth_message, opening_frames, open_session}
use zc.Anytls.Outgoing.{IsSession, payload-append, payload-wastes, Owes, start-Position}

-- What `open` announces: the client's settings, the new stream, and its destination.
abbrev pub announced : Text → Padding → Text → List Frame
announced version p address =
    record {
      cmd = 4;
      id = 0;
      body = bytes "v=2\nclient=zc/" ++ version ++ bytes "\npadding-md5=" ++ p.md5;
    }
    ∷ record { cmd = 1; id = 1; body = [] }
    ∷ record { cmd = 2; id = 1; body = address }
    ∷ []

three_frames :
    (f g h : Frame)
    → append_frame
        (append_frame (append_frame [] f.cmd f.id f.body) g.cmd g.id g.body)
        h.cmd
        h.id
        h.body
      ≡ encode_all (f ∷ g ∷ h ∷ [])
unfolding encode_all
three_frames f g h = simp append_frame-encode (simp append_nil-right (simp append_assoc))
  where
    append_nil-right : encode h ++ [] ≡ encode h
    append_nil-right = append-nil (encode h)

opening_frames-announced :
    (version : Text) (p : Padding) (address : Text)
    → opening_frames version p address ≡ encode_all (announced version p address)
unfolding opening_frames
opening_frames-announced version p address = three_frames _ _ _

abbrev Opened : (Text → Text) → Text → Text → Text → Padding → ℕ → Transport → Session → Type 0
Opened sha256 version password address shared accepted t s =
    IsSession s
    × ((n : ℕ) × Owes (t.sent ++ auth_message sha256 password n) (announced version shared address)
          s
        × (accepted ≡ length (auth_message sha256 password n)))

opened :
    (sha256 : Text → Text) (version password address : Text) (shared : Padding) (accepted : ℕ)
    (flush : Result IoError (Unit {0})) (t : Transport)
    → IsPadding shared
    → Ensures
        (Opened sha256 version password address shared accepted t)
        (open_session sha256 version password address shared accepted flush t)
unfolding open_session
opened sha256 version password address shared accepted flush t valid =
    Ensures-any (auth_size shared t.draws) _ λ (n, draws) _.
      Ensures-guard (accepted == length (auth_message sha256 password n)) _ _ λ whole.
        Ensures-any flush _ λ u flushed.
          Ensures-any (packets shared 1 (opening_frames version shared address) draws) _
            λ (ps, draws') cut.
              let (ok_ps, few) =
                (packets-Ensures shared 1 (opening_frames version shared address) draws valid).holds
                  (ps, draws') cut in
              let (ns, same) =
                (packets-Kept shared 1 (opening_frames version shared address) draws).holds
                  (ps, draws') cut in
              let base = t.sent ++ auth_message sha256 password n in
              let fs = announced version shared address in
              Ensures-pure _ _ (
                record {
                  position = λ _. start-Position ps ok_ps;
                  packets = ok_ps;
                  hearts = omega arith;
                  padding = valid;
                  shared = valid;
                  group = omega arith;
                  dead = λ d. cc;
                },
                (
                  n,
                  (
                    fs ++ map waste ns,
                    ap (λ q. base ++ q)
                        (same
                          ∙ ap (λ q. q ++ wastes ns)
                              (opening_frames-announced version shared address)
                          ∙ sym (encode_all-append fs (map waste ns))),
                    append-nil _
                        ∙ payload-append fs (map waste ns)
                        ∙ ap (λ l. fs ++ l) (payload-wastes ns)
                        ∙ append-nil fs,
                  ),
                  (==_iff accepted _).0 whole,
                ),
              )

-- A session that `open` makes from an accepted padding scheme keeps the invariant, and it owes the three
-- frames that announce the stream, behind the authentication message that the transport took.
pub open_session-Owes :
    (sha256 : Text → Text) (version password address : Text) (shared : Padding) (accepted : ℕ)
    (flush : Result IoError (Unit {0})) (t : Transport) (s : Session)
    → IsPadding shared
    → open_session sha256 version password address shared accepted flush t ≡ ok s
    → IsSession s
      × ((n : ℕ) × Owes
            (t.sent ++ auth_message sha256 password n)
            (announced version shared address)
            s
          × (accepted ≡ length (auth_message sha256 password n)))
open_session-Owes sha256 version password address shared accepted flush t s valid e =
    (opened sha256 version password address shared accepted flush t valid).holds s e

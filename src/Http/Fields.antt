-- ===== src/Http/Fields.antt =====
-- What the loop of `http_request` in src/runtime.rs keeps of the fields that it saw.
use zc.Prelude.{
  ℕ, ◌+◌, ◌≤◌, ◌≡◌, refl, sym, ap, ◌∙◌, subst, Bool, true, false, not, ◌&&◌, ◌||◌, Option, none,
  some, List, [], ◌∷◌, ◌++◌, All, All-append, length, all, is_empty, is_some, ltb, ◌==◌, ok_or,
  Ensures, Ensures-pure, Ensures-bind, Ensures-any, Ensures-guard, Ensures-if, Ensures-err,
  Ensures-map, arith,
}
use zc.Prelude.Text.{
  Text, bytes, text_eq, text_eq_iff, one_of, is_digit, parse_uint, split, lowercase,
  eq_ignore_ascii_case, trim,
}
use zc.Frontend.{bad_request, bad_field, bad_framing, authority, same_target}
use zc.Http.{Field}
use zc.Http.Scanning.{
  Scan, Line, is_version_1, scan_probe, scan_encoding, scan_expect, scan_trailer, scan_host,
  scan_length, scan_connection, scan_named, scan_fields, add_options, framing_names, max_body,
}
use zc.Http.Names.{probe_header, validate_trailers, is_token}
use zc.Http.Origins.{as_str}

abbrev pub bit : Bool → ℕ
bit true = 1
bit false = 0

abbrev pub encoding : Text
encoding = bytes "transfer-encoding"

abbrev pub content_length : Text
content_length = bytes "content-length"

abbrev pub has_name : Text → Field → Bool
has_name name field = text_eq (lowercase field.name) name

-- How many fields have a name, whatever the case of its letters.
abbrev pub count_named : Text → List Field → ℕ
count_named name [] = 0
count_named name (field ∷ fields) = bit (has_name name field) + count_named name fields

-- An option of `Connection` is no name that frames the message.
abbrev pub IsOption : Text → Type 0
IsOption option = one_of framing_names option ≡ false

abbrev pub IsSmall : Option ℕ → Type 0
IsSmall none = Unit {0}
IsSmall (some n) = n ≤ max_body

-- What one field changes.
record Step (name value : Text) (s s' : Scan) : Type 0 where
  encodings : bit s'.chunked ≡ bit s.chunked + bit (text_eq name encoding)
  chunks : text_eq name encoding ≡ true → eq_ignore_ascii_case value (bytes "chunked") ≡ true
  lengths : bit (is_some s'.length) ≡ bit (is_some s.length) + bit (text_eq name content_length)
  hosts : bit s'.host_seen ≡ bit s.host_seen + bit (text_eq name (bytes "host"))
  options : All IsOption s.connection → All IsOption s'.connection
  small : IsSmall s.length → IsSmall s'.length

pub not_named :
    (name a b : Text) → text_eq name a ≡ true → text_eq a b ≡ false → text_eq name b ≡ false
not_named name a b h d = subst (λ x. text_eq x b ≡ false) (sym ((text_eq_iff name a).0 h)) d

-- A field that frames nothing and names no host.
other-Step :
    (name value : Text) (s s' : Scan)
    → text_eq name encoding ≡ false
    → text_eq name content_length ≡ false
    → text_eq name (bytes "host") ≡ false
    → s'.chunked ≡ s.chunked
    → s'.length ≡ s.length
    → s'.host_seen ≡ s.host_seen
    → (All IsOption s.connection → All IsOption s'.connection)
    → Step name value s s'
other-Step name value s s' no_encoding no_length no_host chunked size host options = record {
  encodings = ap bit chunked ∙ omega (arith, ap bit no_encoding);
  chunks = λ e. cc;
  lengths = ap (λ x. bit (is_some x)) size ∙ omega (arith, ap bit no_length);
  hosts = ap bit host ∙ omega (arith, ap bit no_host);
  options = options;
  small = λ v. subst IsSmall (sym size) v;
}

add_options-IsOption :
    (options connection : List Text)
    → Ensures
        (λ after. All IsOption connection → All IsOption after)
        (add_options options connection)
unfolding add_options
add_options-IsOption [] connection = Ensures-pure _ connection (λ v. v)
add_options-IsOption (option ∷ options) connection =
    Ensures-guard (is_token (lowercase (trim option))) bad_field _ λ token.
      Ensures-guard (not (one_of framing_names (lowercase (trim option)))) bad_framing _ λ free.
        Ensures-map (add_options options (connection ++ lowercase (trim option) ∷ []))
          (λ after keeps v.
            keeps
              (All-append IsOption connection (lowercase (trim option) ∷ []) v (ground arith, tt)))
          (add_options-IsOption options (connection ++ lowercase (trim option) ∷ []))

scan_encoding-Step :
    (line : Line) (name value : Text) (s : Scan)
    → text_eq name encoding ≡ true
    → Ensures (Step name value s) (scan_encoding line value s)
unfolding scan_encoding
scan_encoding-Step line name value s e =
    Ensures-guard
      (not (
        s.chunked
        || line.connect
        || not (is_version_1 line.version)
        || not (eq_ignore_ascii_case value (bytes "chunked"))))
      bad_framing _
      λ free.
        Ensures-pure (Step name value s) (record s { chunked = true })
          (record {
            encodings = ground arith;
            chunks = λ h. ground arith;
            lengths = omega (arith, ap bit (not_named name encoding content_length e refl));
            hosts = omega (arith, ap bit (not_named name encoding (bytes "host") e refl));
            options = λ v. v;
            small = λ v. v;
          })

scan_length-Step :
    (line : Line) (name value : Text) (s : Scan)
    → text_eq name encoding ≡ false
    → text_eq name content_length ≡ true
    → Ensures (Step name value s) (scan_length line value s)
unfolding scan_length text_eq
scan_length-Step line name value s no_encoding e =
    Ensures-guard (not (is_some s.length)) bad_framing _ λ first.
      Ensures-any (as_str value) _ λ text proper.
        Ensures-guard (not (is_empty (trim text) || not (all is_digit (trim text)))) bad_framing _
          λ digits.
            Ensures-any (ok_or bad_framing (parse_uint 18446744073709551615 (trim text))) _
              λ count parsed.
                Ensures-guard (not (ltb max_body count || (line.connect && not (count == 0))))
                  bad_framing _
                  λ few.
                    Ensures-pure (Step name value s) (record s { length = some count })
                      (record {
                        encodings = omega (arith, ap bit no_encoding);
                        chunks = λ h. cc;
                        lengths = ground arith;
                        hosts =
                            omega
                              (arith, ap bit (not_named name content_length (bytes "host") e refl));
                        options = λ v. v;
                        small = λ v. ground arith;
                      })

scan_host-Step :
    (line : Line) (name value : Text) (s : Scan)
    → text_eq name encoding ≡ false
    → text_eq name (bytes "host") ≡ true
    → Ensures (Step name value s) (scan_host line value s)
unfolding scan_host
scan_host-Step line name value s no_encoding e =
    Ensures-guard (not s.host_seen) bad_field _ λ first. Ensures-any (as_str value) _ λ text proper.
      Ensures-any (authority (trim text) (some line.port)) _ λ host parsed.
        Ensures-guard (same_target line.target host) bad_request _ λ same.
          Ensures-pure (Step name value s) (record s { host_seen = true })
            (record {
              encodings = omega (arith, ap bit no_encoding);
              chunks = λ h. cc;
              lengths = omega (arith, ap bit (not_named name (bytes "host") content_length e refl));
              hosts = ground arith;
              options = λ v. v;
              small = λ v. v;
            })

-- A field of a known name that frames nothing and names no host.
named :
    (known name value : Text) (s s' : Scan)
    → text_eq name known ≡ true
    → text_eq known encoding ≡ false
    → text_eq known content_length ≡ false
    → text_eq known (bytes "host") ≡ false
    → s'.chunked ≡ s.chunked
    → s'.length ≡ s.length
    → s'.host_seen ≡ s.host_seen
    → s'.connection ≡ s.connection
    → Step name value s s'
named known name value s s' h a b c chunked size host options =
    other-Step name value s s' (not_named name known encoding h a)
      (not_named name known content_length h b) (not_named name known (bytes "host") h c) chunked
      size host (λ v. subst (All IsOption) (sym options) v)

scan_named-Step :
    (line : Line) (name value : Text) (s : Scan)
    → Ensures (Step name value s) (scan_named line name value s)
unfolding scan_named scan_probe scan_expect scan_trailer scan_connection text_eq
scan_named-Step line name value s =
    Ensures-if (text_eq name probe_header) _ _
      (λ h. Ensures-guard (not (is_some s.probe_token || line.connect)) bad_field _ λ first.
        Ensures-any (as_str value) _ λ token proper.
          Ensures-guard (length token == 65) bad_field _ λ size.
            Ensures-pure (Step name value s) (record s { probe_token = some token })
              (named probe_header name value s (record s { probe_token = some token }) h refl refl
                refl refl refl refl refl))
      λ h1.
        Ensures-if (text_eq name encoding) _ _ (λ h. scan_encoding-Step line name value s h)
          λ h2.
            Ensures-if (text_eq name (bytes "expect")) _ _
              (λ h.
                Ensures-guard
                  (not (
                    s.expect_seen
                    || line.connect
                    || not (is_version_1 line.version)
                    || not (eq_ignore_ascii_case value (bytes "100-continue"))))
                  bad_field _
                  λ first.
                    Ensures-pure (Step name value s) (record s { expect_seen = true })
                      (named (bytes "expect") name value s (record s { expect_seen = true }) h refl
                        refl refl refl refl refl refl))
              λ h3.
                Ensures-if (text_eq name (bytes "trailer")) _ _
                  (λ h. Ensures-any (as_str value) _ λ text proper.
                    Ensures-any (validate_trailers (split b',' text)) _ λ u valid.
                      Ensures-pure (Step name value s) (record s { trailers = true })
                        (named (bytes "trailer") name value s (record s { trailers = true }) h refl
                          refl refl refl refl refl refl))
                  λ h4.
                    Ensures-if (text_eq name (bytes "upgrade")) _ _ (λ h. Ensures-err bad_field)
                      λ h5.
                        Ensures-if (text_eq name (bytes "host")) _ _
                          (λ h. scan_host-Step line name value s h2 h)
                          λ h6.
                            Ensures-if (text_eq name content_length) _ _
                              (λ h. scan_length-Step line name value s h2 h)
                              λ h7.
                                Ensures-if (text_eq name (bytes "connection")) _ _
                                  (λ h. Ensures-any (as_str value) _ λ text proper.
                                    Ensures-bind (add_options (split b',' text) s.connection) _
                                      (add_options-IsOption (split b',' text) s.connection)
                                      λ connection keeps.
                                        Ensures-pure (Step name value s)
                                          (record s { connection = connection })
                                          (other-Step name value s
                                            (record s { connection = connection }) h2 h7 h6 refl
                                            refl refl keeps))
                                  λ h8.
                                    Ensures-pure (Step name value s) s
                                      (other-Step name value s s h2 h7 h6 refl refl refl (λ v. v))

-- What all fields together changed.
pub record Scanned (fields : List Field) (s s' : Scan) : Type 0 where
  pub encodings : bit s'.chunked ≡ bit s.chunked + count_named encoding fields
  pub chunks :
      All
        (λ field.
          has_name encoding field ≡ true
          → eq_ignore_ascii_case field.value (bytes "chunked") ≡ true)
        fields
  pub lengths : bit (is_some s'.length) ≡ bit (is_some s.length) + count_named content_length fields
  pub hosts : bit s'.host_seen ≡ bit s.host_seen + count_named (bytes "host") fields
  pub options : All IsOption s.connection → All IsOption s'.connection
  pub small : IsSmall s.length → IsSmall s'.length

pub scan_fields-Scanned :
    (line : Line) (fields : List Field) (s : Scan)
    → Ensures (Scanned fields s) (scan_fields line fields s)
unfolding scan_fields
scan_fields-Scanned line [] s = Ensures-pure (Scanned [] s) s (record {
  encodings = omega arith;
  chunks = tt;
  lengths = omega arith;
  hosts = omega arith;
  options = λ v. v;
  small = λ v. v;
})
scan_fields-Scanned line (field ∷ fields) s =
    Ensures-bind (scan_named line (lowercase field.name) field.value s) _
      (scan_named-Step line (lowercase field.name) field.value s)
      λ s' one.
        Ensures-map (scan_fields line fields s')
          (λ s'' rest. record {
            encodings = omega (arith, one.encodings, rest.encodings);
            chunks = (one.chunks, rest.chunks);
            lengths = omega (arith, one.lengths, rest.lengths);
            hosts = omega (arith, one.hosts, rest.hosts);
            options = λ v. rest.options (one.options v);
            small = λ v. rest.small (one.small v);
          })
          (scan_fields-Scanned line fields s')

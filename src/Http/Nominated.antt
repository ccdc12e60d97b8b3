-- ===== src/Http/Nominated.antt =====
-- The names that the `Connection` fields of a request give, as `http_request` of src/runtime.rs collects them.
use zc.Prelude.{
  ◌≡◌, refl, sym, ap, ◌∙◌, Bool, true, false, not, ◌&&◌, ◌||◌, some, List, [], ◌∷◌, ◌++◌, map, flat,
  append-nil, append_assoc, all, is_empty, is_some, length, ltb, ◌==◌, ok_or, Ensures, Ensures-pure,
  Ensures-bind, Ensures-any, Ensures-guard, Ensures-if, Ensures-err, Ensures-map, Result,
}
use zc.Prelude.Text.{
  Text, bytes, text_eq, split, lowercase, trim, is_digit, parse_uint, eq_ignore_ascii_case, one_of,
  decode_utf8,
}
use zc.Frontend.{FrontError, bad_request, bad_field, bad_framing, not_utf8, authority, same_target}
use zc.Http.{Field}
use zc.Http.Names.{probe_header, validate_trailers, is_token}
use zc.Http.Origins.{as_str}
use zc.Http.Scanning.{
  Scan, Line, is_version_1, scan_probe, scan_encoding, scan_expect, scan_trailer, scan_host,
  scan_length, scan_connection, scan_named, scan_fields, add_options, framing_names, max_body,
}
use zc.Http.Fields.{not_named}

-- The options of one value, as they are compared.
abbrev pub options_of : Text → List Text
options_of value = map (λ option. lowercase (trim option)) (split b',' value)

abbrev nominated_if : Bool → Text → List Text
nominated_if true value = options_of value
nominated_if false value = []

abbrev pub nominated_by : Field → List Text
nominated_by field = nominated_if (text_eq (lowercase field.name) (bytes "connection")) field.value

-- All names that the fields of the name `Connection` give.
abbrev pub nominated : List Field → List Text
nominated headers = flat (map nominated_by headers)

abbrev Keeps : Scan → Scan → Type 0
Keeps s s' = s'.connection ≡ s.connection

as_str-same : (value : Text) → Ensures (λ text. text ≡ value) (as_str value)
unfolding as_str
as_str-same value =
    Ensures-guard (is_some (decode_utf8 value)) not_utf8 _ λ proper. Ensures-pure _ value refl

add_options-appends :
    (options connection : List Text)
    → Ensures
        (λ after. after ≡ connection ++ map (λ option. lowercase (trim option)) options)
        (add_options options connection)
unfolding add_options
add_options-appends [] connection = Ensures-pure _ connection (sym (append-nil connection))
add_options-appends (option ∷ options) connection =
    Ensures-guard (is_token (lowercase (trim option))) bad_field _ λ token.
      Ensures-guard (not (one_of framing_names (lowercase (trim option)))) bad_framing _ λ free.
        Ensures-map (add_options options (connection ++ lowercase (trim option) ∷ []))
          (λ after e.
            e
            ∙ append_assoc connection (lowercase (trim option) ∷ [])
                (map (λ o. lowercase (trim o)) options))
          (add_options-appends options (connection ++ lowercase (trim option) ∷ []))

module _ (line : Line) (value : Text) (s : Scan) where
  scan_probe-Keeps : Ensures (Keeps s) (scan_probe line value s)
  unfolding scan_probe
  scan_probe-Keeps =
      Ensures-guard (not (is_some s.probe_token || line.connect)) bad_field _ λ first.
        Ensures-any (as_str value) _ λ token proper.
          Ensures-guard (length token == 65) bad_field _
            λ size. Ensures-pure _ (record s { probe_token = _ }) refl

  scan_encoding-Keeps : Ensures (Keeps s) (scan_encoding line value s)
  unfolding scan_encoding
  scan_encoding-Keeps =
      Ensures-guard
        (not (
          s.chunked
          || line.connect
          || not (is_version_1 line.version)
          || not (eq_ignore_ascii_case value (bytes "chunked"))))
        bad_framing _ λ free. Ensures-pure _ (record s { chunked = true }) refl

  scan_expect-Keeps : Ensures (Keeps s) (scan_expect line value s)
  unfolding scan_expect
  scan_expect-Keeps =
      Ensures-guard
        (not (
          s.expect_seen
          || line.connect
          || not (is_version_1 line.version)
          || not (eq_ignore_ascii_case value (bytes "100-continue"))))
        bad_field _ λ free. Ensures-pure _ (record s { expect_seen = true }) refl

  scan_trailer-Keeps : Ensures (Keeps s) (scan_trailer value s)
  unfolding scan_trailer
  scan_trailer-Keeps = Ensures-any (as_str value) _ λ text proper.
      Ensures-any (validate_trailers (split b',' text)) _
        λ u valid. Ensures-pure _ (record s { trailers = true }) refl

  scan_host-Keeps : Ensures (Keeps s) (scan_host line value s)
  unfolding scan_host
  scan_host-Keeps = Ensures-guard (not s.host_seen) bad_field _ λ first.
      Ensures-any (as_str value) _ λ text proper.
        Ensures-any (authority (trim text) (some line.port)) _ λ host parsed.
          Ensures-guard (same_target line.target host) bad_request _
            λ same. Ensures-pure _ (record s { host_seen = true }) refl

  scan_length-Keeps : Ensures (Keeps s) (scan_length line value s)
  unfolding scan_length
  scan_length-Keeps = Ensures-guard (not (is_some s.length)) bad_framing _ λ first.
      Ensures-any (as_str value) _ λ text proper.
        Ensures-guard (not (is_empty (trim text) || not (all is_digit (trim text)))) bad_framing _
          λ digits.
            Ensures-any (ok_or bad_framing (parse_uint 18446744073709551615 (trim text))) _
              λ count parsed.
                Ensures-guard (not (ltb max_body count || (line.connect && not (count == 0))))
                  bad_framing _ λ few. Ensures-pure _ (record s { length = some count }) refl

  scan_connection-appends :
      Ensures (λ s'. s'.connection ≡ s.connection ++ options_of value) (scan_connection value s)
  unfolding scan_connection
  scan_connection-appends = Ensures-bind (as_str value) _ (as_str-same value) λ text same.
      Ensures-bind (add_options (split b',' text) s.connection) _
        (add_options-appends (split b',' text) s.connection)
        λ connection e.
          Ensures-pure _ (record s { connection = connection })
            (e ∙ ap (λ t. s.connection ++ options_of t) same)

  -- One field adds what it nominates.
  abbrev Adds : Text → Scan → Type 0
  Adds name s' =
      s'.connection ≡ s.connection ++ nominated_if (text_eq name (bytes "connection")) value

  other-Adds :
      (name : Text) (s' : Scan)
      → text_eq name (bytes "connection") ≡ false
      → Keeps s s'
      → Adds name s'
  other-Adds name s' other e = rw other (e ∙ sym (append-nil s.connection))

  known-Adds :
      (known name : Text) (r : Result FrontError Scan)
      → text_eq known (bytes "connection") ≡ false
      → Ensures (Keeps s) r
      → text_eq name known ≡ true
      → Ensures (Adds name) r
  known-Adds known name r other h e =
      Ensures-map r
        (λ s' keeps. other-Adds name s' (not_named name known (bytes "connection") e other) keeps) h

  scan_named-Adds : (name : Text) → Ensures (Adds name) (scan_named line name value s)
  unfolding scan_named text_eq
  scan_named-Adds name =
      Ensures-if (text_eq name probe_header) _ _
        (known-Adds probe_header name _ refl scan_probe-Keeps)
        λ h1.
          Ensures-if (text_eq name (bytes "transfer-encoding")) _ _
            (known-Adds (bytes "transfer-encoding") name _ refl scan_encoding-Keeps)
            λ h2.
              Ensures-if (text_eq name (bytes "expect")) _ _
                (known-Adds (bytes "expect") name _ refl scan_expect-Keeps)
                λ h3.
                  Ensures-if (text_eq name (bytes "trailer")) _ _
                    (known-Adds (bytes "trailer") name _ refl scan_trailer-Keeps)
                    λ h4.
                      Ensures-if (text_eq name (bytes "upgrade")) _ _ (λ h. Ensures-err bad_field)
                        λ h5.
                          Ensures-if (text_eq name (bytes "host")) _ _
                            (known-Adds (bytes "host") name _ refl scan_host-Keeps)
                            λ h6.
                              Ensures-if (text_eq name (bytes "content-length")) _ _
                                (known-Adds (bytes "content-length") name _ refl scan_length-Keeps)
                                λ h7.
                                  Ensures-if (text_eq name (bytes "connection")) _ _
                                    (λ h.
                                      Ensures-map (scan_connection value s) (λ s' e. rw h e)
                                        scan_connection-appends)
                                    λ h8. Ensures-pure (Adds name) s (other-Adds name s h8 refl)

-- The loop collects just what the `Connection` fields nominate.
pub scan_fields-nominated :
    (line : Line) (fields : List Field) (s : Scan)
    → Ensures (λ s'. s'.connection ≡ s.connection ++ nominated fields) (scan_fields line fields s)
unfolding scan_fields
scan_fields-nominated line [] s = Ensures-pure _ s (sym (append-nil s.connection))
scan_fields-nominated line (field ∷ fields) s =
    Ensures-bind (scan_named line (lowercase field.name) field.value s) _
      (scan_named-Adds line field.value s (lowercase field.name))
      λ s' one.
        Ensures-map (scan_fields line fields s')
          (λ s'' rest.
            rest
            ∙ ap (λ c. c ++ nominated fields) one
            ∙ append_assoc s.connection (nominated_by field) (nominated fields))
          (scan_fields-nominated line fields s')

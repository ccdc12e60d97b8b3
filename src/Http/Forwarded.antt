-- ===== src/Http/Forwarded.antt =====
-- What `http_request` of src/runtime.rs sends on: one framing, one Host, and no field of this hop.
use zc.Prelude.{
  ℕ, ◌+◌, ◌≤◌, ◌≡◌, refl, sym, ap, ◌∙◌, subst, Bool, true, false, not, ◌&&◌, ◌||◌, Option, none,
  some, List, [], ◌∷◌, All, all, is_some, if◌then◌else◌, Bool-cases, inl, inr, ok_or, Ensures,
  Ensures-pure, Ensures-bind, Ensures-any, Ensures-guard, Ensures-if, Ensures-both, arith,
}
use zc.Prelude.Text.{
  Text, bytes, text_eq, text_eq_iff, one_of, lowercase, eq_ignore_ascii_case, starts_with, trim,
  strip_prefix,
}
use zc.Target.{Target}
use zc.Frontend.{bad_request, bad_framing, authority}
use zc.Frontend.Accepted.{IsAuthority, authority_valid}
use zc.Http.{Field, Request, Forward, HttpRequest}
use zc.Http.Scanning.{Scan, no_fields, Line, scan_fields, is_version_1}
use zc.Http.Origins.{
  is_path_byte, as_str, split_url, origin_of, find_host, strip_scheme, default_port, absolute_form,
  origin_form, request_target,
}
use zc.Http.Nominated.{nominated, scan_fields-nominated}
use zc.Http.Requests.{host_port, http_request}
use zc.Http.Writing.{hop_names, passed_fields, write_header, length_or_zero, forward_of}
use zc.Http.Fields.{
  bit, encoding, content_length, has_name, count_named, IsOption, IsSmall, Scanned,
  scan_fields-Scanned,
}

abbrev pub IsChunks : Field → Type 0
IsChunks field =
    has_name encoding field ≡ true → eq_ignore_ascii_case field.value (bytes "chunked") ≡ true

abbrev pub IsPassed : Field → Type 0
IsPassed field = one_of hop_names (lowercase field.name) ≡ false

-- A request that is sent on: its fields and its length, as they are written.
pub record IsForward (headers : List Field) (target : Target) (f : Forward) : Type 0 where
  pub method : Text
  pub origin : Text
  pub fields : List Field
  pub size : Option ℕ
  pub written : f.header ≡ write_header method origin target fields size
  pub sized : f.length ≡ length_or_zero size
  pub small : IsSmall size
  pub one_framing : bit f.chunked + bit (is_some size) ≤ 1
  pub encodings : count_named encoding fields ≡ bit f.chunked
  pub chunks : All IsChunks fields
  pub passed : All IsPassed fields
  pub unnominated : All (λ field. one_of (nominated headers) (lowercase field.name) ≡ false) fields

abbrev pub IsForwarded : List Field → Target → Option Forward → Type 0
IsForwarded headers target none = Unit {0}
IsForwarded headers target (some f) = IsForward headers target f

option-ne : (option : Text) → IsOption option → text_eq option encoding ≡ false
unfolding one_of text_eq
option-ne option free = elim (Bool-cases (text_eq option encoding)) [
  | inl same ↦ absurd (framed (subst IsOption ((text_eq_iff option encoding).0 same) free))
  | inr other ↦ other
]
  where
    framed : IsOption encoding → ⊥
    framed e = cc

options-ne : (connection : List Text) → All IsOption connection → one_of connection encoding ≡ false
unfolding one_of
options-ne [] v = refl
options-ne (option ∷ connection) (h, hs) =
    ground (arith, option-ne option h, options-ne connection hs)

-- The name of the encoding is passed on.
encoding_passes :
    (connection : List Text) (name : Text)
    → All IsOption connection
    → text_eq name encoding ≡ true
    → (one_of hop_names name || one_of connection name) ≡ false
unfolding one_of text_eq
encoding_passes connection name v h =
    subst (λ x. (one_of hop_names x || one_of connection x) ≡ false)
      (sym ((text_eq_iff name encoding).0 h)) (options-ne connection v)

count_named-passed :
    (connection : List Text) (fields : List Field)
    → All IsOption connection
    → count_named encoding (passed_fields connection fields) ≡ count_named encoding fields
unfolding passed_fields
count_named-passed connection [] v = refl
count_named-passed connection (field ∷ fields) v =
    let rest = count_named-passed connection fields v in
    elim (Bool-cases
      (one_of hop_names (lowercase field.name) || one_of connection (lowercase field.name))) [
        | inl gone ↦ rw gone (elim (Bool-cases (has_name encoding field)) [
          | inl here ↦
              absurd (both (sym gone ∙ encoding_passes connection (lowercase field.name) v here))
          | inr other ↦ rest ∙ omega (arith, ap bit other)
        ])
        | inr stays ↦ rw stays (ap (λ n. bit (has_name encoding field) + n) rest)
      ]
  where
    both : true ≡ false → ⊥
    both e = cc

All-passed :
    (P : Field → Type 0) (connection : List Text) (fields : List Field)
    → All P fields
    → All P (passed_fields connection fields)
unfolding passed_fields
All-passed P connection [] v = tt
All-passed P connection (field ∷ fields) (h, hs) =
    elim (Bool-cases
      (one_of hop_names (lowercase field.name) || one_of connection (lowercase field.name))) [
        | inl gone ↦ rw gone (All-passed P connection fields hs)
        | inr stays ↦ rw stays (h, All-passed P connection fields hs)
      ]

passed_fields-IsPassed :
    (connection : List Text) (fields : List Field) → All IsPassed (passed_fields connection fields)
unfolding passed_fields
passed_fields-IsPassed connection [] = tt
passed_fields-IsPassed connection (field ∷ fields) =
    elim (Bool-cases
      (one_of hop_names (lowercase field.name) || one_of connection (lowercase field.name))) [
        | inl gone ↦ rw gone (passed_fields-IsPassed connection fields)
        | inr stays ↦ rw stays (ground arith, passed_fields-IsPassed connection fields)
      ]

passed_fields-unnominated :
    (connection : List Text) (fields : List Field)
    → All
        (λ field. one_of connection (lowercase field.name) ≡ false)
        (passed_fields connection fields)
unfolding passed_fields
passed_fields-unnominated connection [] = tt
passed_fields-unnominated connection (field ∷ fields) =
    elim (Bool-cases
      (one_of hop_names (lowercase field.name) || one_of connection (lowercase field.name))) [
        | inl gone ↦ rw gone (passed_fields-unnominated connection fields)
        | inr stays ↦ rw stays (ground arith, passed_fields-unnominated connection fields)
      ]

forward_of-IsForward :
    (method path origin : Text) (request : Request) (target : Target) (s : Scan)
    → Scanned request.headers no_fields s
    → s.connection ≡ nominated request.headers
    → not (s.chunked && is_some s.length) ≡ true
    → IsForward request.headers target (forward_of method path origin request target s)
unfolding forward_of
forward_of-IsForward method path origin request target s v options single = record {
  method = method;
  origin = origin;
  fields = passed_fields s.connection request.headers;
  size = s.length;
  written = refl;
  sized = refl;
  small = v.small tt;
  one_framing = ground arith;
  encodings =
      count_named-passed s.connection request.headers (v.options tt) ∙ omega (arith, v.encodings);
  chunks = All-passed IsChunks s.connection request.headers v.chunks;
  passed = passed_fields-IsPassed s.connection request.headers;
  unnominated =
      subst
        (λ names.
          All (λ field. one_of names (lowercase field.name) ≡ false)
            (passed_fields s.connection request.headers))
        options (passed_fields-unnominated s.connection request.headers);
}

default_port-le : (path : Text) → default_port path ≤ 65535
unfolding default_port
default_port-le path = ground arith

abbrev HasAuthority : Target × Text → Type 0
HasAuthority to = IsAuthority to.0

request_target-HasAuthority :
    (connect : Bool) (path : Text) (headers : List Field)
    → Ensures HasAuthority (request_target connect path headers)
unfolding request_target origin_form absolute_form
request_target-HasAuthority true path headers =
    Ensures-bind (authority path none) _ (authority_valid path none tt)
      λ target v. Ensures-pure HasAuthority (target, []) v
request_target-HasAuthority false path headers =
    Ensures-if (starts_with (bytes "/") path || text_eq path (bytes "*")) _ _
      (λ origin. Ensures-any (ok_or bad_request (find_host headers)) _ λ host found.
        Ensures-any (as_str host) _ λ value proper.
          Ensures-bind (authority (trim value) (some 80)) _
            (authority_valid (trim value) (some 80) (omega arith))
            λ target v. Ensures-pure HasAuthority (target, path) v)
      λ absolute.
        Ensures-any
          (ok_or bad_request (
            strip_scheme (strip_prefix (bytes "http://") path)
              (strip_prefix (bytes "https://") path)))
          _
          λ url found.
            Ensures-bind (authority (split_url url).0 (some (default_port path))) _
              (authority_valid (split_url url).0 (some (default_port path)) (default_port-le path))
              λ target v. Ensures-pure HasAuthority (target, origin_of (split_url url).1) v

-- What an accepted request promises.
pub record IsAccepted (request : Request) (r : HttpRequest) : Type 0 where
  pub target : IsAuthority r.target
  pub hosts : count_named (bytes "host") request.headers ≤ 1
  pub lengths : count_named content_length request.headers ≤ 1
  pub forward : IsForwarded request.headers r.target r.forward

bit-le : (b : Bool) → bit b ≤ 1
bit-le true = omega arith
bit-le false = omega arith

-- An accepted request has a valid target and at most one Host and one Content-Length. What is sent on is
-- written with one Host line, that of the target, and is framed in one way: by one Transfer-Encoding,
-- which is `chunked`, or by one Content-Length of at most 16 MiB, or neither. No other field that it
-- carries is a Host, a Content-Length, the probe's token or another one of this hop, nor has it a name that
-- a Connection field of the request gives.
pub http_request-IsAccepted :
    (request : Request) → Ensures (IsAccepted request) (http_request request)
unfolding http_request
http_request-IsAccepted request = Ensures-any (ok_or bad_request request.method) _ λ method m.
    Ensures-any (ok_or bad_request request.path) _ λ path p.
      Ensures-guard (all is_path_byte path) bad_request _ λ plain.
        let connect = text_eq method (bytes "CONNECT") in
        Ensures-bind (request_target connect path request.headers) _
          (request_target-HasAuthority connect path request.headers)
          λ to valid.
            let line : Line = record {
              connect = connect;
              version = request.version;
              target = to.0;
              port = host_port connect to.0 path;
            } in
            Ensures-bind (scan_fields line request.headers no_fields) _
              (Ensures-both (scan_fields line request.headers no_fields)
                (scan_fields-Scanned line request.headers no_fields)
                (scan_fields-nominated line request.headers no_fields))
              λ s (v, options).
                Ensures-guard (not (s.chunked && is_some s.length)) bad_framing _ λ single.
                  Ensures-guard (not (s.trailers && not s.chunked)) bad_framing _ λ framed.
                    Ensures-guard (not (is_version_1 request.version && not s.host_seen))
                      bad_request _
                      λ named.
                        let hosts = bit-le s.host_seen in
                        let lengths = bit-le (is_some s.length) in
                        Ensures-pure (IsAccepted request) _ (
                          accepted connect method path to.1 to.0 s valid v options single
                            (omega (arith, hosts, v.hosts)) (omega (arith, lengths, v.lengths)))
  where
    accepted :
        (connect : Bool) (method path origin : Text) (target : Target) (s : Scan)
        → IsAuthority target
        → Scanned request.headers no_fields s
        → s.connection ≡ nominated request.headers
        → not (s.chunked && is_some s.length) ≡ true
        → count_named (bytes "host") request.headers ≤ 1
        → count_named content_length request.headers ≤ 1
        → IsAccepted request (
            if connect
            then record { target = target; forward = none; probe_token = none }
            else record {
              target = target;
              forward = some (forward_of method path origin request target s);
              probe_token = s.probe_token;
            })
    accepted true method path origin target s valid v options single hosts lengths = record {
      target = valid;
      hosts = hosts;
      lengths = lengths;
      forward = tt;
    }
    accepted false method path origin target s valid v options single hosts lengths = record {
      target = valid;
      hosts = hosts;
      lengths = lengths;
      forward = forward_of-IsForward method path origin request target s v options single;
    }

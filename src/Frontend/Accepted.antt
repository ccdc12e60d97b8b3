-- ===== src/Frontend/Accepted.antt =====
-- What the authorities that src/runtime.rs accepts are.
use zc.Prelude.{
  true, false, if-cases, inl, inr, ap, ◌∙◌, ◌++◌, append-nil, ◌==◌, Ensures-map, ℕ, ◌≤◌, ◌≡◌, refl,
  sym, subst, ◌⊎◌, not, ◌||◌, Option, none, some, [], ◌∷◌, all, is_empty, Result, ok, err, ok_or,
  ok_or-some, Ensures, Ensures-pure, Ensures-bind, Ensures-any, Ensures-guard, Ensures-if,
  Ensures-err, arith,
}
use zc.Prelude.Text.{Text, is_digit, parse_uint, parse_uint-le, split_once, strip_prefix}
use zc.IpAddr.{IpAddr, parse_ip}
use zc.Target.{Target, TargetError, new}
use zc.Target.Names.{IsTarget, IsName, new-IsTarget}
use zc.Frontend.{
  bad_port, missing_port, bad_authority, bad_target, map_target, authority_port, is_v6,
  bracket_port, bracketed, unbracketed, authority_parts, authority,
}

-- A default port, if there is one, has 16 bits.
abbrev pub IsDefault : Option ℕ → Type 0
IsDefault none = Unit {0}
IsDefault (some port) = port ≤ 65535

-- What the text of a port, if there is one, says of it.
abbrev pub GivesPort : Option Text → Option ℕ → ℕ → Type 0
GivesPort none default_port port = default_port ≡ some port
GivesPort (some digits) default_port port =
    (all is_digit digits ≡ true) × (is_empty digits ≡ false) × (parse_uint 65535 digits ≡ some port)

abbrev pub port_part : Option Text → Text
port_part none = []
port_part (some digits) = b':' ∷ digits

-- The value is the host, in brackets or without, and behind it the port or nothing.
abbrev pub Writes : Text → Text → Text → Type 0
Writes value host part =
    (value ≡ host ++ part)
    ⊎ ((value ≡ b'[' ∷ (host ++ b']' ∷ part)) × (is_v6 (parse_ip host) ≡ true))

abbrev pub IsWritten : Text → Option ℕ → Text × ℕ → Type 0
IsWritten value default_port (host, port) =
    (digits : Option Text) × GivesPort digits default_port port
    × Writes value host (port_part digits)

split_once-some : (c : ℕ) (s x y : Text) → split_once c s ≡ some (x, y) → s ≡ x ++ c ∷ y
unfolding split_once
split_once-some c [] x y h = cc
split_once-some c (b ∷ s) x y h = elim (if-cases (b == c) h) [
  | inl (here, e) ↦
      let same : b ≡ c = ground (arith, here) in
      let front : [] ≡ x = cc e in let behind : s ≡ y = cc e in cc (same, front, behind)
  | inr (other, e) ↦ later (split_once c s) (λ u v. split_once-some c s u v) e
]
  where
    later :
        (o : Option (Text × Text))
        → ((u v : Text) → o ≡ some (u, v) → s ≡ u ++ c ∷ v)
        → ◌≡◌ {A = Option (Text × Text)}
            (elim o [ none ↦ none | some (x, y) ↦ some (b ∷ x, y) ])
            (some (x, y))
        → b ∷ s ≡ x ++ c ∷ y
    later none again h = cc
    later (some (u, v)) again h =
        let front : b ∷ u ≡ x = cc h in
        let behind : v ≡ y = cc h in ap (λ t. b ∷ t) (again u v refl) ∙ cc (front, behind)

strip_prefix-some : (c : ℕ) (s t : Text) → strip_prefix (c ∷ []) s ≡ some t → s ≡ c ∷ t
unfolding strip_prefix
strip_prefix-some c [] t h = cc
strip_prefix-some c (b ∷ s) t h = elim (if-cases (b == c) h) [
  | inl (here, e) ↦
      let same : b ≡ c = ground (arith, here) in let rest : s ≡ t = cc e in cc (same, rest)
  | inr (other, e) ↦ cc
]

authority_port-GivesPort :
    (value : Text) (default_port : Option ℕ)
    → Ensures (GivesPort (some value) default_port) (authority_port value)
unfolding authority_port
authority_port-GivesPort value default_port =
    Ensures-guard (not (is_empty value || not (all is_digit value))) bad_port _ λ digits. record {
      holds =
          λ port e. (ground arith, ground arith, ok_or-some bad_port (parse_uint 65535 value) e);
    }

default-GivesPort :
    (default_port : Option ℕ)
    → Ensures (GivesPort none default_port) (ok_or missing_port default_port)
default-GivesPort none = Ensures-err missing_port
default-GivesPort (some port) = Ensures-pure (GivesPort none (some port)) port refl

-- What follows the bracket is the port, or nothing.
abbrev Follows : Text → Option ℕ → ℕ → Type 0
Follows suffix default_port port =
    (digits : Option Text) × GivesPort digits default_port port × (suffix ≡ port_part digits)

empty_text : (t : Text) → is_empty t ≡ true → t ≡ []
empty_text [] h = refl
empty_text (b ∷ t) h = cc

bracket_port-Follows :
    (stripped : Option Text) (suffix : Text) (default_port : Option ℕ)
    → strip_prefix (b':' ∷ []) suffix ≡ stripped
    → Ensures (Follows suffix default_port) (bracket_port stripped suffix default_port)
unfolding bracket_port
bracket_port-Follows (some digits) suffix default_port h =
    Ensures-map (authority_port digits)
      (λ port gives. (some digits, gives, strip_prefix-some b':' suffix digits h))
      (authority_port-GivesPort digits default_port)
bracket_port-Follows none suffix default_port h =
    Ensures-if (is_empty suffix) _ _
      (λ nothing.
        Ensures-map (ok_or missing_port default_port)
          (λ port gives. (none, gives, empty_text suffix nothing)) (default-GivesPort default_port))
      (λ more. Ensures-err missing_port)

bracketed-IsWritten :
    (value rest : Text) (default_port : Option ℕ)
    → value ≡ b'[' ∷ rest
    → Ensures (IsWritten value default_port) (bracketed rest default_port)
unfolding bracketed
bracketed-IsWritten value rest default_port h =
    Ensures-any (ok_or bad_authority (split_once b']' rest)) _ λ (host, suffix) found.
      Ensures-guard (is_v6 (parse_ip host)) bad_authority _ λ six.
        Ensures-bind (bracket_port (strip_prefix (b':' ∷ []) suffix) suffix default_port) _
          (bracket_port-Follows (strip_prefix (b':' ∷ []) suffix) suffix default_port refl)
          λ port (digits, gives, follows).
            let parts = split_once-some b']' rest host suffix (ok_or-some bad_authority _ found) in
            Ensures-pure (IsWritten value default_port) (host, port)
              (
                digits,
                gives,
                inr (h ∙ ap (λ t. b'[' ∷ t) (parts ∙ ap (λ t. host ++ b']' ∷ t) follows), six),
              )

unbracketed-IsWritten :
    (parts : Option (Text × Text)) (value : Text) (default_port : Option ℕ)
    → split_once b':' value ≡ parts
    → Ensures (IsWritten value default_port) (unbracketed parts value default_port)
unfolding unbracketed
unbracketed-IsWritten (some (host, digits)) value default_port h =
    Ensures-bind (authority_port digits) _ (authority_port-GivesPort digits default_port)
      λ port gives.
        Ensures-pure (IsWritten value default_port) (host, port)
          (some digits, gives, inl (split_once-some b':' value host digits h))
unbracketed-IsWritten none value default_port h =
    Ensures-bind (ok_or missing_port default_port) _ (default-GivesPort default_port) λ port gives.
      Ensures-pure (IsWritten value default_port) (value, port)
        (none, gives, inl (sym (append-nil value)))

authority_parts-IsWritten :
    (rest : Option Text) (value : Text) (default_port : Option ℕ)
    → strip_prefix (b'[' ∷ []) value ≡ rest
    → Ensures (IsWritten value default_port) (authority_parts rest value default_port)
unfolding authority_parts
authority_parts-IsWritten (some rest) value default_port h =
    bracketed-IsWritten value rest default_port (strip_prefix-some b'[' value rest h)
authority_parts-IsWritten none value default_port h =
    unbracketed-IsWritten (split_once b':' value) value default_port refl

-- What a request may be sent to: `Target::new` accepts it.
abbrev pub IsAuthority : Target → Type 0
IsAuthority t = IsTarget t.host t.port t × (t.port ≤ 65535) × (new t.host t.port ≡ ok t)

map_target-Ensures :
    {A : Type 0} {P : A → Type 0} (r : Result TargetError A)
    → Ensures P r
    → Ensures P (map_target r)
unfolding map_target
map_target-Ensures {P = P} (ok a) h = Ensures-pure P a (h.holds a refl)
map_target-Ensures (err e) h = Ensures-err bad_target

GivesPort-le :
    (digits : Option Text) (default_port : Option ℕ) (port : ℕ)
    → IsDefault default_port
    → GivesPort digits default_port port
    → port ≤ 65535
GivesPort-le none default_port port h gives = subst IsDefault gives h
GivesPort-le (some digits) default_port port h gives = parse_uint-le 65535 digits port gives.2

new-IsAuthority :
    (host : Text) (port : ℕ)
    → port ≤ 65535
    → Ensures (λ t. IsAuthority t × (t.host ≡ host) × (t.port ≡ port)) (new host port)
new-IsAuthority host port h = record {
  holds = λ t e.
      let v = (new-IsTarget host port).holds t e in
      (
        (
          record {
            host_kept = refl;
            port_kept = refl;
            positive = omega (arith, v.positive, v.port_kept);
            named =
                subst (λ x. ((ip : IpAddr) × (parse_ip x ≡ some ip)) ⊎ IsName x) (sym v.host_kept)
                  v.named;
          },
          omega (arith, v.port_kept, h),
          ap (λ x. new x t.port) v.host_kept ∙ ap (new host) v.port_kept ∙ e,
        ),
        v.host_kept,
        v.port_kept,
      );
}

pub authority-IsAuthority :
    (value : Text) (default_port : Option ℕ)
    → IsDefault default_port
    → Ensures
        (λ t. IsAuthority t × IsWritten value default_port (t.host, t.port))
        (authority value default_port)
unfolding authority
authority-IsAuthority value default_port h =
    Ensures-bind (authority_parts (strip_prefix (b'[' ∷ []) value) value default_port) _
      (authority_parts-IsWritten (strip_prefix (b'[' ∷ []) value) value default_port refl)
      λ (host, port) written. map_target-Ensures (new host port) (
        Ensures-map (new host port)
          (λ t (valid, same_host, same_port). (
            valid,
            subst (λ x. IsWritten value default_port (x, t.port)) (sym same_host)
                (subst (λ n. IsWritten value default_port (host, n)) (sym same_port) written),
          ))
          (new-IsAuthority host port (GivesPort-le written.0 default_port port h written.1)))

pub authority_valid :
    (value : Text) (default_port : Option ℕ)
    → IsDefault default_port
    → Ensures IsAuthority (authority value default_port)
authority_valid value default_port h =
    Ensures-map (authority value default_port) (λ t v. v.0)
      (authority-IsAuthority value default_port h)

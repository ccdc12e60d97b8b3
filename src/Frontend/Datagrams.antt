-- ===== src/Frontend/Datagrams.antt =====
-- SOCKS datagrams of src/runtime.rs: what is written is read back.
use zc.Prelude.{
  take-length-append, drop-length-append, ℕ, ◌+◌, ◌-◌, ◌/◌, ◌%◌, ◌≤◌, ◌≡◌, refl, sym, ap, ◌∙◌,
  subst, Bool, true, false, not, ◌||◌, some, [], ◌∷◌, ◌++◌, length, take, drop, is_some, leb, ltb,
  Result, ok, ◌>>=◌, ◌>>◌, guard, ok_or, ok_injective, arith, length-append, append_assoc,
}
use zc.Prelude.Text.{Text, decode_utf8, starts_with}
use zc.Target.{Target, from_socks}
use zc.Frontend.{
  map_target, slice, domain_host, datagram_host, max_wire_bytes, read_u16, udp_request, Address,
  destination, udp_response, too_long, not_utf8, truncated, bad_header,
}

-- The address of a name in SOCKS 5: type 3, the length, the name, and the port in network order.
abbrev pub name_address : Target → Text
name_address t = 3 ∷ length t.host ∷ t.host ++ ((t.port / 256) ∷ (t.port % 256) ∷ [])

drop-some : (before behind : Text) (n : ℕ) → n ≡ length before → drop n (before ++ behind) ≡ behind
drop-some before behind n h =
    ap (λ k. drop k (before ++ behind)) h ∙ drop-length-append before behind

-- The part between what stands before and behind it.
slice-some :
    (before part behind : Text) (first last : ℕ)
    → first ≡ length before
    → last ≡ length before + length part
    → slice first last (before ++ (part ++ behind)) ≡ some part
unfolding slice
slice-some before part behind first last hf hl =
    let fits : leb last (length (before ++ (part ++ behind))) ≡ true =
      ground (arith, length-append before (part ++ behind), length-append part behind) in
    let size : last - first ≡ length part = omega (arith, hf, hl) in
    rw fits (
      ap some (
        ap (take (last - first)) (drop-some before (part ++ behind) first hf)
        ∙ ap (λ k. take k (part ++ behind)) size
        ∙ take-length-append part behind))

port_bytes : (port : ℕ) → port ≤ 65535 → read_u16 ((port / 256) ∷ (port % 256) ∷ []) ≡ port
unfolding read_u16
port_bytes port h = omega (arith, h)

-- A datagram with the name's address.
abbrev datagram : Text → Text → Text → Text
datagram host port payload = 0 ∷ 0 ∷ 0 ∷ 3 ∷ length host ∷ (host ++ (port ++ payload))

abbrev lead : Text → Text
lead host = 0 ∷ 0 ∷ 0 ∷ 3 ∷ length host ∷ []

domain_host-datagram :
    (host port payload : Text)
    → is_some (decode_utf8 host) ≡ true
    → domain_host (datagram host port payload) ≡ ok (host, 5 + length host)
unfolding domain_host
domain_host-datagram host port payload utf8 =
    rw (slice-some (lead host) host (port ++ payload) 5 (5 + length host) refl refl)
      (ap (λ b. guard b not_utf8 >> ok (host, 5 + length host)) utf8)

guard-true : {E A : Type 0} (b : Bool) (e : E) (r : Result E A) → b ≡ true → (guard b e >> r) ≡ r
guard-true true e r h = refl
guard-true false e r h = cc

bind_ok :
    {E A B : Type 0} (r : Result E A) (f : A → Result E B) (a : A) → r ≡ ok a → (r >>= f) ≡ f a
bind_ok r f a h = ap (λ x. x >>= f) h

behind_port :
    (host port payload : Text)
    → length port ≡ 2
    → drop (5 + length host + 2) (datagram host port payload) ≡ payload
behind_port host port payload two =
    ap (λ x. drop (5 + length host + 2) (0 ∷ 0 ∷ 0 ∷ 3 ∷ length host ∷ x))
      (sym (append_assoc host port payload))
    ∙ drop-some (lead host ++ (host ++ port)) payload (5 + length host + 2)
        (omega (arith, two, length-append host port))

header_fits : (n : ℕ) → n ≤ max_wire_bytes → not (ltb max_wire_bytes n || false) ≡ true
header_fits n h = ground arith

udp_request-datagram :
    (t : Target) (port payload : Text)
    → length port ≡ 2
    → read_u16 port ≡ t.port
    → from_socks t.host t.port ≡ ok t
    → is_some (decode_utf8 t.host) ≡ true
    → length (datagram t.host port payload) ≤ max_wire_bytes
    → udp_request (datagram t.host port payload) ≡ ok (t, payload)
unfolding udp_request datagram_host map_target
udp_request-datagram t port payload two number valid utf8 fits =
    let d = datagram t.host port payload in
    guard-true (not (ltb max_wire_bytes (length d) || not (starts_with (0 ∷ 0 ∷ 0 ∷ []) d)))
      bad_header _ (header_fits (length d) fits)
    ∙ bind_ok (domain_host d) _ (t.host, 5 + length t.host)
        (domain_host-datagram t.host port payload utf8)
    ∙ bind_ok (ok_or truncated (slice (5 + length t.host) (5 + length t.host + 2) d)) _ port (
        ap (ok_or truncated) (
          slice-some (lead t.host ++ t.host) port payload (5 + length t.host)
            (5 + length t.host + 2) (omega arith) (omega (arith, two))))
    ∙ bind_ok (map_target (from_socks t.host (read_u16 port))) _ t
        (ap (λ p. map_target (from_socks t.host p)) number ∙ ap map_target valid)
    ∙ ap (λ rest. ok (t, rest)) (behind_port t.host port payload two)

ok-guard :
    {E A : Type 0} (b : Bool) (e : E) (a : A) {r : A}
    → (guard b e >> ok a) ≡ ok r
    → (b ≡ true) × (a ≡ r)
ok-guard true e a h = (refl, ok_injective h)
ok-guard false e a h = cc

-- A datagram that `udp_response` writes for a target whose destination is written in the format of SOCKS 5 for
-- names is read back by `udp_request` as that target and payload.
pub udp_request-udp_response :
    (write : Address → Text) (t : Target) (payload out : Text)
    → write (destination t) ≡ name_address t
    → from_socks t.host t.port ≡ ok t
    → is_some (decode_utf8 t.host) ≡ true
    → t.port ≤ 65535
    → udp_response write t payload ≡ ok out
    → udp_request out ≡ ok (t, payload)
unfolding udp_response
udp_request-udp_response write t payload out format valid utf8 small written =
    let port = (t.port / 256) ∷ (t.port % 256) ∷ [] in
    let (room, same) = ok-guard _ too_long _ written in
    let shape : out ≡ datagram t.host port payload =
      sym same
      ∙ ap (λ a. (0 ∷ 0 ∷ 0 ∷ []) ++ a ++ payload) format
      ∙ ap (λ x. 0 ∷ 0 ∷ 0 ∷ 3 ∷ length t.host ∷ x) (append_assoc t.host port payload) in
    let whole = length-append ((0 ∷ 0 ∷ 0 ∷ []) ++ write (destination t)) payload in
    ap udp_request shape
    ∙ udp_request-datagram t port payload refl (port_bytes t.port small) valid utf8
        (subst (λ d. length d ≤ max_wire_bytes) (same ∙ shape) (ground (arith, whole)))

-- ===== src/Target/Names.antt =====
-- What src/target.rs lets through as a destination.
use zc.Prelude.{
  ℕ, ◌+◌, ◌<◌, ◌≤◌, ◌≡◌, refl, sym, ap, subst, ◌∙◌, Bool, true, not, ◌&&◌, ◌||◌, Option, none, some,
  List, [], ◌∷◌, ◌++◌, length, all, is_empty, ltb, ◌==◌, Ensures, Ensures-pure, Ensures-guard,
  arith, ◌⊎◌, inl, inr, length-append,
}
use zc.Prelude.Text.{Text, split, strip_suffix}
use zc.Prelude.Text.Pieces.{all-append, all-split, strip_suffix-some}
use zc.IpAddr.{IpAddr, parse_ip}
use zc.Target.{
  Target, zero_port, not_a_name, is_label_byte, is_label, is_domain, without_dot, is_host, new,
}

-- A byte of a name: no blank, no line break and no other separator is one.
unfoldable pub is_name_byte : ℕ → Bool
is_name_byte b = is_label_byte b || b == b'.'

pub record IsName (host : Text) : Type 0 where
  pub nonempty : 0 < length host
  pub short : length host ≤ 254
  pub name_bytes : all is_name_byte host ≡ true

pub record IsTarget (host : Text) (port : ℕ) (t : Target) : Type 0 where
  pub host_kept : t.host ≡ host
  pub port_kept : t.port ≡ port
  pub positive : 0 < port
  pub named : ((ip : IpAddr) × (parse_ip host ≡ some ip)) ⊎ IsName host

label_bytes : (label : Text) → is_label label ≡ true → all is_label_byte label ≡ true
unfolding is_label
label_bytes label h = ground arith

labels_bytes :
    (labels : List Text) → all is_label labels ≡ true → all (all is_label_byte) labels ≡ true
labels_bytes [] h = refl
labels_bytes (label ∷ labels) h = ground (arith, label_bytes label, labels_bytes labels)

-- The name without its last dot.
domain-IsName :
    (domain : Text)
    → (not (is_empty domain) && not (ltb 253 (length domain)) && all is_label (split b'.' domain))
      ≡ true
    → (0 < length domain) × (length domain ≤ 253) × (all is_name_byte domain ≡ true)
unfolding is_name_byte
domain-IsName [] h = cc
domain-IsName (b ∷ s) h = (
  omega arith,
  ground arith,
  all-split is_label_byte b'.' (b ∷ s) (labels_bytes (split b'.' (b ∷ s)) (ground arith)),
)

suffix-IsName :
    (suffix : Option Text) (host : Text)
    → strip_suffix (b'.' ∷ []) host ≡ suffix
    → (not (is_empty (without_dot suffix host))
        && not (ltb 253 (length (without_dot suffix host)))
        && all is_label (split b'.' (without_dot suffix host)))
      ≡ true
    → IsName host
unfolding without_dot is_name_byte is_label_byte
suffix-IsName none host e h =
    let (ne, short, bs) = domain-IsName host h in
    record { nonempty = ne; short = omega (arith, short); name_bytes = bs }
suffix-IsName (some domain) host e h =
    let (ne, short, bs) = domain-IsName domain h in
    let whole : host ≡ domain ++ b'.' ∷ [] = strip_suffix-some b'.' host domain e in
    let size : length host ≡ length domain + 1 =
      ap (λ x. length x) whole ∙ length-append domain (b'.' ∷ []) in
    record {
      nonempty = omega (arith, size);
      short = omega (arith, size, short);
      name_bytes =
          subst (λ x. all is_name_byte x ≡ true) (sym whole)
            (all-append is_name_byte domain (b'.' ∷ []) bs refl);
    }

is_host-named :
    (ip : Option IpAddr) (host : Text)
    → parse_ip host ≡ ip
    → is_host ip host ≡ true
    → ((a : IpAddr) × (parse_ip host ≡ some a)) ⊎ IsName host
unfolding is_host is_domain
is_host-named (some a) host e h = inl (a, e)
is_host-named none host e h = inr (suffix-IsName (strip_suffix (b'.' ∷ []) host) host refl h)

-- What `Target::new` accepts is the host and the port that it was given. The port is not zero, and the
-- host is an address or a name of 1 to 254 bytes, each a letter, a digit, a dash or a dot.
pub new-IsTarget : (host : Text) (port : ℕ) → Ensures (IsTarget host port) (new host port)
unfolding new
new-IsTarget host port = Ensures-guard (not (port == 0)) zero_port _ λ positive.
    Ensures-guard (is_host (parse_ip host) host) not_a_name _ λ named.
      Ensures-pure (IsTarget host port) _ (record {
        host_kept = refl;
        port_kept = refl;
        positive = ground arith;
        named = is_host-named (parse_ip host) host refl named;
      })

-- ===== src/IpAddr/Display.antt =====
-- `to_string` of `std::net::IpAddr`.
use zc.Prelude.{
  ℕ, zero, suc, ◌+◌, ◌-◌, ◌/◌, ◌%◌, Bool, ◌&&◌, List, [], ◌∷◌, ◌++◌, take, drop, ltb, ◌==◌,
  if◌then◌else◌, all,
}
use zc.Prelude.Text.{Text, decimal}
use zc.IpAddr.{IpAddr, v4, v6}

-- The parts with a separator between them.
joined : ℕ → List Text → Text
joined c [] = []
joined c (part ∷ []) = part
joined c (part ∷ other ∷ parts) = part ++ c ∷ joined c (other ∷ parts)

decimals : List ℕ → List Text
decimals [] = []
decimals (n ∷ ns) = decimal n ∷ decimals ns

unfoldable pub show_v4 : List ℕ → Text
unfolding joined decimals decimal
show_v4 octets = joined b'.' (decimals octets)

hex_digit : ℕ → ℕ
hex_digit n = if ltb n 10 then n + b'0' else n - 10 + b'a'

-- `{:x}` of a group of 16 bits.
hex_from : ℕ → ℕ → Text → Text
unfolding hex_digit
hex_from zero n tail = tail
hex_from (suc fuel) n tail =
    let more = hex_from fuel (n / 16) (hex_digit (n % 16) ∷ tail) in
    if ltb n 16 then hex_digit n ∷ tail else more

hexes : List ℕ → List Text
unfolding hex_from
hexes [] = []
hexes (n ∷ ns) = hex_from 4 n [] ∷ hexes ns

-- The first of the longest runs of zero groups: where it starts and how long it is.
longest_zeros : List ℕ → ℕ → ℕ × ℕ → ℕ × ℕ → ℕ × ℕ
longest_zeros [] i current longest = longest
longest_zeros (n ∷ ns) i current longest =
    let next : ℕ × ℕ = (if current.1 == 0 then i else current.0, current.1 + 1) in
    let wider = longest_zeros ns (i + 1) next (if ltb longest.1 next.1 then next else longest) in
    let none_here = longest_zeros ns (i + 1) (0, 0) longest in if n == 0 then wider else none_here

octets_of : List ℕ → List ℕ
octets_of [] = []
octets_of (n ∷ ns) = (n / 256) ∷ (n % 256) ∷ octets_of ns

-- `to_ipv4_mapped`
is_mapped : List ℕ → Bool
is_mapped groups =
    all (λ n. n == 0) (take 5 groups) && all (λ n. n == 65535) (take 1 (drop 5 groups))

unfoldable pub show_v6 : List ℕ → Text
unfolding show_v4 octets_of is_mapped longest_zeros hexes joined
show_v6 groups =
    let zeros = longest_zeros groups 0 (0, 0) (0, 0) in
    let mapped = b':' ∷ b':' ∷ b'f' ∷ b'f' ∷ b'f' ∷ b'f' ∷ b':' ∷ [] in
    if is_mapped groups
    then mapped ++ show_v4 (octets_of (drop 6 groups))
    else if ltb 1 zeros.1
    then joined b':' (hexes (take zeros.0 groups))
      ++ b':' ∷ b':' ∷ joined b':' (hexes (drop (zeros.0 + zeros.1) groups))
    else joined b':' (hexes groups)

unfoldable pub show_ip : IpAddr → Text
unfolding show_v4 show_v6
show_ip (v4 octets) = show_v4 octets
show_ip (v6 groups) = show_v6 groups

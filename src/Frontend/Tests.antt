-- ===== src/Frontend/Tests.antt =====
-- The parsers of src/runtime.rs at concrete values.
use zc.Prelude.{◌≡◌, refl, none, some, [], ◌∷◌, ◌++◌, ok, err, arith}
use zc.Prelude.Text.{Text, bytes, decode_utf8}
use zc.Target.{Target, from_socks}
use zc.Frontend.{
  Address, socket_address, domain_name_address, destination, authority, missing_port, udp_request,
  udp_response,
}
use zc.Frontend.Datagrams.{name_address, udp_request-udp_response}

reads_an_authority :
    authority (bytes "[::1]:8443") (some 80) ≡ ok (record { host = bytes "::1"; port = 8443 })
unfolding authority
reads_an_authority = refl

needs_a_port : authority (bytes "example.com") none ≡ err missing_port
unfolding authority
needs_a_port = refl

abbrev site : Target
site = record { host = bytes "example.com"; port = 443 }

abbrev written : Text
written = (0 ∷ 0 ∷ 0 ∷ []) ++ name_address site ++ bytes "hi"

abbrev write_name : Address → Text
write_name (domain_name_address host port) = name_address (record { host = host; port = port })
write_name (socket_address ip port) = []

is_written : udp_response write_name site (bytes "hi") ≡ ok written
unfolding udp_response
is_written = refl

udp_request-udp_response_example : udp_request written ≡ ok (site, bytes "hi")
udp_request-udp_response_example =
    udp_request-udp_response write_name site (bytes "hi") written (unfold destination in refl)
      (unfold from_socks in refl) (unfold decode_utf8 in refl) (omega arith) is_written

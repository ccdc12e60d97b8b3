-- ===== src/Lib.antt =====
-- zc: a proxy runtime. A client's connection comes in over HTTP or SOCKS, is registered, routed by
-- the configuration's rules to a proxy or a group of proxies, and is relayed over an outbound
-- transport. This library models parts of the Rust program under src/.
--
-- * Prelude and its children: `Option` and `Result` with `?` as `>>=`, lists and ordered maps, and
--   the text functions of Rust's standard library on byte strings.
-- * Anytls (src/anytls.rs): one AnyTLS session. Anytls.Io has the errors and the scripted
--   transport, Anytls.Frame the framing (`append_frame`), Anytls.Padding the padding scheme
--   (`fields`, `number`, `Padding::parse`, `packets`, `random_size`), Anytls.Session the state
--   `AnyTls` and its write path (`queue`, `drain`, `fail`, `finish`), Anytls.Receive the loop of
--   `receive`, Anytls.Polls `poll_read`, `poll_write`, `poll_flush`, `poll_shutdown` and `open`.
--   The proofs stand in Anytls.Padding's children, in Anytls.Outgoing for the write side and
--   Anytls.Incoming for the read side.
-- * Target (src/target.rs): a destination and its checks, `new` and `from_socks`, over IpAddr, the
--   standard library's parser of IP addresses, whose printer is IpAddr.Display; Target.Names has
--   the proof.
-- * GeoIp (src/config.rs): the table of `geoip_country` and its first match.
-- * Dns (src/dns.rs): `validate_config` and `resolve_inner`; Dns.Answers has the proof.
-- * Registry (src/connection.rs): Registry.State has the entries and every call that changes them
--   (`register`, `close`, the methods of `Guard` and its drop); a run is a list of calls, since
--   each holds the lock to its end. Registry.Ids, Registry.Live, Registry.Numbers and
--   Registry.Closing have the proofs.
-- * Registry.Probes (src/connection/probes.rs): the request tickets and every call on them, with
--   the time as an argument; its children have the tokens, the invariant, and what becomes of a
--   ticket.
-- * Obfs (src/simple_obfs.rs): the HTTP envelope of simple-obfs. Obfs has the state and the write
--   side (`drain`, `poll_write`, `poll_flush`, `poll_shutdown`), Obfs.Read `poll_read`; Obfs.Wire
--   has the proof of the write side, Obfs.Reading and Obfs.Runs that of the read side.
-- * Frontend (src/runtime.rs): `authority`, `same_target`, `udp_request` and `udp_response` with
--   `destination` of src/outbound.rs, with
--   proofs in Frontend.Accepted and Frontend.Datagrams.
-- * Http (src/runtime.rs): Http has the records, Http.Lines `http_line` and `http_header` over a
--   reader that gives its bytes in chunks, and Http.Requests `http_request`, with the target of a
--   request in Http.Origins, the loop over its fields in Http.Scanning and what is sent on in
--   Http.Writing. Http.Handshake puts these together as `http_handshake`. Http.Chunked has the
--   checks of `copy_chunked` and its child Copy the loop, as a `Relay`: what was written, also
--   before an error. Proofs: Http.Fields, Http.Nominated and Http.Forwarded for requests, Lines.Flat,
--   Lines.Headers, Lines.Bounded and Lines.Exact for lines; for bodies the grammar of
--   Chunked.Grammar, against which Chunked.Checks, Chunked.Copied and Chunked.Complete set the
--   code.
-- * Config (src/config.rs): Config.Rules has `Rule::parse`, Config.Proxies `RawProxy::build`, and
--   Config.Groups the graph of proxy groups, its check in `resolve_groups` and `resolve_proxy`; its
--   children follow the invariant of the search to what an accepted graph means. Config.Selections
--   has `selection`, `select`, `set_selections` and `selected`. Config.Assembly puts these together
--   as `Config::parse_inner` does, from `RawConfig` on, with the settings in its child Settings.
--   Config.Routing has `route_inner`, with Routing.Led for where a rule leads, Routing.Dialed for what is dialed and Routing.First for
--   the description that it agrees with.
--
-- Polls of the transport are a script: each poll takes the next event, so that a theorem over all
-- scripts covers every chunking, wait and failure. The random source is a list of draws. Hash
-- functions, IP networks, the DNS resolver and its permits, the parser of HTTP messages, tokio's copies and exact
-- reads, TLS server names and the SOCKS address writer of other crates are parameters; writers of HTTP bodies take all bytes. The loop of
-- `receive` makes 32 rounds in the source too, and the discarding loop 16. The search over the
-- groups has one round for each group and each of its members as fuel, and one more, and
-- `http_header` one line for each byte that a header may have, and one more; that these are enough
-- is part of their theorems. `copy_chunked` makes 262144 rounds in the source too. Numbers of 64
-- bits have their bound written out.
--
-- Not modelled: the reading of YAML documents, rule providers and their files, the JSON views of
-- the registry and of the configuration, the UDP sessions, HTTP responses, the SOCKS conversation
-- beyond its datagrams, the control API, the command line, files, services and logs. Wakers, timers
-- and locks appear only through the results that they give.
pub mod Prelude
pub mod Anytls
pub mod IpAddr
pub mod GeoIp
pub mod Target
pub mod Dns
pub mod Registry
pub mod Obfs
pub mod Frontend
pub mod Http
pub mod Config

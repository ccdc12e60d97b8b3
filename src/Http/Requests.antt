-- ===== src/Http/Requests.antt =====
-- `http_request` of src/runtime.rs.
use zc.Prelude.{
  ℕ, Bool, not, ◌&&◌, none, some, all, is_some, if◌then◌else◌, Result, ok, ◌>>=◌, ◌>>◌, guard,
  ok_or,
}
use zc.Prelude.Text.{Text, bytes, text_eq}
use zc.Target.{Target}
use zc.Frontend.{FrontError, bad_request, bad_framing}
use zc.Http.{Request, HttpRequest}
use zc.Http.Origins.{is_path_byte, default_port, request_target}
use zc.Http.Scanning.{no_fields, is_version_1, scan_fields}
use zc.Http.Writing.{forward_of}

unfoldable pub host_port : Bool → Target → Text → ℕ
unfolding default_port
host_port connect target path = if connect then target.port else default_port path

-- `http_request`
unfoldable pub http_request : Request → Result FrontError HttpRequest
unfolding is_path_byte request_target host_port scan_fields is_version_1 forward_of text_eq
http_request request = do
  method ← ok_or bad_request request.method
  path ← ok_or bad_request request.path
  guard (all is_path_byte path) bad_request
  let connect = text_eq method (bytes "CONNECT")
  (target, origin) ← request_target connect path request.headers
  s ←
      scan_fields
        (record {
          connect = connect;
          version = request.version;
          target = target;
          port = host_port connect target path;
        })
        request.headers no_fields
  guard (not (s.chunked && is_some s.length)) bad_framing
  guard (not (s.trailers && not s.chunked)) bad_framing
  guard (not (is_version_1 request.version && not s.host_seen)) bad_request
  ok (
      if connect then record { target = target; forward = none; probe_token = none } else record {
        target = target;
        forward = some (forward_of method path origin request target s);
        probe_token = s.probe_token;
      })

-- ===== src/Connect/Errors.antt =====
-- `RpcError`, `ErrorFromResponse` and `TransportError`: src/connect_client.h and
-- src/connect_client.cpp.
use goradio_samp.Base.{
  ℕ, Bool, false, ◌&&◌, ◌||◌, [], ◌++◌, ◌==◌, ltb, if◌then◌else◌, Bytes, codes, equal, length, take,
}
use goradio_samp.Base.Int.{ℤ, pos, negsuc}
use goradio_samp.Clib.{c_str}
use goradio_samp.Clib.Decimal.{print_ℤ}
use goradio_samp.Json.Value.{is_object, has, get_str}
use goradio_samp.Json.Parser.{Parsed, parsed, failed, parse}
use goradio_samp.Http.Headers.{HttpResponse}

pub record RpcError : Type 0 where
  pub code : Bytes
  pub message : Bytes
  pub http_status : ℤ

-- `permanent()`
unfoldable pub is_permanent : RpcError → Bool
is_permanent e =
    equal e.code (codes "unauthenticated")
    || equal e.code (codes "permission_denied")
    || equal e.code (codes "invalid_argument")

unfoldable pub transport_error : Bytes → RpcError
transport_error message = record {
  code = codes "unavailable";
  message = message;
  http_status = pos 0;
}

abbrev pub internal : Bytes
internal = codes "internal"

abbrev is_status : ℤ → ℕ → Bool
is_status (pos n) k = n == k
is_status (negsuc n) k = false

-- At most 200 bytes of a body that is no Connect error.
abbrev shortened : Bytes → Bytes
shortened text = if ltb 200 (length text) then take 200 text ++ codes "..." else text

abbrev plain_message : HttpResponse → Bytes
plain_message resp =
    if is_status resp.status 404
    then codes "no such RPC on the audio server (check the plugin's service path)"
    else if is_status resp.status 405
    then codes "audio server rejected the request method"
    else codes "HTTP "
      ++ (print_ℤ resp.status ++ (codes " from audio server: " ++ c_str (shortened resp.body)))

abbrev plain_error : HttpResponse → RpcError
plain_error resp = record {
  code = internal;
  message = plain_message resp;
  http_status = resp.status;
}

abbrev error_of : HttpResponse → Parsed → RpcError
error_of resp (failed e) = plain_error resp
error_of resp (parsed body) =
    if is_object body && has body (codes "code")
    then record {
      code = get_str body (codes "code") [];
      message = get_str body (codes "message") [];
      http_status = resp.status;
    }
    else plain_error resp

unfoldable pub error_from_response : HttpResponse → RpcError
unfolding parse has get_str print_ℤ c_str
error_from_response resp = error_of resp (parse resp.body)

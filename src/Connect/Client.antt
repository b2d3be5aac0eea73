-- ===== src/Connect/Client.antt =====
-- `ConnectClient`: src/connect_client.h and src/connect_client.cpp.
use goradio_samp.Base.{Bool, false, List, [], ◌∷◌, ◌++◌, ◌==◌, if◌then◌else◌, Bytes, codes}
use goradio_samp.Base.Int.{ℤ, pos, negsuc}
use goradio_samp.Clib.{Platform}
use goradio_samp.Json.Value.{JsonValue}
use goradio_samp.Json.Parser.{Parsed, parsed, failed, parse}
use goradio_samp.Http.Url.{Url, Outcome, ok, err}
use goradio_samp.Http.Wire.{Dial}
use goradio_samp.Http.Headers.{HeaderList, HttpResponse}
use goradio_samp.Http.Connection.{HttpConnection, new_connection, post}
use goradio_samp.Connect.Errors.{RpcError, transport_error, error_from_response}

abbrev pub service_path : Bytes
service_path = codes "/audioserver.v1.AudioServerService/"

pub record ConnectClient : Type 0 where
  pub conn : HttpConnection
  pub token : Bytes

unfoldable pub new_client : Platform → Url → Bytes → ℤ → List Dial → ConnectClient
unfolding new_connection
new_client p url token timeout_ms dials = record {
  conn = new_connection p url timeout_ms dials;
  token = token;
}

-- The headers of a request with this content type.
abbrev pub rpc_headers : Bytes → Bytes → HeaderList
rpc_headers content_type token =
    (codes "Content-Type", content_type)
    ∷ (codes "Connect-Protocol-Version", codes "1")
    ∷ (codes "Authorization", codes "Bearer " ++ token)
    ∷ []

-- The outcome of an RPC, for whoever calls it.
pub data Reply : Type 0 where
  reply : JsonValue → Reply
  rpc_error : RpcError → Reply

abbrev pub is_ok_status : ℤ → Bool
is_ok_status (pos n) = n == 200
is_ok_status (negsuc n) = false

abbrev parsed_reply : Bytes → Parsed → Reply
parsed_reply rpc (parsed v) = reply v
parsed_reply rpc (failed e) =
    rpc_error (transport_error (codes "could not parse " ++ (rpc ++ (codes " response: " ++ e))))

unfoldable pub reply_of : Bytes → Outcome HttpResponse → Reply
unfolding parse error_from_response transport_error
reply_of rpc (err e) = rpc_error (transport_error e)
reply_of rpc (ok resp) =
    if is_ok_status resp.status
    then parsed_reply rpc (parse resp.body)
    else rpc_error (error_from_response resp)

abbrev replied :
    ConnectClient → Bytes → HttpConnection × Outcome HttpResponse → ConnectClient × Reply
replied c rpc (conn, r) = (record c { conn = conn }, reply_of rpc r)

unfoldable pub call : Platform → ConnectClient → Bytes → Bytes → ConnectClient × Reply
unfolding post reply_of
call p c rpc request_json = replied c rpc (
    post p (service_path ++ rpc) (rpc_headers (codes "application/json") c.token) request_json
      c.conn)

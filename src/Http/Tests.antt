-- ===== src/Http/Tests.antt =====
-- Runs of the URL parser and of the connection.
use goradio_samp.Base.{
  ◌≡◌, refl, [], ◌∷◌, Bytes, codes, true, false, List, ◌^◌, ◌-◌, ◌+◌, ◌≤◌, arith, if◌then◌else◌,
  some, split_first,
}
use goradio_samp.Base.{take, drop}
use goradio_samp.Http.Reader.{body_length, read_full_body}
use goradio_samp.Http.FullBody.{read_full_body-length}
use goradio_samp.Base.Int.{pos}
use goradio_samp.Clib.{Platform}
use goradio_samp.Http.Url.{Url, parse_url, ok}
use goradio_samp.Http.Valid.{IsUsable, parse_url-IsUsable}
use goradio_samp.Http.Wire.{Recv, bytes, timed_out, sent, accepted}
use goradio_samp.Http.Connection.{HttpConnection, new_connection, post, is_connected}
use goradio_samp.Http.Reader.{Reader, body_none, read_line, line, strip_cr}
use goradio_samp.Http.Lines.{coming, read_line-Flows}
use goradio_samp.Http.Requests.{requests, post-log}

abbrev plain_build : Platform
plain_build = record {
  atoi_overflow = λ s. pos 7;
  strtod_nonzero = λ s. true;
  ulong_max = 2 ^ 32 - 1;
  tls_supported = false;
}

parse_url_full :
    parse_url plain_build (codes "http://radio.example:9090/base/ ")
    ≡ ok (record {
      scheme = codes "http";
      host = codes "radio.example";
      port = pos 9090;
      base_path = codes "/base";
    })
unfolding parse_url
parse_url_full = refl

parse_url_bare :
    parse_url plain_build (codes "localhost:9090")
    ≡ ok (record {
      scheme = codes "http";
      host = codes "localhost";
      port = pos 9090;
      base_path = [];
    })
unfolding parse_url
parse_url_bare = refl

abbrev chunks : Bytes → Recv
chunks [] = timed_out
chunks (c ∷ s) = bytes c s

abbrev server : Url
server = record { scheme = codes "http"; host = codes "h"; port = pos 80; base_path = [] }

abbrev good_reply : List Recv
good_reply =
    chunks (codes "HTTP/1.1 200 OK\r\nTransfer-Enc")
    ∷ chunks (codes "oding: chunked\r\n\r\n3\r\nab")
    ∷ chunks (codes "c\r\n2;x\r\nde\r\n0\r\n\r\n")
    ∷ []

abbrev idle_connection : HttpConnection
idle_connection =
    new_connection plain_build server (pos 1000) (accepted (sent ∷ []) good_reply ∷ [])

post_chunked :
    (post plain_build (codes "/p") [] (codes "{}") idle_connection).1
    ≡ ok (record {
      status = pos 200;
      headers = (codes "transfer-encoding", codes "chunked") ∷ [];
      body = codes "abcde";
    })
unfolding post new_connection
post_chunked = refl

abbrev full_url : Url
full_url = record {
  scheme = codes "http";
  host = codes "radio.example";
  port = pos 9090;
  base_path = codes "/base";
}

parse_url-IsUsable_example : IsUsable full_url
parse_url-IsUsable_example =
    parse_url-IsUsable plain_build (codes "http://radio.example:9090/base/ ") full_url
      parse_url_full

post-log_example :
    requests (post plain_build (codes "/p") [] (codes "{}") idle_connection).0
    ≤ requests idle_connection + (if is_connected idle_connection then 2 else 1)
post-log_example = post-log plain_build (codes "/p") [] (codes "{}") idle_connection

abbrev cut_line : Reader
cut_line = record {
  buf = codes "xHT";
  buf_pos = 1;
  recvs = chunks (codes "TP\r") ∷ chunks (codes "\nrest") ∷ [];
  body_mode = body_none;
  body_remaining = 0;
  chunk_need_size = true;
  body_done = true;
}

cut_line_split : split_first 10 (coming cut_line) ≡ some (codes "HTTP\r", codes "rest")
unfolding split_first
cut_line_split = refl

read_line-Flows_example :
    ((read_line cut_line).1 ≡ line (strip_cr (codes "HTTP\r")))
    × (coming (read_line cut_line).0 ≡ codes "rest")
read_line-Flows_example =
    read_line-Flows cut_line (codes "HTTP\r") (codes "rest") (omega arith) tt cut_line_split

abbrev cut_body : Reader
cut_body = record cut_line { body_mode = body_length; body_remaining = 6; body_done = false }

read_full_body-length_example :
    ((read_full_body cut_body).1 ≡ ok (take 6 (coming cut_body)))
    × (coming (read_full_body cut_body).0 ≡ drop 6 (coming cut_body))
read_full_body-length_example =
    read_full_body-length cut_body 6 refl refl refl (omega arith) tt (omega arith)

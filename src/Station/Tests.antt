-- ===== src/Station/Tests.antt =====
-- The registration request of a concrete station.
use goradio_samp.Base.{◌≡◌, refl, [], codes, false}
use goradio_samp.Base.Int.{pos}
use goradio_samp.Json.Value.{JsonValue}
use goradio_samp.Json.Parser.{parse, parsed}
use goradio_samp.Station.{Station, no_status, register_request_json}
use goradio_samp.Station.Registered.{Tells, parse-register_request_json}

abbrev jazz : Station
jazz = record {
  id = 3;
  slug = codes "jazz";
  name = codes "The \"Jazz\"";
  description = [];
  logo_url = codes "http://x/y.png";
  metadata = [];
  low_queue_threshold = pos 2;
  stream_url = [];
  registered = false;
  stopping = false;
  status = no_status;
}

parse-register_request_json_example :
    (v : JsonValue) × (parse (register_request_json jazz) ≡ parsed v) × Tells v jazz
parse-register_request_json_example = parse-register_request_json jazz refl

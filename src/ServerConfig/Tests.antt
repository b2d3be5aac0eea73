-- ===== src/ServerConfig/Tests.antt =====
-- Runs of the reader of server.cfg.
use goradio_samp.Base.{◌≡◌, refl, List, [], ◌∷◌, Bytes, codes, some, true, false, ◌^◌, ◌-◌}
use goradio_samp.Base.Int.{pos}
use goradio_samp.Clib.{Platform}
use goradio_samp.Manager.State.{default_config}
use goradio_samp.ServerConfig.{read_server_cfg}
use goradio_samp.ServerConfig.Unfound.{read_server_cfg-unfound}

abbrev wide_build : Platform
wide_build = record {
  atoi_overflow = λ s. pos 7;
  strtod_nonzero = λ s. true;
  ulong_max = 2 ^ 64 - 1;
  tls_supported = true;
}

abbrev good_file : List Bytes
good_file =
    codes "# radio"
    ∷ codes "goradio_token  secret \r"
    ∷ codes "\tgoradio_poll_interval 7"
    ∷ codes "hostname x"
    ∷ []

read_server_cfg_good : read_server_cfg wide_build (some good_file) default_config false ≡ record {
  config = record default_config { token = codes "secret"; poll_interval_ms = pos 7000 };
  debug = false;
  found_any = true;
}
unfolding read_server_cfg
read_server_cfg_good = refl

abbrev other_file : List Bytes
other_file = codes "hostname x" ∷ codes ";goradio_token t" ∷ []

other_unfound : (read_server_cfg wide_build (some other_file) default_config true).found_any ≡ false
unfolding read_server_cfg
other_unfound = refl

read_server_cfg-unfound_example :
    read_server_cfg wide_build (some other_file) default_config true
    ≡ record { config = default_config; debug = true; found_any = false }
read_server_cfg-unfound_example =
    read_server_cfg-unfound wide_build (some other_file) default_config true other_unfound

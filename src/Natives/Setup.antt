-- ===== src/Natives/Setup.antt =====
-- The natives of the setup: src/natives.cpp. The log lines are left out.
use goradio_samp.Base.{Bool, true, false, not, Option, none, some, if◌then◌else◌, Bytes, is_empty}
use goradio_samp.Base.Int.{ℤ, pos}
use goradio_samp.Manager.State.{ManagerConfig, default_config}
use goradio_samp.Manager.Setup.{
  configure, reload, ReloadResult, reload_applied, reload_partial, reload_failed,
}
use goradio_samp.ServerConfig.{Settings, read_server_cfg}
use goradio_samp.Amx.Exports.{Exports, World}
use goradio_samp.Amx.Strings.{amx_read_string, amx_write_string}
use goradio_samp.Natives.Args.{
  Env, Native, guarded, check_args, text_param, with_manager, write_string_result, cell_of,
}

abbrev pub is_none : Option Bytes → Bool
is_none none = true
is_none (some e) = false

-- The numbers of `ReloadResult`.
abbrev pub reload_cell : ReloadResult → ℤ
reload_cell (reload_failed e) = pos 0
reload_cell reload_applied = pos 1
reload_cell reload_partial = pos 2

abbrev pub some_text : Bytes → Option Bytes
some_text text = if is_empty text then none else some text

abbrev pub server_config : Bytes → Bytes → ManagerConfig
server_config url token = record default_config { server_url = url; token = token }

module _ (E : Exports) where
  abbrev pub set_server : Native E
  set_server env amx params w =
      let config = server_config (text_param E w amx params 1) (text_param E w amx params 2) in
      let (m, e) = configure env.platform w.session.manager config in
      (with_manager E w m, cell_of (is_none e))

  unfoldable pub n_set_server : Native E
  unfolding configure check_args amx_read_string
  n_set_server = guarded E 2 (pos 0) set_server

  unfoldable pub n_is_ready : Native E
  n_is_ready env amx params w = (w, cell_of w.session.manager.configured)

  -- The debug flag is applied before the settings are.
  abbrev pub reload_with : Env → World E → Settings → World E × ℤ
  reload_with env w st =
      if not st.found_any
      then (w, pos 0)
      else (let (m, r) = reload env.platform w.session.manager st.config in
          (record w { session = record { manager = m; debug = st.debug } }, reload_cell r))

  unfoldable pub n_reload_config : Native E
  unfolding read_server_cfg reload
  n_reload_config env amx params w =
      reload_with env w (read_server_cfg env.platform env.cfg_file default_config false)

  abbrev pub get_server_version : Native E
  get_server_version env amx params w =
      write_string_result E amx params 1 2 (some_text w.session.manager.server_version) w

  unfoldable pub n_get_server_version : Native E
  unfolding check_args amx_write_string
  n_get_server_version = guarded E 2 (pos 0) get_server_version

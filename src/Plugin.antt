-- ===== src/Plugin.antt =====
-- The entry points of the plugin: src/plugin.cpp. The log lines are left out, and so is the start of
-- the socket library.
pub mod Delivered
pub mod Running
mod Toy
mod Tests
use goradio_samp.Base.{ℕ, ◌+◌, ◌^◌, Bool, true, false, not, List, Option, if◌then◌else◌, is_empty}
use goradio_samp.Base.Int.{ℤ, pos}
use goradio_samp.Manager.State.{Manager, default_config}
use goradio_samp.Manager.Setup.{configure, shutdown}
use goradio_samp.ServerConfig.{Settings, read_server_cfg}
use goradio_samp.Amx.Exports.{Exports, World, Session, amx_init}
use goradio_samp.Amx.Scripts.{amx_track_script, amx_forget_script, amx_forget_all_scripts}
use goradio_samp.Natives.Args.{Env, with_manager}
use goradio_samp.Natives.Table.{register_natives}
use goradio_samp.Natives.Events.{dispatch_pending_events}

-- `Supports`: SUPPORTS_VERSION, SUPPORTS_AMX_NATIVES and SUPPORTS_PROCESS_TICK, whose bits are apart.
abbrev pub supports : ℕ
supports = 2 ^ 9 + 2 ^ 16 + 2 ^ 17

-- What `Load` does with server.cfg: the flag is set where the file has settings, and the manager is
-- configured where one of them is a token.
abbrev pub load_config : Env → Session → Settings → Session
load_config env s st =
    if not st.found_any
    then s
    else if is_empty st.config.token
    then record s { debug = st.debug }
    else record { manager = (configure env.platform s.manager st.config).0; debug = st.debug }

module _ (E : Exports) where
  -- `Load`, of the table of entry points with the places that are set.
  unfoldable pub load : Env → Option (ℕ → Bool) → World E → World E × Bool
  unfolding amx_init read_server_cfg configure
  load env exports w =
      let s = record (w.session) { debug = false } in
      if not (amx_init exports) then (record w { session = s }, false) else (
        record w {
          session =
              load_config env s (read_server_cfg env.platform env.cfg_file default_config false);
        },
        true,
      )

  -- `Unload`; `joins` is what the other threads do while `Shutdown` waits for those of the stations.
  unfoldable pub unload : (Manager → Manager) → World E → World E
  unfolding shutdown
  unload joins w = record w {
    session = record (w.session) { manager = shutdown joins w.session.manager };
    scripts = amx_forget_all_scripts w.scripts;
  }

  -- `AmxLoad` and `AmxUnload`.
  unfoldable pub amx_load : ℕ → World E → World E × ℤ
  unfolding amx_track_script register_natives
  amx_load amx w = register_natives E amx (record w { scripts = amx_track_script amx w.scripts })

  unfoldable pub amx_unload : ℕ → World E → World E × ℤ
  unfolding amx_forget_script
  amx_unload amx w = (record w { scripts = amx_forget_script amx w.scripts }, pos 0)

  unfoldable pub process_tick : World E → World E
  unfolding dispatch_pending_events
  process_tick w = dispatch_pending_events E w

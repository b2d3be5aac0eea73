-- ===== src/Plugin/Running.antt =====
-- Every run of the plugin: its entry points, the natives that the scripts call, and the threads, in any
-- order: src/plugin.cpp, src/natives.cpp, src/amxutil.cpp and src/manager.cpp.
use goradio_samp.Base.{
  ℕ, Bool, true, false, not, ◌≡◌, refl, sym, List, [], ◌∷◌, Option, some, Bytes, get_elem?,
  if◌then◌else◌,
}
use std.Path.{subst}
use goradio_samp.Clib.{Platform}
use goradio_samp.Manager.State.{Manager, has_key, new_manager, default_config}
use goradio_samp.Manager.Registry.System.{Op, perform}
use goradio_samp.ServerConfig.{read_server_cfg}
use goradio_samp.Amx.Exports.{Exports, World, Session, amx_init}
use goradio_samp.Amx.Tracked.{
  NoRepeats, amx_track_script-NoRepeats, amx_forget_script-NoRepeats, amx_forget_script-gone,
}
use goradio_samp.Natives.Args.{Env, Native, Params, with_manager}
use goradio_samp.Natives.Table.{k_natives, register_natives}
use goradio_samp.Natives.Lawful.{k_natives-KeepsScripts}
use goradio_samp.Plugin.{load, load_config, unload, amx_load, amx_unload, process_tick}
use goradio_samp.Plugin.Delivered.{dispatch_pending_events-scripts}

abbrev pub env_at : Platform → ℕ → Option (List Bytes) → Env
env_at p now cfg = record { platform = p; now = now; cfg_file = cfg }

-- The state before `Load`, for a state of the server.
abbrev pub first_world : (E : Exports) → E.Server → World E
first_world E server = record {
  server = server;
  session = record { manager = new_manager; debug = false };
  scripts = [];
}

abbrev pub performed : Platform → List Op → Manager → Manager
performed p [] m = m
performed p (op ∷ ops) m = performed p ops (perform p op m)

-- The states of the plugin that some sequence of steps leads to. A native is called from outside of a
-- callback, too, the steps of other threads come between those of `unloads`, and `threads` is a step
-- of a worker, of a station's thread or of the poller.
pub data Runs (E : Exports) (p : Platform) : World E → Type 0 where
  begins : (server : E.Server) → Runs E p (first_world E server)
  loads :
      (now : ℕ) (cfg : Option (List Bytes)) (exports : Option (ℕ → Bool)) (w : World E)
      → Runs E p w
      → Runs E p (load E (env_at p now cfg) exports w).0
  unloads : (ops : List Op) (w : World E) → Runs E p w → Runs E p (unload E (performed p ops) w)
  script_loads : (amx : ℕ) (w : World E) → Runs E p w → Runs E p (amx_load E amx w).0
  script_unloads : (amx : ℕ) (w : World E) → Runs E p w → Runs E p (amx_unload E amx w).0
  ticks : (w : World E) → Runs E p w → Runs E p (process_tick E w)
  calls :
      (i : ℕ) (name : Bytes) (native : Native E) (now : ℕ) (cfg : Option (List Bytes)) (amx : ℕ)
      (params : Params) (w : World E)
      → get_elem? (k_natives E) i ≡ some (name, native)
      → Runs E p w
      → Runs E p (native (env_at p now cfg) amx params w).0
  threads :
      (op : Op) (w : World E)
      → Runs E p w
      → Runs E p (with_manager E w (perform p op w.session.manager))

load-scripts :
    (E : Exports) (env : Env) (exports : Option (ℕ → Bool)) (w : World E)
    → (load E env exports w).0.scripts ≡ w.scripts
unfolding load
load-scripts E env exports w = resolved (amx_init exports)
  where
    s : Session
    s = record (w.session) { debug = false }

    s' : Session
    s' = load_config env s (read_server_cfg env.platform env.cfg_file default_config false)

    resolved :
        (b : Bool)
        → (if◌then◌else◌ {A = World E × Bool}
            (not b)
            (record w { session = s }, false)
            (record w { session = s' }, true)).0.scripts
          ≡ w.scripts
    resolved false = refl
    resolved true = refl

Runs-NoRepeats : (E : Exports) (p : Platform) (w : World E) → Runs E p w → NoRepeats w.scripts
unfolding unload amx_load amx_unload process_tick register_natives
Runs-NoRepeats E p _ (begins server) = tt
Runs-NoRepeats E p _ (loads now cfg exports w r) =
    subst NoRepeats (sym (load-scripts E (env_at p now cfg) exports w)) (Runs-NoRepeats E p w r)
Runs-NoRepeats E p _ (unloads ops w r) = tt
Runs-NoRepeats E p _ (script_loads amx w r) =
    amx_track_script-NoRepeats amx w.scripts (Runs-NoRepeats E p w r)
Runs-NoRepeats E p _ (script_unloads amx w r) =
    amx_forget_script-NoRepeats amx w.scripts (Runs-NoRepeats E p w r)
Runs-NoRepeats E p _ (ticks w r) =
    subst NoRepeats (sym (dispatch_pending_events-scripts E w)) (Runs-NoRepeats E p w r)
Runs-NoRepeats E p _ (calls i name native now cfg amx params w e r) =
    subst NoRepeats (sym (k_natives-KeepsScripts E i name native e (env_at p now cfg) amx params w))
      (Runs-NoRepeats E p w r)
Runs-NoRepeats E p _ (threads op w r) = Runs-NoRepeats E p w r

-- In every run, once `AmxUnload` has returned the script is not among those that callbacks go to.
pub amx_unload-gone :
    (E : Exports) (p : Platform) (amx : ℕ) (w : World E)
    → Runs E p w
    → has_key amx (amx_unload E amx w).0.scripts ≡ false
unfolding amx_unload
amx_unload-gone E p amx w r = amx_forget_script-gone amx w.scripts (Runs-NoRepeats E p w r)

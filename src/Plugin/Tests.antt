-- ===== src/Plugin/Tests.antt =====
-- Runs of the plugin on a small AMX, and the theorems at concrete states.
use goradio_samp.Base.{
  ℕ, ◌≡◌, refl, List, [], ◌∷◌, Option, none, some, Bool, true, false, Bytes, codes, ◌==◌,
  if◌then◌else◌, arith, ◌^◌, ◌-◌, All, leb, map, ◌⊎◌,
}
use goradio_samp.Base.Int.{ℤ, pos, negsuc, ◌+ℤ◌, ◌≤ℤ◌}
use goradio_samp.Clib.{Platform}
use goradio_samp.Amx.Exports.{World}
use goradio_samp.Amx.Callback.{AmxCallback, new_callback, add_cell, add_text, invoke}
use goradio_samp.Amx.Balance.{Balanced, invoke-Balanced}
use goradio_samp.Amx.Scripts.{amx_track_script}
use goradio_samp.Manager.State.{PawnEvent, new_event, track_started, has_key}
use goradio_samp.Natives.Args.{clamp_cell, check_args}
use goradio_samp.Natives.Stations.{n_create_station}
use goradio_samp.Natives.Cells.{
  Fits, FitsArg, clamp_cell-nearest, check_args-count, callback_for-Fits,
}
use goradio_samp.Natives.Table.{k_natives, register_natives}
use goradio_samp.Natives.Declared.{declared}
use goradio_samp.Natives.Refused.{AllRefuse, k_natives-AllRefuse}
use goradio_samp.Natives.Events.{callback_for}
use goradio_samp.Plugin.{load, amx_load, amx_unload}
use goradio_samp.Plugin.Running.{
  Runs, begins, loads, script_loads, calls, env_at, first_world, amx_unload-gone,
}
use goradio_samp.Plugin.Toy.{Memory, toy, toy_stacks}

abbrev small_build : Platform
small_build = record {
  atoi_overflow = λ s. pos 7;
  strtod_nonzero = λ s. true;
  ulong_max = 2 ^ 32 - 1;
  tls_supported = false;
}

abbrev fresh_memory : Memory
fresh_memory = record {
  ends = λ b. pos 10;
  waiting = λ b. [];
  last = (0, pos 0);
  texts = [];
  written = λ b a. [];
}

abbrev token_cfg : Option (List Bytes)
token_cfg = some (codes "goradio_token secret" ∷ codes "goradio_debug 1" ∷ [])

abbrev all_exports : Option (ℕ → Bool)
all_exports = some (λ i. true)

abbrev loaded_world : World toy
loaded_world =
    (load toy (env_at small_build 0 token_cfg) all_exports (first_world toy fresh_memory)).0

abbrev scripted_world : World toy
scripted_world = (amx_load toy 2 ((amx_load toy 1 loaded_world).0)).0

-- Five arguments, of which the fourth is the threshold.
abbrev create_params : ℕ → ℤ
create_params i = if i == 0 then pos 20 else pos 3

abbrev radio_world : World toy
radio_world = (n_create_station toy (env_at small_build 0 none) 1 create_params scripted_world).0

abbrev error_callback : AmxCallback
error_callback =
    add_text
      (add_text (add_cell (new_callback (codes "OnGoRadioError")) (negsuc 0)) (codes "internal"))
      (codes "down")

-- The second script has no room for both strings.
abbrev crowded_world : World toy
crowded_world = record scripted_world {
  server = record fresh_memory { ends = λ b. if b == 2 then pos 30 else pos 10 };
}

scripted_world-Runs : Runs toy small_build scripted_world
scripted_world-Runs = script_loads 2 ((amx_load toy 1 loaded_world).0) (
    script_loads 1 loaded_world
      (loads 0 token_cfg all_exports (first_world toy fresh_memory) (begins fresh_memory)))

radio_world-Runs : Runs toy small_build radio_world
radio_world-Runs =
    calls 4 (codes "GoRadio_CreateStation") (n_create_station toy) 0 none 1 create_params
      scripted_world refl scripted_world-Runs

-- `Load` applied the flag and the settings.
scripted_world-configured :
    (scripted_world.session.debug ≡ true)
    × (scripted_world.session.manager.configured ≡ true)
    × (scripted_world.scripts ≡ 1 ∷ 2 ∷ [])
unfolding load amx_load register_natives amx_track_script has_key
scripted_world-configured = (refl, refl, refl)

-- The native made a station.
radio_world-stations : radio_world.session.manager.stations ≡ 0 ∷ []
unfolding n_create_station load amx_load register_natives
radio_world-stations = refl

-- The strings are written from the last one on; the second script has room for one of them only.
crowded_world-texts :
    (invoke toy error_callback crowded_world).server.texts
    ≡ codes "down" ∷ codes "internal" ∷ codes "down" ∷ []
unfolding invoke load amx_load register_natives amx_track_script has_key ◌+ℤ◌
crowded_world-texts = refl

invoke-Balanced_example :
    Balanced toy toy_stacks crowded_world.server (invoke toy error_callback crowded_world).server
invoke-Balanced_example = invoke-Balanced toy toy_stacks error_callback crowded_world

amx_unload-gone_example : has_key 1 (amx_unload toy 1 radio_world).0.scripts ≡ false
amx_unload-gone_example = amx_unload-gone toy small_build 1 radio_world radio_world-Runs

clamp_cell-nearest_example :
    Fits (clamp_cell (pos (2 ^ 40)))
    × (((pos (2 ^ 40) ≤ℤ clamp_cell (pos (2 ^ 40))) × (clamp_cell (pos (2 ^ 40)) ≤ℤ pos 5))
        ⊎ ((pos 5 ≤ℤ clamp_cell (pos (2 ^ 40))) × (clamp_cell (pos (2 ^ 40)) ≤ℤ pos (2 ^ 40))))
clamp_cell-nearest_example = clamp_cell-nearest (pos (2 ^ 40)) (pos 5) (omega arith, omega arith)

check_args-count_example : check_args small_build create_params 5 ≡ leb 5 5
check_args-count_example = check_args-count small_build create_params 5 5 refl (omega arith)

abbrev long_track : PawnEvent
long_track = record new_event { station_id = pos 0; num1 = pos (2 ^ 40) }

callback_for-Fits_example : All FitsArg (callback_for track_started long_track).args
callback_for-Fits_example =
    callback_for-Fits track_started long_track (omega arith, omega arith) (omega arith)

k_natives-AllRefuse_example :
    (map (λ t. t.0) (k_natives toy) ≡ map (λ d. d.0) declared)
    × AllRefuse toy declared (k_natives toy)
k_natives-AllRefuse_example = k_natives-AllRefuse toy

-- ===== src/Natives/Reading.antt =====
-- What it is for a native only to read, and the shapes of those that do: src/natives.cpp.
use goradio_samp.Base.{ℕ, Bool, true, false, ◌≡◌, refl, Bytes, Option, none, some, if◌then◌else◌}
use goradio_samp.Base.Int.{ℤ}
use goradio_samp.Amx.Exports.{Exports, World}
use goradio_samp.Station.{TrackInfo, StationSummary}
use goradio_samp.Natives.Args.{Native, Params, guarded, check_args, write_string_result, Env}
use goradio_samp.Natives.Status.{current_track_string, current_text}
use goradio_samp.Natives.Items.{queue_item_string, history_string, item_text}
use goradio_samp.Natives.Listing.{listed_station_string, listed_text}
use goradio_samp.Natives.Args.{item_at}
use goradio_samp.Manager.Status.{get_status, get_listed_stations}

module _ (E : Exports) where
  -- The manager, the debug flag and the scripts stay as they are.
  abbrev pub IsReader : Native E → Type 0
  IsReader native =
      (env : Env) (amx : ℕ) (params : Params) (w : World E)
      → ((native env amx params w).0.session ≡ w.session)
        × ((native env amx params w).0.scripts ≡ w.scripts)

  pub written :
      (amx : ℕ) (params : Params) (i j : ℕ) (o : Option Bytes) (w : World E)
      → ((write_string_result E amx params i j o w).0.session ≡ w.session)
        × ((write_string_result E amx params i j o w).0.scripts ≡ w.scripts)
  written amx params i j none w = (refl, refl)
  written amx params i j (some value) w = (refl, refl)

  pub guarded-IsReader :
      (n : ℕ) (refused : ℤ) (native : Native E)
      → IsReader native
      → IsReader (guarded E n refused native)
  guarded-IsReader n refused native h env amx params w = tested (check_args env.platform params n)
    where
      tested :
          (b : Bool)
          → ((if◌then◌else◌ {A = World E × ℤ} b (native env amx params w) (w, refused)).0.session
              ≡ w.session)
            × ((if◌then◌else◌ {A = World E × ℤ} b (native env amx params w) (w, refused)).0.scripts
                ≡ w.scripts)
      tested true = h env amx params w
      tested false = (refl, refl)

  pub text_of_current : (f : TrackInfo → Bytes) → IsReader (current_track_string E f)
  unfolding current_track_string
  text_of_current f env amx params w =
      written amx params 2 3 (current_text f (get_status env.now w.session.manager (params 1))) w

  pub text_of_queue : (f : TrackInfo → Bytes) → IsReader (queue_item_string E f)
  unfolding queue_item_string
  text_of_queue f env amx params w =
      written amx params 3 4
        (item_text (λ st. st.queue) f (params 2) (get_status env.now w.session.manager (params 1)))
        w

  pub text_of_history : (f : TrackInfo → Bytes) → IsReader (history_string E f)
  unfolding history_string
  text_of_history f env amx params w =
      written amx params 3 4
        (item_text (λ st. st.history) f (params 2)
          (get_status env.now w.session.manager (params 1)))
        w

  pub text_of_list : (f : StationSummary → Bytes) → IsReader (listed_station_string E f)
  unfolding listed_station_string
  text_of_list f env amx params w =
      written amx params 2 3
        (listed_text f (item_at (get_listed_stations w.session.manager) (params 1))) w

-- ===== src/Manager/Registry/Running.antt =====
-- `Configure`, `Reload`, `Shutdown` and the bookkeeping of the queues: src/manager.cpp.
use goradio_samp.Base.{
  ℕ, Bool, true, false, List, [], ◌∷◌, Option, none, some, Bytes, refl, if◌then◌else◌, not, ◌≡◌,
  Bool-cases, inl, inr, arith, sym, ◌==◌, is_empty, ◌&&◌,
}
use goradio_samp.Base.Int.{pos, ltb_ℤ}
use goradio_samp.Clib.{Platform}
use goradio_samp.Http.Url.{Url, Outcome, ok, err, parse_url, is_secure}
use goradio_samp.Station.{Station}
use goradio_samp.Manager.State.{
  Manager, ManagerConfig, PawnEvent, Job, tick, change, connection_differs, has_key, find_object,
}
use goradio_samp.Manager.Setup.{
  configure, reload, stop_stations, stop_pool, stop_workers, stop_all, mark_stopping, start_workers,
  adopt, reloaded, no_tls, stations_exist, no_token, reload_applied, reload_partial,
}
use goradio_samp.Manager.Stations.{station_ids}
use goradio_samp.Manager.Worker.{Take, waits, ends, takes, take_job}
use goradio_samp.Manager.Streams.{poll_round, refresh_all}
use goradio_samp.Manager.Registry.Objects.{view, mapped, find_object-change}
use goradio_samp.Manager.Registry.WellFormed.{Keeps, Keeps-refl, WellFormed, seen, IsLive}
use goradio_samp.Manager.Registry.Workers.{refresh_all-Keeps}

abbrev pub left_by : Manager → Take → Manager
left_by m waits = m
left_by m ends = m
left_by m (takes job m') = m'

abbrev pub polled : Manager → Option Manager → Manager
polled m none = m
polled m (some m') = m'

stop_workers-Keeps : (m : Manager) → Keeps m (stop_workers m)
unfolding stop_workers
stop_workers-Keeps m = elim (Bool-cases m.running) [
  | inl e ↦ simp (e) (refl, refl, λ n. refl)
  | inr e ↦ simp (e) (refl, refl, λ n. refl)
]

start_workers-Keeps :
    (m : Manager) (config : ManagerConfig) (u : Url) → Keeps m (start_workers m config u)
start_workers-Keeps m config u =
    stop_workers-Keeps (record m { config = config; url = u; configured = true })

adopt-Keeps :
    (p : Platform) (m : Manager) (config : ManagerConfig) (o : Outcome Url)
    → Keeps m (adopt p m config o).0
adopt-Keeps p m config (err e) = Keeps-refl m
adopt-Keeps p m config (ok u) = tls (is_secure u.scheme && not p.tls_supported)
  where
    tls :
        (b : Bool)
        → Keeps m
            (if◌then◌else◌ {A = Manager × Option Bytes} b
              (m, some no_tls)
              (start_workers m config u, none)).0
    tls true = Keeps-refl m
    tls false = start_workers-Keeps m config u

either {ℓ} :
    {A : Type ℓ} (m : Manager) (x y : Manager × A) (b : Bool)
    → Keeps m x.0
    → Keeps m y.0
    → Keeps m (if b then x else y).0
either m x y true kx ky = kx
either m x y false kx ky = ky

pub configure-Keeps :
    (p : Platform) (m : Manager) (config : ManagerConfig) → Keeps m (configure p m config).0
unfolding configure
configure-Keeps p m config =
    either m (m, some stations_exist)
      (if is_empty config.token
        then (m, some no_token)
        else adopt p m config (parse_url p config.server_url))
      (not (is_empty m.stations)) (Keeps-refl m)
      (either m (m, some no_token) (adopt p m config (parse_url p config.server_url))
        (is_empty config.token) (Keeps-refl m)
        (adopt-Keeps p m config (parse_url p config.server_url)))

reloaded-Keeps : (m : Manager) (x : Manager × Option Bytes) → Keeps m x.0 → Keeps m (reloaded x).0
reloaded-Keeps m (m', none) k = k
reloaded-Keeps m (m', some e) k = k

abbrev polling : Manager → ManagerConfig → Manager
polling m config = record m {
  config = record (m.config) { poll_interval_ms = config.poll_interval_ms };
}

pub reload-Keeps :
    (p : Platform) (m : Manager) (config : ManagerConfig) → Keeps m (reload p m config).0
unfolding reload
reload-Keeps p m config =
    either m (reloaded (configure p m config)) _ (not m.running)
      (reloaded-Keeps m (configure p m config) (configure-Keeps p m config))
      (either m (polling m config, reload_applied) _ (not (connection_differs m.config config))
        (Keeps-refl m)
        (either m (polling m config, reload_partial)
          (reloaded (configure p (polling m config) config)) (not (is_empty m.stations))
          (Keeps-refl m)
          (reloaded-Keeps m (configure p (polling m config) config)
            (configure-Keeps p (polling m config) config))))

pub tick-Keeps : (m : Manager) (out : List PawnEvent) → Keeps m (tick m out).0
unfolding tick
tick-Keeps m out = Keeps-refl m

pub take_job-Keeps : (m : Manager) → Keeps m (left_by m (take_job m))
unfolding take_job
take_job-Keeps m = taken m.jobs m.running
  where
    taken :
        (js : List Job) (b : Bool)
        → Keeps m (
            left_by m (elim js as (λ x. Take) [
              | [] ↦ if b then waits else ends
              | job ∷ rest ↦ takes job (record m { jobs = rest })
            ]))
    taken [] true = Keeps-refl m
    taken [] false = Keeps-refl m
    taken (job ∷ rest) b = Keeps-refl m

pub poll_round-Keeps : (m : Manager) → Keeps m (polled m (poll_round m))
unfolding poll_round
poll_round-Keeps m = woken m.running (ltb_ℤ (pos 0) (m.config.poll_interval_ms))
  where
    woken :
        (b c : Bool)
        → Keeps m (
            polled m
              (if not b then none else if c then some (refresh_all (station_ids m) m) else some m))
    woken false c = Keeps-refl m
    woken true true = refresh_all-Keeps (station_ids m) m
    woken true false = Keeps-refl m

-- A map without keys.
emptied-WellFormed :
    (m m' : Manager)
    → m'.stations ≡ []
    → m'.next_station_id ≡ m.next_station_id
    → ((n : ℕ) → seen m n ≡ none → seen m' n ≡ none)
    → WellFormed m
    → WellFormed m'
unfolding has_key
emptied-WellFormed m m' h same gone w = record {
  ascending = rw (h) tt;
  handed_out = λ n live. absurd (nobody n live);
  unknown = λ n le. gone n (w.unknown n (rw (sym same) le));
  object = λ n live. absurd (nobody n live);
  distinct = λ n k slug a b x y. absurd (nobody n a);
}
  where
    nobody : (n : ℕ) → IsLive m' n → ⊥
    nobody n live = ground (arith, live, h)

view-mapped-none :
    (o : Option Station) (b : Bool)
    → view o ≡ none
    → view (if b then mapped mark_stopping o else o) ≡ none
view-mapped-none none true h = refl
view-mapped-none none false h = refl
view-mapped-none (some s) b h = ground (arith, h)

stop_all-none :
    (ks : List ℕ) (m : Manager) (n : ℕ) → seen m n ≡ none → seen (stop_all ks m) n ≡ none
unfolding stop_all
stop_all-none [] m n h = h
stop_all-none (k ∷ ks) m n h = stop_all-none ks (change k mark_stopping m) n still
  where
    still : seen (change k mark_stopping m) n ≡ none
    still =
        rw (find_object-change mark_stopping (λ t. refl) k n m.objects)
          (view-mapped-none (find_object n m.objects) (k == n) h)

stop_all-next : (ks : List ℕ) (m : Manager) → (stop_all ks m).next_station_id ≡ m.next_station_id
unfolding stop_all
stop_all-next [] m = refl
stop_all-next (k ∷ ks) m = stop_all-next ks (change k mark_stopping m)

pub stop_stations-WellFormed : (m : Manager) → WellFormed m → WellFormed (stop_stations m)
unfolding stop_stations
stop_stations-WellFormed m w =
    emptied-WellFormed m (stop_stations m) refl (stop_all-next m.stations m)
      (λ n h. stop_all-none m.stations m n h) w

pub stop_pool-Keeps : (m : Manager) → Keeps m (stop_pool m)
unfolding stop_pool
stop_pool-Keeps m = stop_workers-Keeps m

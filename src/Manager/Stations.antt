-- ===== src/Manager/Stations.antt =====
-- The operations on stations that the natives call: src/manager.cpp. Each runs under the lock.
use goradio_samp.Base.{
  ℕ, suc, Bool, true, false, not, List, [], ◌∷◌, ◌++◌, Option, none, some, ◌==◌, if◌then◌else◌,
  Bytes, codes, equal, is_empty, map,
}
use goradio_samp.Base.Int.{ℤ, pos, negsuc}
use goradio_samp.Json.Builder.{empty_body, add_str, build}
use goradio_samp.Http.Url.{Outcome, ok, err}
use goradio_samp.Station.{Station, no_status, name_or_slug}
use goradio_samp.Station.Metadata.{assign, erase}
use goradio_samp.Manager.State.{
  Manager, Job, new_job, job_register, job_unregister, enqueue, change, find_station, find_object,
  invalid_station,
}
use goradio_samp.Manager.Setup.{mark_stopping}

-- `FindStationBySlug`, on the keys in their order.
unfoldable pub slug_in : Bytes → List ℕ → List Station → ℤ
unfolding find_object
slug_in slug [] objects = invalid_station
slug_in slug (n ∷ ns) objects =
    let later = slug_in slug ns objects in
    elim (find_object n objects) [
      | none ↦ later
      | some s ↦ if equal s.slug slug then pos n else later
    ]

unfoldable pub find_station_by_slug : Manager → Bytes → ℤ
unfolding slug_in
find_station_by_slug m slug = slug_in slug m.stations m.objects

-- `StationIds`
abbrev pub station_ids : Manager → List ℤ
station_ids m = map pos m.stations

-- `IsValidStation`
unfoldable pub is_valid_station : Manager → ℤ → Bool
unfolding find_station
is_valid_station m i = elim (find_station m i) [ none ↦ false | some s ↦ true ]

-- The fields that a `Station` starts with.
abbrev pub new_station : ℕ → Bytes → Bytes → Bytes → ℤ → Bytes → Station
new_station n slug name description threshold logo_url = record {
  id = n;
  slug = slug;
  name = name_or_slug name slug;
  description = description;
  logo_url = logo_url;
  metadata = [];
  low_queue_threshold = threshold;
  stream_url = [];
  registered = false;
  stopping = false;
  status = no_status;
}

abbrev pub empty_slug : Bytes
empty_slug = codes "station slug is empty"

abbrev pub not_configured : Bytes
not_configured =
    codes
      "no audio server configured (set goradio_url/goradio_token in server.cfg, or call GoRadio_SetServer first)"

abbrev pub slug_taken : Bytes → Bytes
slug_taken slug =
    codes "a station with slug \"" ++ (slug ++ codes "\" already exists on this server")

abbrev is_invalid : ℤ → Bool
is_invalid (pos n) = false
is_invalid (negsuc n) = true

-- `CreateStation`: the id, or the message. The new key is the largest, so it goes to the end.
unfoldable pub create_station : Manager → Bytes → Bytes → Bytes → ℤ → Bytes → Manager × Outcome ℕ
unfolding find_station_by_slug
create_station m slug name description threshold logo_url =
    if is_empty slug
    then (m, err empty_slug)
    else if not m.configured
    then (m, err not_configured)
    else if not (is_invalid (find_station_by_slug m slug))
    then (m, err (slug_taken slug))
    else (let n = m.next_station_id in
        (
          record m {
            next_station_id = suc n;
            stations = m.stations ++ n ∷ [];
            objects = m.objects ++ new_station n slug name description threshold logo_url ∷ [];
          },
          ok n,
        ))

unfoldable pub remove_key : ℕ → List ℕ → List ℕ
remove_key n [] = []
remove_key n (k ∷ ks) = if k == n then ks else k ∷ remove_key n ks

-- The request that names a station and nothing else.
unfoldable pub slug_request : Bytes → Bytes
unfolding add_str build
slug_request slug = build (add_str empty_body (codes "slug") slug)

abbrev pub unregister_job : Station → Job
unregister_job s = record new_job {
  kind = job_unregister;
  rpc = codes "UnregisterStation";
  body = slug_request s.slug;
  station_id = pos s.id;
}

-- `DestroyStation`. The station's thread is joined before the job goes out.
unfoldable pub destroy_station : Manager → ℤ → Manager × Bool
unfolding find_station remove_key slug_request
destroy_station m i = elim (find_station m i) [
  | none ↦ (m, false)
  | some s ↦
      let m' = record m { stations = remove_key s.id m.stations } in
      (enqueue (change s.id mark_stopping m') (unregister_job s), true)
]

-- A change to a station that exists.
abbrev pub on_station : Manager → ℤ → (Station → Station) → Manager × Bool
on_station m i f = elim (find_station m i) [ none ↦ (m, false) | some s ↦ (change s.id f m, true) ]

abbrev pub with_entry : Bytes → Bytes → Station → Station
with_entry key value s =
    if is_empty value
    then record s { metadata = erase key s.metadata }
    else record s { metadata = assign key value s.metadata }

-- `SetMetadata`: an empty value takes the key out.
unfoldable pub set_metadata : Manager → ℤ → Bytes → Bytes → Manager × Bool
unfolding find_station assign erase
set_metadata m i key value = on_station m i (with_entry key value)

-- `ClearMetadata`
unfoldable pub clear_metadata : Manager → ℤ → Manager × Bool
unfolding find_station
clear_metadata m i = on_station m i (λ s. record s { metadata = [] })

abbrev pub with_details : Bytes → Bytes → ℤ → Bytes → Station → Station
with_details name description threshold logo_url s = record s {
  name = name_or_slug name s.slug;
  description = description;
  low_queue_threshold = threshold;
  logo_url = logo_url;
}

abbrev pub register_job : Station → Job
register_job s = record new_job { kind = job_register; station_id = pos s.id; station = some s.id }

-- `UpdateStation`
unfoldable pub update_station : Manager → ℤ → Bytes → Bytes → ℤ → Bytes → Manager × Bool
unfolding find_station
update_station m i name description threshold logo_url = elim (find_station m i) [
  | none ↦ (m, false)
  | some s ↦ (
    enqueue (change s.id (with_details name description threshold logo_url) m) (register_job s),
    true,
  )
]

-- `GetSlug`, `GetStreamUrl` and `IsRegistered`.
unfoldable pub get_slug : Manager → ℤ → Option Bytes
unfolding find_station
get_slug m i = elim (find_station m i) [ none ↦ none | some s ↦ some s.slug ]

unfoldable pub get_stream_url : Manager → ℤ → Option Bytes
unfolding find_station
get_stream_url m i = elim (find_station m i) [ none ↦ none | some s ↦ some s.stream_url ]

unfoldable pub is_registered_station : Manager → ℤ → Bool
unfolding find_station
is_registered_station m i = elim (find_station m i) [ none ↦ false | some s ↦ s.registered ]

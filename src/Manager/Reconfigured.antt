-- ===== src/Manager/Reconfigured.antt =====
-- `Reload` of src/manager.cpp while stations exist.
use goradio_samp.Base.{
  ◌≡◌, ◌≢◌, refl, true, false, [], ◌∷◌, List, ℕ, arith, Bool-cases, inl, inr, is_empty,
  if◌then◌else◌,
}
use goradio_samp.Base.{◌↔◌, ◌⊎◌, Bool, ap, sym, ◌∙◌, equal_iff}
use goradio_samp.Base.Int.{ℤ, pos, negsuc, eq_ℤ}
use goradio_samp.Clib.{Platform}
use goradio_samp.Manager.State.{Manager, ManagerConfig, connection_differs}
use goradio_samp.Manager.Setup.{reload, ReloadResult, reload_applied, reload_partial}

nonempty : (ks : List ℕ) → ks ≢ [] → is_empty ks ≡ false
nonempty [] h = absurd (h refl)
nonempty (k ∷ ks) h = refl

eq_ℤ-equal : (a b : ℤ) → (eq_ℤ a b ≡ true) ↔ (a ≡ b)
eq_ℤ-equal (pos a) (pos b) = ground arith
eq_ℤ-equal (pos a) (negsuc b) = ground arith
eq_ℤ-equal (negsuc a) (pos b) = ground arith
eq_ℤ-equal (negsuc a) (negsuc b) = ground arith

-- The settings that a connection to the audio server and its workers rest on.
abbrev pub SameConnection : ManagerConfig → ManagerConfig → Type 0
SameConnection a b =
    (a.server_url ≡ b.server_url)
    × (a.token ≡ b.token)
    × (a.timeout_ms ≡ b.timeout_ms)
    × (a.workers ≡ b.workers)

differs-same : (a b : ManagerConfig) → connection_differs a b ≡ false → SameConnection a b
unfolding connection_differs
differs-same a b h = (
  (equal_iff a.server_url b.server_url).0 (ground (arith, h)),
  (equal_iff a.token b.token).0 (ground (arith, h)),
  (eq_ℤ-equal a.timeout_ms b.timeout_ms).0 (ground (arith, h)),
  (eq_ℤ-equal a.workers b.workers).0 (ground (arith, h)),
)

same-differs : (a b : ManagerConfig) → SameConnection a b → connection_differs a b ≡ false
unfolding connection_differs
same-differs a b (u, t, o, w) = ground (
  arith,
  (equal_iff a.server_url b.server_url).1 u,
  (equal_iff a.token b.token).1 t,
  (eq_ℤ-equal a.timeout_ms b.timeout_ms).1 o,
  (eq_ℤ-equal a.workers b.workers).1 w,
)

reload-result :
    (p : Platform) (m : Manager) (config : ManagerConfig)
    → m.running ≡ true
    → m.stations ≢ []
    → (reload p m config).1
      ≡ (if connection_differs m.config config then reload_partial else reload_applied)
unfolding reload
reload-result p m config running some_station =
    elim (Bool-cases (connection_differs m.config config)) [
      | inl e ↦ ground (arith, e, running, nonempty m.stations some_station)
      | inr e ↦ ground (arith, e, running)
    ]

reload-manager :
    (p : Platform) (m : Manager) (config : ManagerConfig)
    → m.running ≡ true
    → m.stations ≢ []
    → (reload p m config).0
      ≡ record m { config = record (m.config) { poll_interval_ms = config.poll_interval_ms } }
unfolding reload
reload-manager p m config running some_station =
    elim (Bool-cases (connection_differs m.config config)) [
      | inl e ↦ ground (arith, e, running, nonempty m.stations some_station)
      | inr e ↦ ground (arith, e, running)
    ]

-- While a station exists, `Reload` of a running plugin leaves the URL, the token, the timeout, the
-- number of workers, the stations and the jobs alone and takes the poll interval over; it reports that
-- all is applied exactly where the new URL, token, timeout and number of workers are the old ones, and
-- a partial reload else.
pub reload-stations :
    (p : Platform) (m : Manager) (config : ManagerConfig)
    → m.running ≡ true
    → m.stations ≢ []
    → ((reload p m config).0
        ≡ record m { config = record (m.config) { poll_interval_ms = config.poll_interval_ms } })
      × (((reload p m config).1 ≡ reload_applied) ↔ SameConnection m.config config)
      × (((reload p m config).1 ≡ reload_applied) ⊎ ((reload p m config).1 ≡ reload_partial))
reload-stations p m config running some_station = (
  reload-manager p m config running some_station,
  (
    λ e. differs-same m.config config (is_false (connection_differs m.config config) (sym r ∙ e)),
    λ same. r ∙ ap result (same-differs m.config config same),
  ),
  either (connection_differs m.config config) r,
)
  where
    result : Bool → ReloadResult
    result b = if b then reload_partial else reload_applied

    r : (reload p m config).1 ≡ result (connection_differs m.config config)
    r = reload-result p m config running some_station

    is_false : (b : Bool) → result b ≡ reload_applied → b ≡ false
    is_false true e = ground (arith, e)
    is_false false e = refl

    either :
        (b : Bool)
        → (reload p m config).1 ≡ result b
        → ((reload p m config).1 ≡ reload_applied) ⊎ ((reload p m config).1 ≡ reload_partial)
    either true e = inr e
    either false e = inl e

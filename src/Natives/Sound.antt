-- ===== src/Natives/Sound.antt =====
-- What it is for a native to leave the list of the scripts alone: src/natives.cpp.
use goradio_samp.Base.{
  ℕ, Bool, true, false, not, ◌≡◌, refl, some, get_elem?, All-get_elem?, if◌then◌else◌,
}
use goradio_samp.Base.Int.{ℤ, pos}
use goradio_samp.Amx.Exports.{Exports, World}
use goradio_samp.ServerConfig.{Settings}
use goradio_samp.Natives.Args.{Env, Native, Params, guarded, check_args}
use goradio_samp.Natives.Readers.{readers, readers-IsReader}
use goradio_samp.Natives.Reading.{IsReader}
use goradio_samp.Natives.Setup.{reload_with}

module _ (E : Exports) where
  -- No script is loaded or unloaded.
  abbrev pub KeepsScripts : Native E → Type 0
  KeepsScripts native =
      (env : Env) (amx : ℕ) (params : Params) (w : World E)
      → (native env amx params w).0.scripts ≡ w.scripts

  pub reader :
      (i : ℕ) (native : Native E) → get_elem? (readers E) i ≡ some native → KeepsScripts native
  reader i native e env amx params w =
      (All-get_elem? (IsReader E) (readers E) i native (readers-IsReader E) e env amx params w).1

  pub guarded-KeepsScripts :
      (n : ℕ) (refused : ℤ) (native : Native E)
      → KeepsScripts native
      → KeepsScripts (guarded E n refused native)
  guarded-KeepsScripts n refused native h env amx params w =
      tested (check_args env.platform params n)
    where
      tested :
          (b : Bool)
          → (if◌then◌else◌ {A = World E × ℤ} b (native env amx params w) (w, refused)).0.scripts
            ≡ w.scripts
      tested true = h env amx params w
      tested false = refl

  pub reload_with-scripts :
      (env : Env) (w : World E) (st : Settings) → (reload_with E env w st).0.scripts ≡ w.scripts
  reload_with-scripts env w st = found st.found_any
    where
      found :
          (b : Bool)
          → (if not b
              then (w, pos 0)
              else reload_with E env w (record st { found_any = true })).0.scripts
            ≡ w.scripts
      found true = refl
      found false = refl

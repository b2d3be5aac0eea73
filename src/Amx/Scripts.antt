-- ===== src/Amx/Scripts.antt =====
-- The scripts that are loaded, `g_scripts`: src/amxutil.cpp.
use goradio_samp.Base.{ℕ, List, [], ◌∷◌, ◌++◌, ◌==◌, if◌then◌else◌}
use goradio_samp.Manager.State.{has_key}

-- `std::find(...) == end()` guards the insertion.
unfoldable pub amx_track_script : ℕ → List ℕ → List ℕ
amx_track_script amx scripts = if has_key amx scripts then scripts else scripts ++ amx ∷ []

-- `AmxForgetScript`: the first place that holds the script is erased.
unfoldable pub amx_forget_script : ℕ → List ℕ → List ℕ
amx_forget_script amx [] = []
amx_forget_script amx (s ∷ ss) = if s == amx then ss else s ∷ amx_forget_script amx ss

-- `AmxForgetAllScripts`
abbrev pub amx_forget_all_scripts : List ℕ → List ℕ
amx_forget_all_scripts scripts = []

-- ===== src/Amx/Exports.antt =====
-- The `amx_*` entry points that the server hands over: src/sdk/amx.h and `AmxInit` of
-- src/amxutil.cpp. They are a parameter: functions on the server's state. A script is the number that
-- stands for its `AMX *`, and a physical address is a number.
use goradio_samp.Base.{ℕ, Bool, true, false, ◌&&◌, List, [], ◌∷◌, Option, none, some, Bytes, map}
use goradio_samp.Base.Int.{ℤ}
use goradio_samp.Manager.State.{Manager}

-- What the natives change besides the server's memory: the manager and the log's debug flag.
pub record Session : Type 0 where
  pub manager : Manager
  pub debug : Bool

-- A call that does not return AMX_ERR_NONE is `none`; `get_addr` is so for a null address, too. A
-- public that `exec` runs calls natives, which change the session; the last part of its result is
-- whether it returned AMX_ERR_NONE. `register` is given the names of the table.
pub record Exports : Type 1 where
  pub Server : Type 0
  pub allot : ℕ → ℕ → Server → Server × Option (ℤ × ℕ)
  pub exec : ℕ → ℤ → Server → Session → Server × Session × Bool
  pub find_public : ℕ → Bytes → Server → Option ℤ
  pub get_addr : ℕ → ℤ → Server → Option ℕ
  pub get_string : ℕ → ℕ → Server → Option Bytes
  pub push : ℕ → ℤ → Server → Server
  pub register : ℕ → List Bytes → ℕ → Server → Server × ℤ
  pub release : ℕ → ℤ → Server → Server
  pub set_string : ℕ → Bytes → ℕ → Server → Server
  -- A write through a physical address.
  pub set_cell : ℕ → ℤ → Server → Server
  pub str_len : ℕ → Server → Option ℤ

-- The state that the plugin works on; `scripts` is `g_scripts`.
pub record World (E : Exports) : Type 0 where
  pub server : E.Server
  pub session : Session
  pub scripts : List ℕ

-- The places of the table that the plugin uses: PLUGIN_AMX_EXPORT_Allot, _Exec, _FindPublic,
-- _GetAddr, _GetString, _Push, _Register, _Release, _SetString and _StrLen.
abbrev pub export_places : List ℕ
export_places = 3 ∷ 7 ∷ 9 ∷ 13 ∷ 17 ∷ 29 ∷ 33 ∷ 34 ∷ 37 ∷ 39 ∷ []

abbrev all_set : List Bool → Bool
all_set [] = true
all_set (b ∷ bs) = b && all_set bs

-- `AmxInit`, of a table in which some places are not null.
unfoldable pub amx_init : Option (ℕ → Bool) → Bool
amx_init none = false
amx_init (some is_set) = all_set (map is_set export_places)

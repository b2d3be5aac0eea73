-- ===== src/Natives/Args.antt =====
-- What the natives share: src/natives.cpp. The log lines are left out.
use goradio_samp.Base.{
  ℕ, ◌-◌, ◌/◌, ◌%◌, ◌^◌, Bool, true, false, not, List, [], Option, none, some, ltb, if◌then◌else◌,
  Bytes, get_elem?,
}
use goradio_samp.Base.Int.{ℤ, pos, negsuc, ltb_ℤ}
use goradio_samp.Clib.{Platform, int_max}
use goradio_samp.Manager.State.{Manager}
use goradio_samp.Amx.Exports.{Exports, World}
use goradio_samp.Amx.Strings.{amx_write_string, amx_read_string}

-- What a native finds outside of the plugin: the platform, a reading of the steady clock, and the
-- lines of server.cfg where that file can be opened.
pub record Env : Type 0 where
  pub platform : Platform
  pub now : ℕ
  pub cfg_file : Option (List Bytes)

-- `cell *params`: the cell at each place.
abbrev pub Params : Type 0
Params = ℕ → ℤ

-- `int` of an unsigned value.
abbrev to_int : ℕ → ℤ
to_int n = if ltb int_max (n % 2 ^ 32) then negsuc (2 ^ 32 - 1 - n % 2 ^ 32) else pos (n % 2 ^ 32)

-- A cell as the unsigned type of `sizeof`, which has the range of `unsigned long`.
abbrev to_size : Platform → ℤ → ℕ
to_size p (pos n) = n
to_size p (negsuc n) = p.ulong_max - n

-- `ArgCount`
unfoldable pub arg_count : Platform → Params → ℤ
arg_count p params = to_int (to_size p (params 0) / 4)

-- `CheckArgs`
unfoldable pub check_args : Platform → Params → ℕ → Bool
unfolding arg_count
check_args p params expected = not (ltb_ℤ (arg_count p params) (pos expected))

-- `ClampCell`, of a `long long` and of a `size_t`.
unfoldable pub clamp_cell : ℤ → ℤ
clamp_cell value =
    if ltb_ℤ (pos int_max) value
    then pos int_max
    else if ltb_ℤ value (negsuc int_max)
    then negsuc int_max
    else value

abbrev pub clamp_size : ℕ → ℤ
clamp_size n = clamp_cell (pos n)

-- `ItemAt`, and the index tests of the other getters.
unfoldable pub item_at : {A : Type 0} → List A → ℤ → Option A
item_at items (pos n) = get_elem? items n
item_at items (negsuc n) = none

abbrev pub cell_of : Bool → ℤ
cell_of true = pos 1
cell_of false = pos 0

module _ (E : Exports) where
  -- `AMX_NATIVE`: the script, the arguments and the state; the new state and the result.
  abbrev pub Native : Type 0
  Native = Env → ℕ → Params → World E → World E × ℤ

  -- The test with which a native begins, and what it returns where the test fails.
  abbrev pub guarded : ℕ → ℤ → Native → Native
  guarded expected refused body env amx params w =
      if check_args env.platform params expected then body env amx params w else (w, refused)

  -- `WriteStringResult`, of a value where there is one.
  abbrev pub write_string_result : ℕ → Params → ℕ → ℕ → Option Bytes → World E → World E × ℤ
  write_string_result amx params dest_index len_index none w = (
    record w { server = amx_write_string E amx (params dest_index) [] (params len_index) w.server },
    pos 0,
  )
  write_string_result amx params dest_index len_index (some value) w = (
    record w {
      server = amx_write_string E amx (params dest_index) value (params len_index) w.server;
    },
    pos 1,
  )

  -- A string argument of a native.
  abbrev pub text_param : World E → ℕ → Params → ℕ → Bytes
  text_param w amx params i = amx_read_string E amx (params i) w.server

  abbrev pub with_manager : World E → Manager → World E
  with_manager w m = record w { session = record (w.session) { manager = m } }

  -- A result of the manager as that of a native.
  abbrev pub as_flag : World E → Manager × Bool → World E × ℤ
  as_flag w (m, b) = (with_manager w m, cell_of b)

  abbrev pub as_request : World E → Manager × ℕ → World E × ℤ
  as_request w (m, n) = (with_manager w m, pos n)

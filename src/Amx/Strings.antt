-- ===== src/Amx/Strings.antt =====
-- `AmxReadString`, `AmxWriteString` and `AmxWriteCell`: src/amxutil.cpp.
use goradio_samp.Base.{ℕ, suc, zero, [], Option, none, some, Bytes}
use goradio_samp.Base.Int.{ℤ, pos, negsuc}
use goradio_samp.Clib.{c_str}
use goradio_samp.Amx.Exports.{Exports}

module _ (E : Exports) where
  abbrev text_of : Option Bytes → Bytes
  text_of none = []
  text_of (some s) = c_str s

  -- A length that is not positive reads nothing; else the buffer has one byte more.
  abbrev string_of_length : E.Server → ℕ → Option ℤ → Bytes
  string_of_length w addr none = []
  string_of_length w addr (some (negsuc n)) = []
  string_of_length w addr (some (pos zero)) = []
  string_of_length w addr (some (pos (suc n))) = text_of (E.get_string addr (suc (suc n)) w)

  unfoldable pub amx_read_string : ℕ → ℤ → E.Server → Bytes
  unfolding c_str
  amx_read_string amx param w = elim (E.get_addr amx param w) [
    | none ↦ []
    | some addr ↦ string_of_length w addr (E.str_len addr w)
  ]

  abbrev string_at : ℕ → ℤ → Bytes → ℕ → E.Server → E.Server
  string_at amx param value size w = elim (E.get_addr amx param w) [
    | none ↦ w
    | some addr ↦ E.set_string addr (c_str value) size w
  ]

  -- Nothing is written to a destination of no cells.
  unfoldable pub amx_write_string : ℕ → ℤ → Bytes → ℤ → E.Server → E.Server
  unfolding c_str
  amx_write_string amx param value (negsuc n) w = w
  amx_write_string amx param value (pos zero) w = w
  amx_write_string amx param value (pos (suc n)) w = string_at amx param value (suc n) w

  unfoldable pub amx_write_cell : ℕ → ℤ → ℤ → E.Server → E.Server
  amx_write_cell amx param value w = elim (E.get_addr amx param w) [
    | none ↦ w
    | some addr ↦ E.set_cell addr value w
  ]

-- ===== src/Log.antt =====
-- The log: src/log.h and src/log.cpp. Each call holds the lock, so it is a function on the state.
pub mod Formatted
mod Tests
use goradio_samp.Base.{
  ℕ, zero, suc, Bool, true, false, List, [], ◌∷◌, ◌++◌, if◌then◌else◌, Bytes, codes, ltb, take,
}
use goradio_samp.Base.Int.{ℤ, pos, negsuc}
use goradio_samp.Clib.{c_str}

-- Where a line goes: the server's `logprintf`, or the standard error.
pub data Sink : Type 0 where
  server_log standard_error : Sink

-- `g_logprintf != 0`, `g_debug`, and the lines so far.
pub record Log : Type 0 where
  pub has_printf : Bool
  pub debug_on : Bool
  pub printed : List (Sink × Bytes)

abbrev log_line : Bytes → Bytes → Bytes
log_line level msg = codes "[goradio]" ++ (level ++ (codes " " ++ c_str msg))

-- `Emit`
unfoldable pub emit : Bytes → Bytes → Log → Log
unfolding c_str
emit level msg l =
    if l.has_printf
    then record l { printed = l.printed ++ (server_log, log_line level msg) ∷ [] }
    else record l { printed = l.printed ++ (standard_error, log_line level msg ++ codes "\n") ∷ [] }

abbrev pub log_init : Bool → Bool → Log → Log
log_init has_printf debug l = record l { has_printf = has_printf; debug_on = debug }

abbrev pub log_set_debug : Bool → Log → Log
log_set_debug debug l = record l { debug_on = debug }

abbrev pub log_debug_enabled : Log → Bool
log_debug_enabled l = l.debug_on

abbrev pub log_info : Bytes → Log → Log
log_info msg l = emit [] msg l

abbrev pub log_warn : Bytes → Log → Log
log_warn msg l = emit (codes " WARN:") msg l

abbrev pub log_error : Bytes → Log → Log
log_error msg l = emit (codes " ERROR:") msg l

abbrev pub log_debug : Bytes → Log → Log
log_debug msg l = if log_debug_enabled l then emit (codes " debug:") msg l else l

-- `vsnprintf` of one format and its arguments: for the size of the buffer, the result and what the
-- buffer holds then.
abbrev pub Vsnprintf : Type 0
Vsnprintf = ℕ → ℤ × Bytes

-- The loop of `Format`, on a buffer of this size.
unfoldable pub format_loop : ℕ → ℕ → Vsnprintf → Bytes
format_loop zero size print = []
format_loop (suc f) size print = elim (print size).0 [
  | negsuc n ↦ []
  | pos n ↦ elim (ltb n size) [ true ↦ take n (print size).1 | false ↦ format_loop f (suc n) print ]
]

-- `Format`; two rounds are enough.
unfoldable pub format : Vsnprintf → Bytes
unfolding format_loop
format print = format_loop 2 256 print

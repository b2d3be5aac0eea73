-- ===== src/Clib/Tests.antt =====
-- The number formats at concrete numbers.
use goradio_samp.Base.{◌≡◌, arith}
use goradio_samp.Base.Int.{negsuc}
use goradio_samp.Clib.{strtoll_10}
use goradio_samp.Clib.Decimal.{print_ℤ, strtoll_10-print_ℤ}

strtoll_10-print_ℤ_example : strtoll_10 (print_ℤ (negsuc 41)) ≡ negsuc 41
strtoll_10-print_ℤ_example = strtoll_10-print_ℤ (negsuc 41) (omega arith)

-- ===== src/Manager/Timing.antt =====
-- The backoff between attempts and the elapsed time between polls: src/manager.cpp.
use goradio_samp.Base.{ℕ, zero, suc, ◌-◌, ◌*◌, ◌/◌, ◌^◌, ◌≡◌, arith, ltb, if◌then◌else◌, not, ◌&&◌}
use Prim.Native.Nat.{min}
use native.Mathlib.Nat.{pow-suc}
use goradio_samp.Base.Int.{ℤ, pos, ltb_ℤ, ◌+ℤ◌}
use goradio_samp.Station.{StationStatus}
use goradio_samp.Manager.Status.{nanoseconds}
use goradio_samp.Manager.Worker.{next_backoff, min_backoff_ms}

-- The backoff behind a number of failures.
unfoldable pub backoff_after : ℕ → ℕ
unfolding next_backoff
backoff_after zero = min_backoff_ms
backoff_after (suc k) = next_backoff (backoff_after k)

-- The backoff behind k failures in a row is 1000 ms doubled k times, and 30000 ms at most.
pub backoff_after_lem : (k : ℕ) → backoff_after k ≡ min (1000 * 2 ^ k) 30000
unfolding backoff_after next_backoff
backoff_after_lem zero = omega arith
backoff_after_lem (suc k) = ground (arith, backoff_after_lem k, pow-suc 2 k)

abbrev carried : ℤ → ℤ → ℕ → ℤ
carried e d secs =
    if not (ltb 0 secs)
    then e
    else if ltb_ℤ (pos 0) d && ltb_ℤ d (e +ℤ pos secs)
    then d
    else e +ℤ pos secs

-- The whole seconds since the snapshot.
abbrev secs_since : StationStatus → ℕ → ℕ
secs_since st now = (now - st.updated_at) / nanoseconds

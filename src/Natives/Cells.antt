-- ===== src/Natives/Cells.antt =====
-- What goes through a cell of 32 bits: `ClampCell` and `ArgCount` of src/natives.cpp, and
-- `AmxCallback::Int64` of src/amxutil.cpp.
use goradio_samp.Base.{ℕ, ◌*◌, ◌≤◌, Bool, ◌≡◌, ◌⊎◌, arith, leb, All, ◌&◌, if◌then◌else◌, not}
use goradio_samp.Base.Int.{ℤ, pos, negsuc, ◌≤ℤ◌, eq_ℤ}
use goradio_samp.Clib.{Platform, int_max}
use goradio_samp.Manager.State.{
  PawnEvent, PawnEventKind, server_info, station_registered, track_started, track_ended,
  track_queued, queue_low, queue_updated, listener_count_changed, silence_started, silence_ended,
  status_update, command_result, station_list, error,
}
use goradio_samp.Amx.Callback.{Arg, cell_arg, text_arg, saturate, add_int64}
use goradio_samp.Natives.Args.{Params, arg_count, check_args, clamp_cell}
use goradio_samp.Natives.Events.{callback_for}

-- The numbers of a cell.
abbrev pub Fits : ℤ → Type 0
Fits v = (negsuc int_max ≤ℤ v) × (v ≤ℤ pos int_max)

-- `ClampCell` hands out a number that a cell holds, and the nearest one: from the value towards any
-- cell `c` it stands on the way. A value that fits is thus unchanged.
pub clamp_cell-nearest :
    (v c : ℤ)
    → Fits c
    → Fits (clamp_cell v)
      × (((v ≤ℤ clamp_cell v) × (clamp_cell v ≤ℤ c)) ⊎ ((c ≤ℤ clamp_cell v) × (clamp_cell v ≤ℤ v)))
unfolding clamp_cell
clamp_cell-nearest v c h = ground arith

-- A script that passes `n` arguments passes the test for `expected` of them exactly where `expected` is
-- at most `n`.
pub check_args-count :
    (p : Platform) (params : Params) (n expected : ℕ)
    → params 0 ≡ pos (4 * n)
    → 4 * n ≤ int_max
    → check_args p params expected ≡ leb expected n
unfolding check_args arg_count
check_args-count p params n expected e h = rw e (ground arith)

-- The number of an argument, where it is one.
abbrev pub FitsArg : Arg → Type 0
FitsArg (cell_arg n) = Fits n
FitsArg (text_arg text) = Unit

pub saturate-Fits : (v : ℤ) → Fits (saturate v)
unfolding saturate
saturate-Fits v = ground arith

flag-Fits : (b : Bool) → Fits (if b then pos 1 else pos 0)
flag-Fits b = ground arith

request-Fits : (n : ℕ) → n ≤ int_max → Fits (pos n)
request-Fits n h = ground arith

-- An event whose station and request ids fit a cell becomes a callback all of whose numbers do,
-- whatever 64-bit numbers it carries.
pub callback_for-Fits :
    (kind : PawnEventKind) (ev : PawnEvent)
    → Fits ev.station_id
    → ev.request_id ≤ int_max
    → All FitsArg (callback_for kind ev).args
unfolding callback_for add_int64
callback_for-Fits server_info ev h r = tt & tt
callback_for-Fits station_registered ev h r =
    h & tt & flag-Fits ev.flag & flag-Fits (not (eq_ℤ ev.num1 (pos 0))) & tt
callback_for-Fits track_started ev h r = h & tt & tt & tt & tt & tt & saturate-Fits ev.num1 & tt
callback_for-Fits track_ended ev h r = h & tt & tt & tt
callback_for-Fits track_queued ev h r =
    h & request-Fits ev.request_id r & tt & saturate-Fits ev.num2 & tt
callback_for-Fits queue_low ev h r = h & saturate-Fits ev.num1 & saturate-Fits ev.num2 & tt
callback_for-Fits queue_updated ev h r = h & saturate-Fits ev.num1 & tt
callback_for-Fits listener_count_changed ev h r = h & saturate-Fits ev.num1 & tt
callback_for-Fits silence_started ev h r = h & tt
callback_for-Fits silence_ended ev h r = h & tt
callback_for-Fits status_update ev h r = h & tt
callback_for-Fits command_result ev h r =
    h & request-Fits ev.request_id r & tt & flag-Fits ev.flag & saturate-Fits ev.num1 & tt
callback_for-Fits station_list ev h r = saturate-Fits ev.num1 & tt
callback_for-Fits error ev h r = h & tt & tt & tt

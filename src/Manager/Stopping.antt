-- ===== src/Manager/Stopping.antt =====
-- The end of a station's thread: `StreamLoop` of src/manager.cpp, and what `DestroyStation` and
-- `Shutdown` rely on when they join it.
use goradio_samp.Base.{
  suc, ℕ, ◌≤◌, Bool, false, ◌≡◌, refl, List, [], ◌∷◌, All, arith, Bool-cases, inl, inr,
}
use goradio_samp.Clib.{Platform}
use goradio_samp.Connect.Client.{Reply}
use goradio_samp.Connect.Errors.{is_permanent}
use goradio_samp.Connect.Stream.{
  Opened, opened, not_opened, StreamRead, event, no_event, stream_end,
}
use goradio_samp.Manager.State.{Manager}
use goradio_samp.Manager.Worker.{
  goes_on, after_register, Attempted, registered_now, given_up, try_again,
}
use goradio_samp.Manager.Streams.{
  Phase, registering, calling, subscribing, opening, reading, leaving, finished, advance_phase,
  after_attempt, on_reply, on_open, on_read, is_stopping,
}

-- What the thread may hear at one of its steps: the reply to RegisterStation, the outcomes of `Open`
-- and of `Read`, and a reading of the steady clock.
pub record Heard : Type 0 where
  pub reply : Reply
  pub outcome : Opened
  pub read : StreamRead
  pub now : ℕ

-- One step of `StreamLoop`, from whichever place the thread stands at.
unfoldable pub own_step : Platform → ℕ → Heard → Phase → Manager → Phase × Manager
unfolding advance_phase on_reply on_open on_read
own_step p n h (calling reconnect wait backoff) m = on_reply p n reconnect wait backoff h.reply m
own_step p n h (opening backoff) m = on_open n backoff h.outcome m
own_step p n h (reading backoff) m = on_read h.now n backoff h.read m
own_step p n h (registering reconnect wait backoff) m =
    advance_phase n (registering reconnect wait backoff) m
own_step p n h (subscribing backoff) m = advance_phase n (subscribing backoff) m
own_step p n h (leaving backoff) m = advance_phase n (leaving backoff) m
own_step p n h finished m = (finished, m)

-- The thread's steps, each with the manager as the other threads have left it by then.
unfoldable pub own_steps : Platform → ℕ → List (Heard × Manager) → Phase → Phase
unfolding own_step
own_steps p n [] ph = ph
own_steps p n ((h, m) ∷ later) ph = own_steps p n later (own_step p n h ph m).0

-- The station is being torn down or the workers are stopped.
abbrev pub IsStopped : ℕ → Heard × Manager → Type 0
IsStopped n (h, m) = goes_on m n ≡ false

abbrev count_read : StreamRead → ℕ → ℕ
count_read (event v) k = k
count_read no_event k = suc k
count_read (stream_end e) k = suc k

-- The moments at which `Read` has no event to hand out.
abbrev pub quiet_moments : List (Heard × Manager) → ℕ
quiet_moments [] = 0
quiet_moments ((h, m) ∷ later) = count_read h.read (quiet_moments later)

-- How many steps are left at most.
abbrev rank : Phase → ℕ
rank (registering reconnect wait backoff) = 1
rank (calling reconnect wait backoff) = 2
rank (subscribing backoff) = 1
rank (opening backoff) = 3
rank (reading backoff) = 2
rank (leaving backoff) = 1
rank finished = 0

after_attempt-rank :
    (n : ℕ) (reconnect : Bool) (backoff : ℕ) (r : Manager × Attempted)
    → rank (after_attempt n reconnect backoff r).0 ≤ 1
after_attempt-rank n reconnect backoff (m, registered_now) = omega arith
after_attempt-rank n reconnect backoff (m, given_up) = omega arith
after_attempt-rank n reconnect backoff (m, try_again wait) = omega arith

on_open-rank : (n backoff : ℕ) (o : Opened) (m : Manager) → rank (on_open n backoff o m).0 ≤ 2
unfolding on_open
on_open-rank n backoff opened m = omega arith
on_open-rank n backoff (not_opened e) m = elim (Bool-cases (is_stopping m n)) [
  | inl x ↦ ground (arith, x)
  | inr x ↦ elim (Bool-cases (is_permanent e)) [
    | inl y ↦ ground (arith, x, y)
    | inr y ↦ ground (arith, x, y)
  ]
]

on_read-rank :
    (now n backoff k : ℕ) (r : StreamRead) (m : Manager)
    → goes_on m n ≡ false
    → 2 ≤ count_read r k
    → rank (on_read now n backoff r m).0 ≤ k
unfolding on_read
on_read-rank now n backoff k (event v) m stopped le = omega (arith, le)
on_read-rank now n backoff k no_event m stopped le = rw stopped (omega (arith, le))
on_read-rank now n backoff k (stream_end e) m stopped le = omega (arith, le)

count_read_le : (r : StreamRead) (k : ℕ) → count_read r k ≤ suc k
count_read_le (event v) k = omega arith
count_read_le no_event k = omega arith
count_read_le (stream_end e) k = omega arith

own_step-rank :
    (p : Platform) (n k : ℕ) (h : Heard) (ph : Phase) (m : Manager)
    → IsStopped n (h, m)
    → rank ph ≤ count_read h.read k
    → rank (own_step p n h ph m).0 ≤ k
unfolding own_step advance_phase on_reply
own_step-rank p n k h (registering reconnect wait backoff) m s le = rw s (omega arith)
own_step-rank p n k h (calling reconnect wait backoff) m s le = omega (
  arith,
  after_attempt-rank n reconnect backoff (after_register p n reconnect wait h.reply m),
  le,
  count_read_le h.read k,
)
own_step-rank p n k h (subscribing backoff) m s le = rw s (omega arith)
own_step-rank p n k h (opening backoff) m s le =
    omega (arith, on_open-rank n backoff h.outcome m, le, count_read_le h.read k)
own_step-rank p n k h (reading backoff) m s le = on_read-rank h.now n backoff k h.read m s le
own_step-rank p n k h (leaving backoff) m s le = rw s (omega arith)
own_step-rank p n k h finished m s le = omega arith

rank-finished : (ph : Phase) → rank ph ≤ 0 → ph ≡ finished
rank-finished (registering reconnect wait backoff) h = absurd (omega (arith, h))
rank-finished (calling reconnect wait backoff) h = absurd (omega (arith, h))
rank-finished (subscribing backoff) h = absurd (omega (arith, h))
rank-finished (opening backoff) h = absurd (omega (arith, h))
rank-finished (reading backoff) h = absurd (omega (arith, h))
rank-finished (leaving backoff) h = absurd (omega (arith, h))
rank-finished finished h = refl

own_steps-rank :
    (p : Platform) (n : ℕ) (moments : List (Heard × Manager)) (ph : Phase)
    → All (IsStopped n) moments
    → rank ph ≤ quiet_moments moments
    → own_steps p n moments ph ≡ finished
unfolding own_steps
own_steps-rank p n [] ph s le = rank-finished ph le
own_steps-rank p n ((h, m) ∷ later) ph s le =
    own_steps-rank p n later ((own_step p n h ph m).0) s.1
      (own_step-rank p n (quiet_moments later) h ph m s.0 le)

rank_le : (ph : Phase) → rank ph ≤ 3
rank_le (registering reconnect wait backoff) = omega arith
rank_le (calling reconnect wait backoff) = omega arith
rank_le (subscribing backoff) = omega arith
rank_le (opening backoff) = omega arith
rank_le (reading backoff) = omega arith
rank_le (leaving backoff) = omega arith
rank_le finished = omega arith

-- The thread of a station that is being torn down, or of a plugin whose workers are stopped, ends: from
-- any place of its loop, whatever the server replies to `RegisterStation` and `Open` and whatever the
-- other threads do, as soon as its own steps count three at which `Read` has no event to hand out.
-- Steps at which it has one may come between these.
pub own_steps-finished :
    (p : Platform) (n : ℕ) (moments : List (Heard × Manager)) (ph : Phase)
    → All (IsStopped n) moments
    → 3 ≤ quiet_moments moments
    → own_steps p n moments ph ≡ finished
own_steps-finished p n moments ph s le =
    own_steps-rank p n moments ph s (omega (arith, rank_le ph, le))

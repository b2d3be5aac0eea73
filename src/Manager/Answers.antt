-- ===== src/Manager/Answers.antt =====
-- What a worker tells the scripts of a job: `WorkerLoop` and `HandleJobResponse` of src/manager.cpp.
use goradio_samp.Base.{ℕ, ◌≡◌, refl, [], ◌∷◌, ◌++◌, List, ◌⊎◌, inl, inr, All, append_assoc}
use goradio_samp.Clib.{Platform}
use goradio_samp.Connect.Client.{Reply, reply, rpc_error}
use goradio_samp.Manager.State.{Manager, Job, job_command, job_queue_track, PawnEvent, error}
use goradio_samp.Manager.Worker.{finish_job, fail_job, handle_job_response, handle_as}

-- One event for the request, and errors behind it.
abbrev pub Answers : Job → Manager → Manager → Type 0
Answers job m m' =
    (ev : PawnEvent) × (more : List PawnEvent) × (m'.dispatch ≡ m.dispatch ++ ev ∷ more)
    × (ev.request_id ≡ job.request_id)
    × (ev.station_id ≡ job.station_id)
    × All (λ e. e.kind ≡ error) more

-- Whatever the audio server replies to a command or a queued track, or if it fails to, the worker
-- pushes one event with the request's id and the station's, and behind it nothing but errors.
pub finish_job-Answers :
    (p : Platform) (now : ℕ) (job : Job) (r : Reply) (m : Manager)
    → (job.kind ≡ job_command) ⊎ (job.kind ≡ job_queue_track)
    → Answers job m (finish_job p now job r m)
unfolding finish_job fail_job handle_job_response handle_as
finish_job-Answers p now job (reply v) m (inl h) = rw (h) (_, [], refl, refl, refl, tt)
finish_job-Answers p now job (reply v) m (inr h) = rw (h) (_, [], refl, refl, refl, tt)
finish_job-Answers p now job (rpc_error e) m (inl h) =
    rw (h) (_, _, append_assoc m.dispatch _ _, refl, refl, (refl, tt))
finish_job-Answers p now job (rpc_error e) m (inr h) =
    rw (h) (_, _, append_assoc m.dispatch _ _, refl, refl, (refl, tt))

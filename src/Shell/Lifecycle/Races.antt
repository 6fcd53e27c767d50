-- ===== src/Shell/Lifecycle/Races.antt =====
-- crates/fndr-shell/src/capture_lifecycle.rs: the end of capture, and the dispatcher's turn between
-- whose halves a pause comes.
use fndr.Prelude.{ℕ, ◌≡◌, Bool, true, false, ◌∷◌, none, some, Result, ok, err, arith, ap}
use fndr.Shell.Worker.{CaptureWorkerEvent, CaptureWorkerReport}
use fndr.Shell.Lifecycle.{
  running, paused, stopped, running_state, SchedulerTickOutcome, CaptureLifecycleStopError,
  already_stopped, not_running, WorkerCalls, CaptureLifecycle, is_paused_state, publish, set_paused,
  shutdown, dispatch_read, dispatch_publish, u32, status_of, worker_event_status,
}

module _ {H E : Type 0} (calls : WorkerCalls H E) where
  -- A shutdown that answers a report has published that capture is stopped, with the chunks it has
  -- flushed; one that fails has published nothing.
  abbrev pub Told :
      CaptureLifecycle H
      → CaptureLifecycle H
      → Result CaptureWorkerReport (CaptureLifecycleStopError E)
      → Type 0
  Told before after (ok report) =
      (after.status.state ≡ stopped)
      × (after.status.shutdown_flushed_chunks ≡ some (u32 calls report.shutdown_flushed_chunks))
      × (after.published ≡ after.status ∷ before.published)
  Told before after (err e) = (after.status ≡ before.status) × (after.published ≡ before.published)

  no_worker :
      (l : CaptureLifecycle H) (pauses : Bool) (later_ms : ℕ)
      → l.worker ≡ none
      → (shutdown calls l later_ms ≡ (l, err already_stopped))
        × (set_paused calls l pauses later_ms ≡ (l, err not_running))
  unfolding shutdown set_paused
  no_worker l pauses later e = (ground arith, ground arith)

  shutdown-worker :
      (l : CaptureLifecycle H) (now_ms : ℕ) → (shutdown calls l now_ms).0.worker ≡ none
  unfolding shutdown publish
  shutdown-worker l now = ground arith

  shutdown-Told :
      (l : CaptureLifecycle H) (now_ms : ℕ)
      → Told l (shutdown calls l now_ms).0 (shutdown calls l now_ms).1
  unfolding shutdown publish status_of
  shutdown-Told l now = ground arith

  -- After a shutdown, whatever it answers, a second one answers that capture has already stopped, a
  -- pause answers that it does not run, and both change nothing; and the shutdown has published that
  -- capture is stopped, with the number of chunks flushed, exactly if it answers a report.
  pub shutdown_once :
      (lifecycle : CaptureLifecycle H) (now_ms later_ms : ℕ) (pauses : Bool)
      → (shutdown calls (shutdown calls lifecycle now_ms).0 later_ms
          ≡ ((shutdown calls lifecycle now_ms).0, err already_stopped))
        × (set_paused calls (shutdown calls lifecycle now_ms).0 pauses later_ms
            ≡ ((shutdown calls lifecycle now_ms).0, err not_running))
        × Told lifecycle (shutdown calls lifecycle now_ms).0 (shutdown calls lifecycle now_ms).1
  shutdown_once lifecycle now later pauses =
      let (a, b) =
        no_worker (shutdown calls lifecycle now).0 pauses later (shutdown-worker lifecycle now) in
      (a, b, shutdown-Told lifecycle now)

  set_paused-status :
      (l : CaptureLifecycle H) (handle : H) (now_ms : ℕ)
      → l.worker ≡ some handle
      → (calls.set_paused handle true).0 ≡ ok tt
      → (set_paused calls l true now_ms).0.status.state ≡ paused
  unfolding set_paused publish
  set_paused-status l handle now w a = ground arith

  -- Between the dispatcher's reading of the status and its publication, a pause that the worker
  -- acknowledges and that is answered as paused is overwritten: the status then says that capture
  -- runs. With the reading after the pause it says that capture is paused.
  pub pause_overwritten :
      (lifecycle : CaptureLifecycle H) (handle : H)
      (event : CaptureWorkerEvent SchedulerTickOutcome) (now_ms : ℕ)
      → lifecycle.worker ≡ some handle
      → (calls.set_paused handle true).0 ≡ ok tt
      → is_paused_state lifecycle.status.state ≡ false
      → let after = (set_paused calls lifecycle true now_ms).0 in
        (after.status.state ≡ paused)
        × ((dispatch_publish after event (dispatch_read lifecycle)).status.state ≡ running)
        × ((dispatch_publish after event (dispatch_read after)).status.state ≡ paused)
  unfolding publish dispatch_read dispatch_publish worker_event_status
  pause_overwritten lifecycle handle event now w a s =
      let p = set_paused-status lifecycle handle now w a in
      (p, ap running_state s, ap (λ st. running_state (is_paused_state st)) p)

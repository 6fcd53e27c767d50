-- ===== src/Shell/Lifecycle.antt =====
-- crates/fndr-shell/src/capture_lifecycle.rs and the status types of crates/fndr-types/src/lib.rs:
-- the status that the application shows, and the end of capture. A time in milliseconds is an `f64`
-- that stands for a natural number, exactly below 2^53.
pub mod Codes
pub mod Races
use fndr.Prelude.{
  ℕ, ◌-◌, ◌^◌, ◌≡◌, min, Bool, true, false, List, [], ◌∷◌, ◌++◌, Option, none, some, Result, ok,
  err, if◌then◌else◌, map_option,
}
use fndr.Text.{Text, codes}
use fndr.Capture.Pipeline.{
  SkipReason, metadata_unavailable, pre_capture_privacy, private_browsing, admission_policy,
  perceptual_duplicate, missing_perceptual_signature, low_signal, semantic_duplicate, final_privacy,
  screen_recording_or_capture_unavailable, capture_failed, ocr_failed, persistence_failed,
  CaptureTickOutcome, PipelineError,
}
use fndr.Shell.Scheduler.{FlushTickOutcome}
use fndr.Shell.Worker.{
  CaptureWorkerEvent, CaptureWorkerReport, CaptureWorkerStartError, invalid_capture_interval,
  thread_spawn, scheduler_error, startup_channel_closed,
}

pub data CaptureRuntimeState : Type 0 where
  starting running paused blocked stopped : CaptureRuntimeState

pub data CaptureTickState : Type 0 where
  tick_stored tick_url_only_stored tick_skipped tick_failed : CaptureTickState

pub data CaptureFlushState : Type 0 where
  flush_not_due flush_flushed flush_failed : CaptureFlushState

pub record CaptureTickStatus : Type 0 where
  pub capture : CaptureTickState
  pub flush : CaptureFlushState
  pub reason : Option Text

pub record CaptureRuntimeStatus : Type 0 where
  pub state : CaptureRuntimeState
  pub observed_at_ms : ℕ
  pub tick : Option CaptureTickStatus
  pub shutdown_flushed_chunks : Option ℕ
  pub reason : Option Text

-- `SchedulerTickOutcome` of capture_scheduler.rs.
pub record SchedulerTickOutcome : Type 0 where
  pub capture : CaptureTickOutcome
  pub flush : FlushTickOutcome

-- `SchedulerStartError` of capture_scheduler.rs, by its case.
pub data SchedulerStartError : Type 0 where
  model_missing invalid_flush_interval store_error ocr_error pipeline_error : SchedulerStartError

pub data CaptureLifecycleStopError (E : Type 0) : Type 0 where
  already_stopped : CaptureLifecycleStopError E
  worker_stop : E → CaptureLifecycleStopError E
  dispatcher_panicked : CaptureLifecycleStopError E

pub data CaptureLifecycleControlError : Type 0 where
  not_running worker_unavailable : CaptureLifecycleControlError

unfoldable pub skip_reason_code : SkipReason → Text
skip_reason_code metadata_unavailable = codes "metadata_unavailable"
skip_reason_code pre_capture_privacy = codes "pre_capture_privacy"
skip_reason_code private_browsing = codes "private_browsing"
skip_reason_code admission_policy = codes "admission_policy"
skip_reason_code perceptual_duplicate = codes "perceptual_duplicate"
skip_reason_code missing_perceptual_signature = codes "missing_perceptual_signature"
skip_reason_code low_signal = codes "low_signal"
skip_reason_code semantic_duplicate = codes "semantic_duplicate"
skip_reason_code final_privacy = codes "final_privacy"
skip_reason_code screen_recording_or_capture_unavailable =
    codes "screen_recording_or_capture_unavailable"
skip_reason_code capture_failed = codes "capture_failed"
skip_reason_code ocr_failed = codes "ocr_failed"
skip_reason_code persistence_failed = codes "persistence_failed"

unfoldable pub start_error_reason : CaptureWorkerStartError SchedulerStartError → Text
start_error_reason invalid_capture_interval = codes "invalid_capture_interval"
start_error_reason thread_spawn = codes "capture_thread_unavailable"
start_error_reason (scheduler_error model_missing) = codes "model_missing"
start_error_reason (scheduler_error invalid_flush_interval) = codes "invalid_flush_interval"
start_error_reason (scheduler_error store_error) = codes "store_unavailable"
start_error_reason (scheduler_error ocr_error) = codes "ocr_unavailable"
start_error_reason (scheduler_error pipeline_error) = codes "pipeline_unavailable"
start_error_reason startup_channel_closed = codes "capture_startup_interrupted"

unfoldable pub capture_status : CaptureTickOutcome → CaptureTickState × Option Text
unfolding skip_reason_code
capture_status CaptureTickOutcome.stored = (tick_stored, none)
capture_status CaptureTickOutcome.url_only_stored = (tick_url_only_stored, none)
capture_status (CaptureTickOutcome.skipped reason) = (tick_skipped, some (skip_reason_code reason))
capture_status (CaptureTickOutcome.failed reason error) =
    (tick_failed, some (skip_reason_code reason))

abbrev pub flush_status : FlushTickOutcome → CaptureFlushState
flush_status FlushTickOutcome.not_due = flush_not_due
flush_status (FlushTickOutcome.flushed report) = flush_flushed
flush_status (FlushTickOutcome.failed message) = flush_failed

-- `is_paused.then(|| "user_paused".into())`.
abbrev pub pause_reason : Bool → Option Text
pause_reason true = some (codes "user_paused")
pause_reason false = none

abbrev pub running_state : Bool → CaptureRuntimeState
running_state true = paused
running_state false = running

unfoldable pub worker_event_status :
    CaptureWorkerEvent SchedulerTickOutcome → Bool → CaptureRuntimeStatus
worker_event_status event is_paused =
    let (capture, reason) = capture_status event.outcome.capture in
    record {
      state = running_state is_paused;
      observed_at_ms = event.observed_at_ms;
      tick =
          some (record {
            capture = capture;
            flush = flush_status event.outcome.flush;
            reason = reason;
          });
      shutdown_flushed_chunks = none;
      reason = pause_reason is_paused;
    }

-- `status`.
unfoldable pub status_of : CaptureRuntimeState → ℕ → CaptureRuntimeStatus
status_of state now_ms = record {
  state = state;
  observed_at_ms = now_ms;
  tick = none;
  shutdown_flushed_chunks = none;
  reason = none;
}

-- A running worker: what its handle's calls answer.
pub record WorkerCalls (H E : Type 0) : Type 0 where
  pub set_paused : H → Bool → Result (Unit {0}) (Unit {0}) × H
  pub shutdown : H → Result CaptureWorkerReport E
  pub join_dispatcher : H → Result (Unit {0}) (Unit {0})

-- `CaptureLifecycle`: the handle until the shutdown takes it, the current status, and what the sink
-- has been given, the last first.
pub record CaptureLifecycle (H : Type 0) : Type 0 where
  pub worker : Option H
  pub status : CaptureRuntimeStatus
  pub published : List CaptureRuntimeStatus

unfoldable pub publish :
    {H : Type 0} → CaptureLifecycle H → CaptureRuntimeStatus → CaptureLifecycle H
publish lifecycle next = record lifecycle { status = next; published = next ∷ lifecycle.published }

-- `is_paused` in the dispatcher's turn.
abbrev pub is_paused_state : CaptureRuntimeState → Bool
is_paused_state starting = false
is_paused_state running = false
is_paused_state paused = true
is_paused_state blocked = false
is_paused_state stopped = false

module _ {H E : Type 0} (calls : WorkerCalls H E) where
  -- `start`, from the worker's answer; the clock is read for each status.
  unfoldable pub start :
      Result H (CaptureWorkerStartError SchedulerStartError)
      → ℕ
      → ℕ
      → ℕ
      → CaptureLifecycle H × Result (Unit {0}) (CaptureWorkerStartError SchedulerStartError)
  unfolding publish
  start answer now0 now1 now2 =
      let first_status = status_of starting now0 in
      let fresh : CaptureLifecycle H =
        publish (record { worker = none; status = first_status; published = [] })
          (status_of starting now1) in
      elim answer
        as (λ _.
          CaptureLifecycle H × Result (Unit {0}) (CaptureWorkerStartError SchedulerStartError)) [
            | ok handle ↦
                (record (publish fresh (status_of running now2)) { worker = some handle }, ok tt)
            | err error ↦ (
              publish fresh
                  (record (status_of blocked now2) { reason = some (start_error_reason error) }),
              err error,
            )
          ]

  -- The status after a pause or a resumption that the worker has acknowledged.
  abbrev pub paused_status : CaptureRuntimeStatus → Bool → ℕ → CaptureRuntimeStatus
  paused_status previous pauses now_ms = record {
    state = running_state pauses;
    observed_at_ms = now_ms;
    tick = previous.tick;
    shutdown_flushed_chunks = none;
    reason = pause_reason pauses;
  }

  unfoldable pub set_paused :
      CaptureLifecycle H
      → Bool
      → ℕ
      → CaptureLifecycle H × Result CaptureRuntimeStatus CaptureLifecycleControlError
  unfolding publish
  set_paused lifecycle pauses now_ms = elim lifecycle.worker [
    | none ↦ (lifecycle, err not_running)
    | some handle ↦
        let (answer, handle1) = calls.set_paused handle pauses in
        let kept : CaptureLifecycle H = record lifecycle { worker = some handle1 } in
        let next = paused_status lifecycle.status pauses now_ms in
        elim answer
          as (λ _. CaptureLifecycle H × Result CaptureRuntimeStatus CaptureLifecycleControlError) [
            | ok u ↦ (publish kept next, ok next)
            | err e ↦ (kept, err worker_unavailable)
          ]
  ]

  -- `u32::try_from(n).unwrap_or(u32::MAX)`.
  abbrev pub u32 : ℕ → ℕ
  u32 n = min n (2 ^ 32 - 1)

  unfoldable pub shutdown :
      CaptureLifecycle H
      → ℕ
      → CaptureLifecycle H × Result CaptureWorkerReport (CaptureLifecycleStopError E)
  unfolding publish
  shutdown lifecycle now_ms = elim lifecycle.worker [
    | none ↦ (lifecycle, err already_stopped)
    | some handle ↦
        let taken : CaptureLifecycle H = record lifecycle { worker = none } in
        elim (calls.shutdown handle)
          as (λ _. CaptureLifecycle H × Result CaptureWorkerReport (CaptureLifecycleStopError E)) [
            | err e ↦ (taken, err (worker_stop e))
            | ok report ↦
                elim (calls.join_dispatcher handle)
                  as (λ _.
                    CaptureLifecycle H × Result CaptureWorkerReport (CaptureLifecycleStopError E)) [
                      | err u ↦ (taken, err dispatcher_panicked)
                      | ok u ↦ (
                        publish taken (record (status_of stopped now_ms) {
                          shutdown_flushed_chunks = some (u32 report.shutdown_flushed_chunks);
                        }),
                        ok report,
                      )
                    ]
          ]
  ]

-- The dispatcher's turn in its two halves, between which others may come: it reads whether capture
-- is paused, and then publishes.
unfoldable pub dispatch_read : {H : Type 0} → CaptureLifecycle H → Bool
dispatch_read lifecycle = is_paused_state lifecycle.status.state

unfoldable pub dispatch_publish :
    {H : Type 0}
    → CaptureLifecycle H
    → CaptureWorkerEvent SchedulerTickOutcome
    → Bool
    → CaptureLifecycle H
unfolding publish
dispatch_publish lifecycle event is_paused = publish lifecycle (worker_event_status event is_paused)

-- ===== src/Tests/Worker.antt =====
-- The worker, its lifecycle and the model's queue: small runs, and the theorems at concrete inputs.
use fndr.Prelude.{ℕ, ◌+◌, ◌≡◌, refl, true, false, List, [], ◌∷◌, none, some, ok, err, length}
use fndr.Text.{codes}
use fndr.Capture.Pipeline.{CaptureTickOutcome}
use fndr.Shell.Scheduler.{FlushTickOutcome}
use fndr.Capture.Sampling.{default, decide}
use fndr.Shell.Worker.{
  CaptureLoop, CaptureWorkerEvent, Turn, command, nothing, set_paused, shutdown, ticked,
  acknowledged, drained, run_capture_loop, run_turns, fresh_worker, iterate, awake, receive,
  apply_command, finish, capture, try_send,
}
use fndr.Shell.Worker.Cadence.{Obeys, run_capture_loop-Obeys}
use fndr.Shell.Worker.Ending.{Accounts, run_capture_loop-Accounts}
use fndr.Shell.Lifecycle.{
  WorkerCalls, CaptureLifecycle, SchedulerTickOutcome, running, paused, status_of, start,
  capture_status, skip_reason_code, worker_event_status, dispatch_read, dispatch_publish, publish,
  not_running, already_stopped,
}
use fndr.Shell.Lifecycle.Races.{Told, shutdown_once, pause_overwritten}
use fndr.Inference.ModelWorker.{
  Models, WorkerState, interactive, backfill, query, documents, pop, job_less, spawn, submit, turn,
  run_job, time_out,
}
use fndr.Inference.Order.{Taken, pop-Taken}
use fndr.Inference.Answers.{turns, Answered, all-Answered}

-- A scheduler that counts its ticks, and flushes as many chunks.
abbrev counting : CaptureLoop ℕ ℕ ℕ
counting = record { tick = λ s now. (s + 1, now); flush_on_shutdown = λ s now. (s, ok s) }

-- A capture and a pause, a resumption, a wait, and a capture and the shutdown.
abbrev afternoon : List Turn
afternoon =
    record {
      now = 10_000;
      idle = 0;
      received = command (set_paused true);
      finish_now = 0;
      taken = 0;
    }
    ∷ record {
      now = 20_000;
      idle = 0;
      received = command (set_paused false);
      finish_now = 0;
      taken = 1;
    }
    ∷ record { now = 11_000; idle = 0; received = nothing; finish_now = 0; taken = 0 }
    ∷ record { now = 31_000; idle = 0; received = command shutdown; finish_now = 32_000; taken = 0 }
    ∷ []

abbrev calls : WorkerCalls ℕ ℕ
calls = record {
  set_paused = λ h b. (ok tt, h);
  shutdown = λ h. ok (record { ticks = 3; shutdown_flushed_chunks = h });
  join_dispatcher = λ h. ok tt;
}

abbrev alive : CaptureLifecycle ℕ
alive = record { worker = some 9; status = status_of running 1_000; published = [] }

abbrev stored_event : CaptureWorkerEvent SchedulerTickOutcome
stored_event = record {
  observed_at_ms = 2_000;
  outcome = record { capture = CaptureTickOutcome.stored; flush = FlushTickOutcome.not_due };
}

-- Models that are loaded at once; the world counts the loads.
abbrev models : Models ℕ ℕ ℕ ℕ
models = record {
  loader = λ w. (ok 1, w + 1);
  embed_documents = λ m texts w. (ok [], w);
  embed_query = λ m text w. (ok 7, w);
  failed = λ t. 0;
}

abbrev two_jobs : WorkerState models
two_jobs =
    submit models (submit models (spawn models 0) backfill (documents [])) interactive
      (query (codes "budget"))

program : Unit {0}
unfolding default decide run_capture_loop run_turns fresh_worker iterate awake receive apply_command
    finish capture try_send start status_of publish capture_status skip_reason_code
    worker_event_status dispatch_read dispatch_publish pop job_less spawn submit turn run_job
    time_out turns
program = tt
  where
    actions :
        (run_capture_loop counting default 0 afternoon).0
        ≡ ticked 10_000
          ∷ acknowledged true
          ∷ acknowledged false
          ∷ ticked 31_000
          ∷ drained 32_000
          ∷ []
    actions = refl

    started : (start calls (ok 9) 1 2 3).0.status.state ≡ running
    started = refl

    overwritten : (dispatch_publish alive stored_event (dispatch_read alive)).status.state ≡ running
    overwritten = refl

    interactive_first : (turns models 2 two_jobs).sent ≡ (0, ok []) ∷ (1, ok (7 ∷ [])) ∷ []
    interactive_first = refl

    loaded_once : (turns models 2 two_jobs).world ≡ 1
    loaded_once = refl

    unloaded : (time_out models (turns models 2 two_jobs)).model ≡ none
    unloaded = refl

run_capture_loop-Obeys_example :
    Obeys default false 0 (run_capture_loop counting default 0 afternoon).0
run_capture_loop-Obeys_example = run_capture_loop-Obeys counting default 0 afternoon

run_capture_loop-Accounts_example :
    Accounts counting default 0
      (run_capture_loop counting default 0 afternoon).0
      (run_capture_loop counting default 0 afternoon).1
run_capture_loop-Accounts_example = run_capture_loop-Accounts counting default 0 afternoon

shutdown_once_example :
    (fndr.Shell.Lifecycle.shutdown calls (fndr.Shell.Lifecycle.shutdown calls alive 2_000).0 3_000
      ≡ ((fndr.Shell.Lifecycle.shutdown calls alive 2_000).0, err already_stopped))
    × (fndr.Shell.Lifecycle.set_paused calls
          (fndr.Shell.Lifecycle.shutdown calls alive 2_000).0
          true
          3_000
        ≡ ((fndr.Shell.Lifecycle.shutdown calls alive 2_000).0, err not_running))
    × Told calls alive
        (fndr.Shell.Lifecycle.shutdown calls alive 2_000).0
        (fndr.Shell.Lifecycle.shutdown calls alive 2_000).1
shutdown_once_example = shutdown_once calls alive 2_000 3_000 true

pause_overwritten_example :
    ((fndr.Shell.Lifecycle.set_paused calls alive true 5_000).0.status.state ≡ paused)
    × ((dispatch_publish
          (fndr.Shell.Lifecycle.set_paused calls alive true 5_000).0
          stored_event
          (dispatch_read alive)).status.state
        ≡ running)
    × ((dispatch_publish
          (fndr.Shell.Lifecycle.set_paused calls alive true 5_000).0
          stored_event
          (dispatch_read (fndr.Shell.Lifecycle.set_paused calls alive true 5_000).0)).status.state
        ≡ paused)
unfolding status_of
pause_overwritten_example = pause_overwritten calls alive 9 stored_event 5_000 refl refl refl

pop-Taken_example : Taken two_jobs.queue (pop two_jobs.queue)
pop-Taken_example = pop-Taken two_jobs.queue

all-Answered_example :
    Answered models (length two_jobs.queue) two_jobs (turns models (length two_jobs.queue) two_jobs)
unfolding submit spawn
all-Answered_example = all-Answered models two_jobs refl

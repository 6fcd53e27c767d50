-- ===== src/Shell/Tick.antt =====
-- crates/fndr-shell/src/capture_scheduler.rs: a whole tick, the capture and the flush behind it. The
-- outside world of the pipeline is the store of its sink and what else its boundaries act on, `A`.
use fndr.Prelude.{ℕ, ◌≤◌, ◌-◌, ◌≡◌, ap, ok, err, arith, leb, inl, inr, Bool-cases}
use fndr.Text.{Text}
use fndr.Store.{Store}
use fndr.Store.Flush.{Derived, FlushError, Flushed, flush_once}
use fndr.Capture.Pipeline.{Boundaries, CapturePipeline, run_tick}
use fndr.Shell.Scheduler.{
  FlushTickOutcome, not_due, failed, i64, after_flush, flush_if_due, flush_if_due_retries,
}
use fndr.Shell.Lifecycle.{SchedulerTickOutcome}

-- The writer's table and the embedder are one world, `W`.
pub record CaptureScheduler (A H W : Type 0) : Type 0 where
  pub pipeline : CapturePipeline (Store × A) H
  pub world : W
  pub last_successful_flush_ms : ℕ
  pub flush_interval_ms : ℕ

module _ {A H F W V E : Type 0} (on : Boundaries (Store × A) H F) (index : Derived W V E)
    (error_text : FlushError E → Text) where
  -- The flush of a tick, on what the capture leaves.
  abbrev pub flush_of :
      CaptureScheduler A H W → CapturePipeline (Store × A) H → ℕ → Store × W × ℕ × FlushTickOutcome
  flush_of s p now_ms =
      flush_if_due index error_text s.flush_interval_ms p.world.0 s.world s.last_successful_flush_ms
        now_ms

  unfoldable pub tick : CaptureScheduler A H W → ℕ → CaptureScheduler A H W × SchedulerTickOutcome
  tick s now_ms =
      let (p, capture) = run_tick on s.pipeline in
      let (store, world, last, flush) = flush_of s p now_ms in
      (
        record s {
          pipeline = record p { world = (store, p.world.1) };
          world = world;
          last_successful_flush_ms = last;
        },
        record { capture = capture; flush = flush },
      )

  after_flush-due :
      (last now_ms : ℕ) (f : Flushed index)
      → (after_flush index error_text last now_ms f).3 ≡ not_due
      → ⊥
  after_flush-due last now (s, w, ok report) h = cc h
  after_flush-due last now (s, w, err e) h = cc h

  flush_if_due-due :
      (interval : ℕ) (s : Store) (w : W) (last now_ms : ℕ)
      → interval ≤ now_ms - last
      → (flush_if_due index error_text interval s w last now_ms).3 ≡ not_due
      → ⊥
  unfolding flush_if_due
  flush_if_due-due interval s w last now due h = elim (Bool-cases (leb interval (now - last))) [
    | inl e ↦ after_flush-due last now (flush_once index s w (i64 now)) (rw e at h)
    | inr e ↦ absurd (ground (arith, e, due))
  ]

  -- If the flush of a tick fails, then the tick leaves what its capture left, the store included, and
  -- a tick at any later time tries the flush again, whatever its own capture does: its flush is due.
  pub tick_retries :
      (s : CaptureScheduler A H W) (now_ms later_ms : ℕ) (message : Text)
      → (tick s now_ms).1.flush ≡ failed message
      → now_ms ≤ later_ms
      → ((tick s now_ms).0.pipeline ≡ (run_tick on s.pipeline).0)
        × ¬ ((tick (tick s now_ms).0 later_ms).1.flush ≡ not_due)
  unfolding tick
  tick_retries s now later m e le =
      let p = (run_tick on s.pipeline).0 in
      let (same, due) =
        flush_if_due_retries index error_text s.flush_interval_ms p.world.0 s.world
          s.last_successful_flush_ms now later m e le in
      (
        ap (λ store. record p { world = (store, p.world.1) }) same,
        flush_if_due-due _ _ _ _ later due,
      )

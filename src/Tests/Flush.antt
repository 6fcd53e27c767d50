-- ===== src/Tests/Flush.antt =====
-- The flush and the drain at concrete inputs.
use fndr.Prelude.{place, order_by, ℕ, ◌≡◌, refl, [], ◌∷◌, none, some, ok, err, arith}
use fndr.Text.{codes, text_eq, contains, starts_with, to_ascii_lowercase}
use fndr.Capture.Admission.{classify_capture_surface_policy}
use fndr.Capture.Admission
use fndr.Capture.Pipeline
use fndr.Capture.Dedup.Perceptual
use fndr.Capture.Pipeline.{new, run_tick, default_config}
use fndr.Store.{Store, pending_chunks, join_rows, find_record}
use fndr.Store.Flush.{
  check_dimensions, Derived, Settled, flush_batch_size, flush_once, flush_once-Settled,
}
use fndr.Shell.Scheduler.{
  Drained, not_due, flush_if_due, flush_on_shutdown, flush_on_shutdown_total,
}
use fndr.Shell.Lifecycle.{SchedulerTickOutcome}
use fndr.Shell.Tick.{CaptureScheduler, tick, tick_retries}
use fndr.Tests.Pipeline.{steady}

abbrev pub one_chunk : Store
one_chunk = record {
  records =
      record {
        id = codes "r1";
        session_id = codes "s1";
        source = codes "screen";
        app_name = codes "Notes";
        bundle_id = none;
        url = none;
        window_title = codes "List";
        captured_at_ms = 1_000;
        created_at_ms = 1_000;
      }
      ∷ [];
  chunks =
      record {
        id = codes "c1";
        record_id = codes "r1";
        ord = 0;
        text = codes "budget";
        flushed_at_ms = 0;
      }
      ∷ [];
}

-- An index that takes every batch, and one that is down.
abbrev up : Derived (Unit {0}) ℕ ℕ
up = record {
  dim = 1;
  vector_len = λ v. 1;
  embed_documents = λ texts w. (ok (7 ∷ []), w);
  open_or_create_table = λ w. (ok tt, w);
  add = λ chunks vectors w. (ok tt, w);
}

abbrev down : Derived (Unit {0}) ℕ ℕ
down = record up { add = λ chunks vectors w. (err 5, w) }

flush_once-Settled_example :
    Settled up one_chunk 5_000
      (pending_chunks one_chunk flush_batch_size)
      (flush_once up one_chunk tt 5_000)
flush_once-Settled_example = flush_once-Settled up one_chunk tt 5_000

-- A scheduler whose index is down, and whose screen gives no text.
abbrev stuck : CaptureScheduler (Unit {0}) ℕ (Unit {0})
stuck = record {
  pipeline = new (one_chunk, tt) default_config;
  world = tt;
  last_successful_flush_ms = 0;
  flush_interval_ms = 30_000;
}

abbrev tick_of :
    CaptureScheduler (Unit {0}) ℕ (Unit {0})
    → ℕ
    → CaptureScheduler (Unit {0}) ℕ (Unit {0}) × SchedulerTickOutcome
tick_of = tick steady down (λ e. codes "down")

tick_retries_example :
    ((tick_of stuck 40_000).0.pipeline ≡ (run_tick steady stuck.pipeline).0)
    × ¬ ((tick_of (tick_of stuck 40_000).0 41_000).1.flush ≡ not_due)
unfolding tick run_tick new flush_if_due flush_once pending_chunks join_rows find_record order_by
    place text_eq check_dimensions classify_capture_surface_policy Admission.is_browser_app
    Admission.contains_any to_ascii_lowercase contains starts_with Pipeline.run_tick_inner
    Pipeline.admit Pipeline.compare Perceptual.should_skip Perceptual.near_last Pipeline.read
tick_retries_example =
    tick_retries steady down (λ e. codes "down") stuck 40_000 41_000 (codes "down") refl
      (omega arith)

flush_on_shutdown_total_example :
    (result : Drained up) × (flush_on_shutdown up 2 one_chunk tt 0 5_000 0 ≡ some result)
flush_on_shutdown_total_example =
    flush_on_shutdown_total up 2 one_chunk tt 0 5_000 0 (omega arith) (omega arith)

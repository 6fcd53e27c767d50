-- ===== src/Tests/Pipeline.antt =====
-- The capture pipeline on boundaries that always answer the same.
use fndr.Prelude.{ℕ, ◌≡◌, refl, [], ◌∷◌, none, some, ok, err, arith, Has}
use fndr.Text.{codes, contains, starts_with, to_ascii_lowercase}
use fndr.Capture.Admission.{normal, classify_capture_surface_policy}
use fndr.Capture.Admission
use fndr.Capture.Dedup.{PerceptualSignature}
use fndr.Capture.Dedup.Perceptual
use fndr.Capture.Pipeline.{
  CaptureContext, Frame, OcrOutput, Boundaries, CapturePipeline, CaptureTickOutcome, PipelineError,
  CapturePipelineConfig, allow, skipped, perceptual_duplicate, run_tick, new, default_config,
}
use fndr.Capture.Pipeline
use fndr.Capture.Pipeline.Order.{traced, allowed_calls, run_tick_calls}
use fndr.Capture.Pipeline.Counters.{total, ticks, total-ticks}
use fndr.Capture.Pipeline.Retry.{Shows, unchanged_screen_not_retried}
use fndr.Tests.Capture.{numbers}

abbrev notes : CaptureContext
notes = record {
  app_name = codes "Notes";
  bundle_id = none;
  window_title = codes "List";
  url = none;
  observed_at_ms = 1_000;
}

abbrev signature : PerceptualSignature ℕ
signature = record { hash = 3; average_rgb = record { red = 1; green = 2; blue = 3 } }

abbrev frame : Frame ℕ
frame = record { png = 1 ∷ []; captured_at_ms = 1_000; perceptual_signature = some signature }

-- The recognition fails.
abbrev pub steady : {W : Type 0} → Boundaries W ℕ ℕ
steady = record {
  current_context = λ w. (ok notes, w);
  evaluate = λ c w. (allow, w);
  grab = λ w. (ok frame, w);
  recognize =
      λ png app bundle n w. (err (record { stage = Pipeline.ocr; message = codes "no text" }), w);
  persist_capture = λ c f o w. (ok Pipeline.PersistenceOutcome.stored, w);
  persist_url_only = λ c w. (ok Pipeline.PersistenceOutcome.stored, w);
  hasher = numbers;
  semantic_signature = λ app title text. 0;
  to_string = λ e. codes "error";
}

abbrev start : CapturePipeline (Unit {0}) ℕ
start = new tt default_config

shown : (w : Unit {0}) → Shows steady w signature
unfolding classify_capture_surface_policy Admission.is_browser_app Admission.contains_any
    to_ascii_lowercase contains starts_with
shown w = record {
  context = notes;
  frame = frame;
  known = w;
  gated = w;
  grabbed = w;
  metadata_ok = refl;
  gate_ok = refl;
  admitted = refl;
  grab_ok = refl;
  signed = refl;
}

run_tick_calls_example :
    let tick = run_tick (traced (steady {W = Unit {0}})) (new (tt, []) default_config) in
    Has tick.0.world.1 (allowed_calls tick.1)
unfolding new
run_tick_calls_example = run_tick_calls (steady {W = Unit {0}}) (new (tt, []) default_config) refl

total-ticks_example : total (ticks (steady {W = Unit {0}}) 3 (new tt default_config)).counters ≡ 3
total-ticks_example = total-ticks (steady {W = Unit {0}}) tt default_config 3 (omega arith)

unchanged_screen_not_retried_example :
    (run_tick steady (run_tick steady start).0).1 ≡ skipped perceptual_duplicate
unfolding new Perceptual.default Perceptual.new
unchanged_screen_not_retried_example =
    unchanged_screen_not_retried steady start signature (omega arith) refl (shown _) (shown _)

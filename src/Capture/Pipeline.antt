-- ===== src/Capture/Pipeline.antt =====
-- crates/fndr-capture/src/pipeline.rs: one capture opportunity through the staged pipeline.
-- The platform work behind the source's traits is a record of functions over a state `W` of the
-- outside world, which each call may change. `F32` stands for the source's `f32`, of which the
-- pipeline only passes a value on.
pub mod Order
pub mod Counters
pub mod Retry
use fndr.Prelude.{
  ℕ, suc, ◌+◌, ◌%◌, ◌^◌, Bool, true, false, List, [], ◌∷◌, Option, none, some, Result, ok, err,
  if◌then◌else◌, unwrap_or, ◌==◌,
}
use fndr.Text.{Text}
use fndr.Capture.Dedup.{ImageHasher, PerceptualSignature}
use fndr.Capture.Dedup.Perceptual
use fndr.Capture.Dedup.Perceptual.{PerceptualDeduper}
use fndr.Capture.Dedup.Semantic
use fndr.Capture.Dedup.Semantic.{SemanticDedupWindow}
use fndr.Capture.Admission.{normal, url_only, skip_frame, classify_capture_surface_policy}

pub record CaptureContext : Type 0 where
  pub app_name : Text
  pub bundle_id : Option Text
  pub window_title : Text
  pub url : Option Text
  pub observed_at_ms : ℕ

pub data CaptureStage : Type 0 where
  metadata capture ocr persistence : CaptureStage

pub record PipelineError : Type 0 where
  pub stage : CaptureStage
  pub message : Text

pub data SkipReason : Type 0 where
  metadata_unavailable pre_capture_privacy private_browsing admission_policy : SkipReason
  perceptual_duplicate missing_perceptual_signature low_signal semantic_duplicate : SkipReason
  final_privacy screen_recording_or_capture_unavailable capture_failed ocr_failed : SkipReason
  persistence_failed : SkipReason

-- The derived equality, by the position of the reason.
abbrev pub position : SkipReason → ℕ
position metadata_unavailable = 0
position pre_capture_privacy = 1
position private_browsing = 2
position admission_policy = 3
position perceptual_duplicate = 4
position missing_perceptual_signature = 5
position low_signal = 6
position semantic_duplicate = 7
position final_privacy = 8
position screen_recording_or_capture_unavailable = 9
position capture_failed = 10
position ocr_failed = 11
position persistence_failed = 12

-- `CaptureError` of source.rs; an I/O error is known by its text.
pub data CaptureError : Type 0 where
  permission_or_tool : Text → CaptureError
  io : Text → CaptureError
  empty : CaptureError
  signature_failed : Text → CaptureError

pub data GateDecision : Type 0 where
  allow : GateDecision
  skip : SkipReason → GateDecision

pub record Frame (H : Type 0) : Type 0 where
  pub png : List ℕ
  pub captured_at_ms : ℕ
  pub perceptual_signature : Option (PerceptualSignature H)

pub record OcrOutput (F32 : Type 0) : Type 0 where
  pub text : Text
  pub confidence : F32
  pub block_count : ℕ
  pub low_signal : Bool

pub data PersistenceOutcome : Type 0 where
  stored skipped_final_privacy : PersistenceOutcome

pub record CapturePipelineConfig : Type 0 where
  pub min_ocr_chars : ℕ
  pub semantic_dedup_window_ms : ℕ

unfoldable pub default_config : CapturePipelineConfig
default_config = record { min_ocr_chars = 12; semantic_dedup_window_ms = 30_000 }

pub data CaptureTickOutcome : Type 0 where
  stored : CaptureTickOutcome
  url_only_stored : CaptureTickOutcome
  skipped : SkipReason → CaptureTickOutcome
  failed : SkipReason → PipelineError → CaptureTickOutcome

-- The counters are `u64`s; a reason with no entry counts 0.
pub record CaptureCounters : Type 0 where
  pub stored : ℕ
  pub url_only_stored : ℕ
  pub skipped : SkipReason → ℕ

-- `CaptureContextSource`, `PreCaptureGate`, `FrameSource`, `OcrRecognizer` and `CaptureSink`, the
-- hash of a frame, the 64-bit hash of three texts, and an error's text.
pub record Boundaries (W H F32 : Type 0) : Type 0 where
  pub current_context : W → Result CaptureContext PipelineError × W
  pub evaluate : CaptureContext → W → GateDecision × W
  pub grab : W → Result (Frame H) CaptureError × W
  pub recognize : List ℕ → Text → Option Text → ℕ → W → Result (OcrOutput F32) PipelineError × W
  pub persist_capture :
      CaptureContext → Frame H → OcrOutput F32 → W → Result PersistenceOutcome PipelineError × W
  pub persist_url_only : CaptureContext → W → Result PersistenceOutcome PipelineError × W
  pub hasher : ImageHasher H
  pub semantic_signature : Text → Text → Text → ℕ
  pub to_string : CaptureError → Text

pub record CapturePipeline (W H : Type 0) : Type 0 where
  pub world : W
  pub config : CapturePipelineConfig
  pub perceptual_deduper : PerceptualDeduper H
  pub semantic_deduper : SemanticDedupWindow
  pub counters : CaptureCounters

unfoldable pub no_counts : CaptureCounters
no_counts = record { stored = 0; url_only_stored = 0; skipped = λ _. 0 }

unfoldable pub new : {W H : Type 0} → W → CapturePipelineConfig → CapturePipeline W H
unfolding no_counts Perceptual.default Semantic.default
new world config = record {
  world = world;
  config = config;
  perceptual_deduper = Perceptual.default;
  semantic_deduper = Semantic.default;
  counters = no_counts;
}

abbrev pub is_reason : SkipReason → SkipReason → Bool
is_reason r s = position r == position s

abbrev pub bump : SkipReason → (SkipReason → ℕ) → SkipReason → ℕ
bump r count s = if is_reason r s then (count s + 1) % 2 ^ 64 else count s

-- `CaptureCounters::record`.
unfoldable pub record_outcome : CaptureTickOutcome → CaptureCounters → CaptureCounters
record_outcome stored c = record c { stored = (c.stored + 1) % 2 ^ 64 }
record_outcome url_only_stored c = record c { url_only_stored = (c.url_only_stored + 1) % 2 ^ 64 }
record_outcome (skipped reason) c = record c { skipped = bump reason c.skipped }
record_outcome (failed reason error) c = record c { skipped = bump reason c.skipped }

module _ {W H F32 : Type 0} (on : Boundaries W H F32) where
  abbrev pub Tick : Type 0
  Tick = CapturePipeline W H × CaptureTickOutcome

  -- The final `match` on the sink's answer, with what counts as stored.
  unfoldable pub persisted :
      CaptureTickOutcome → Result PersistenceOutcome PipelineError → CaptureTickOutcome
  persisted done (ok stored) = done
  persisted done (ok skipped_final_privacy) = skipped final_privacy
  persisted done (err error) = failed persistence_failed error

  unfoldable pub persist_url_only : CaptureContext → CapturePipeline W H → Tick
  persist_url_only context p =
      let signature =
        on.semantic_signature context.app_name context.window_title (unwrap_or [] context.url) in
      let (window, repeated) =
        Semantic.should_skip p.semantic_deduper signature context.observed_at_ms
          p.config.semantic_dedup_window_ms in
      let (answer, world) = on.persist_url_only context p.world in
      if repeated
      then (record p { semantic_deduper = window }, skipped semantic_duplicate)
      else (record p { semantic_deduper = window; world = world }, persisted url_only_stored answer)

  -- From the semantic window on.
  unfoldable pub store : CaptureContext → Frame H → OcrOutput F32 → CapturePipeline W H → Tick
  store context frame output p =
      let signature = on.semantic_signature context.app_name context.window_title output.text in
      let (window, repeated) =
        Semantic.should_skip p.semantic_deduper signature frame.captured_at_ms
          p.config.semantic_dedup_window_ms in
      let (answer, world) = on.persist_capture context frame output p.world in
      if repeated
      then (record p { semantic_deduper = window }, skipped semantic_duplicate)
      else (record p { semantic_deduper = window; world = world }, persisted stored answer)

  abbrev pub after_ocr :
      CaptureContext
      → Frame H
      → CapturePipeline W H
      → Result (OcrOutput F32) PipelineError × W
      → Tick
  after_ocr context frame p (err error, world) =
      (record p { world = world }, failed ocr_failed error)
  after_ocr context frame p (ok output, world) =
      if output.low_signal
      then (record p { world = world }, skipped low_signal)
      else store context frame output (record p { world = world })

  -- Text recognition and the low-signal test.
  unfoldable pub read : CaptureContext → Frame H → CapturePipeline W H → Tick
  read context frame p =
      after_ocr context frame p
        (on.recognize frame.png context.app_name context.bundle_id p.config.min_ocr_chars p.world)

  -- The perceptual test.
  unfoldable pub compare :
      CaptureContext → Frame H → Option (PerceptualSignature H) → CapturePipeline W H → Tick
  compare context frame none p = (p, skipped missing_perceptual_signature)
  compare context frame (some signature) p =
      let (deduper, repeated) = Perceptual.should_skip on.hasher p.perceptual_deduper signature in
      if repeated
      then (record p { perceptual_deduper = deduper }, skipped perceptual_duplicate)
      else read context frame (record p { perceptual_deduper = deduper })

  abbrev pub capture_reason : CaptureError → SkipReason
  capture_reason (permission_or_tool message) = screen_recording_or_capture_unavailable
  capture_reason _ = capture_failed

  abbrev pub after_grab :
      CaptureContext → CapturePipeline W H → Result (Frame H) CaptureError × W → Tick
  after_grab context p (err error, world) = (
    record p { world = world },
    failed (capture_reason error) (record { stage = capture; message = on.to_string error }),
  )
  after_grab context p (ok frame, world) =
      compare context frame frame.perceptual_signature (record p { world = world })

  -- The admission policy, then the frame.
  unfoldable pub admit : CaptureContext → CapturePipeline W H → Tick
  admit context p =
      elim (classify_capture_surface_policy context.app_name context.window_title context.url) [
        | skip_frame ↦ (p, skipped admission_policy)
        | url_only ↦ persist_url_only context p
        | normal ↦ after_grab context p (on.grab p.world)
      ]

  abbrev pub after_gate : CaptureContext → CapturePipeline W H → GateDecision × W → Tick
  after_gate context p (skip reason, world) = (record p { world = world }, skipped reason)
  after_gate context p (allow, world) = admit context (record p { world = world })

  abbrev pub after_context : CapturePipeline W H → Result CaptureContext PipelineError × W → Tick
  after_context p (err error, world) =
      (record p { world = world }, failed metadata_unavailable error)
  after_context p (ok context, world) =
      after_gate context (record p { world = world }) (on.evaluate context world)

  unfoldable pub run_tick_inner : CapturePipeline W H → Tick
  run_tick_inner p = after_context p (on.current_context p.world)

  unfoldable pub run_tick : CapturePipeline W H → Tick
  run_tick p =
      let (p', outcome) = run_tick_inner p in
      (record p' { counters = record_outcome outcome p'.counters }, outcome)

-- ===== src/Capture/Pipeline/Counters.antt =====
-- The counters account for every tick.
use fndr.Prelude.{
  ℕ, zero, suc, ◌+◌, ◌%◌, ◌^◌, ◌<◌, ◌≡◌, refl, ap, ◌∙◌, inl, inr, Option, none, some, Result, ok,
  err, arith, if-holds,
}
use fndr.Capture.Dedup.{PerceptualSignature}
use fndr.Capture.Dedup.Perceptual
use fndr.Capture.Admission.{classify_capture_surface_policy}
use fndr.Capture.Admission.Surface.{policy-cases}
use fndr.Capture.Pipeline.{
  CaptureContext, Frame, OcrOutput, Boundaries, CapturePipeline, CapturePipelineConfig,
  CaptureTickOutcome, SkipReason, PipelineError, CaptureError, GateDecision, allow, skip,
  CaptureCounters, bump, record_outcome, no_counts, new, skipped, failed, url_only_stored,
  persist_url_only, store, after_ocr, read, compare, after_grab, admit, after_gate, after_context,
  run_tick_inner, run_tick, metadata_unavailable, pre_capture_privacy, private_browsing,
  admission_policy, perceptual_duplicate, missing_perceptual_signature, low_signal,
  semantic_duplicate, final_privacy, screen_recording_or_capture_unavailable, capture_failed,
  ocr_failed, persistence_failed,
}

-- What `skipped.values().sum()` would be.
abbrev pub skipped_total : (SkipReason → ℕ) → ℕ
skipped_total f =
    f metadata_unavailable
    + f pre_capture_privacy
    + f private_browsing
    + f admission_policy
    + f perceptual_duplicate
    + f missing_perceptual_signature
    + f low_signal
    + f semantic_duplicate
    + f final_privacy
    + f screen_recording_or_capture_unavailable
    + f capture_failed
    + f ocr_failed
    + f persistence_failed

abbrev pub total : CaptureCounters → ℕ
total c = c.stored + c.url_only_stored + skipped_total c.skipped

wrap : (n : ℕ) → suc n < 2 ^ 64 → (n + 1) % 2 ^ 64 ≡ suc n
wrap n h = omega arith

bump_total :
    (r : SkipReason) (f : SkipReason → ℕ)
    → suc (skipped_total f) < 2 ^ 64
    → skipped_total (bump r f) ≡ suc (skipped_total f)
bump_total metadata_unavailable f h = omega arith
bump_total _ f h = omega arith

record_outcome-total :
    (o : CaptureTickOutcome) (c : CaptureCounters)
    → suc (total c) < 2 ^ 64
    → total (record_outcome o c) ≡ suc (total c)
unfolding record_outcome
record_outcome-total CaptureTickOutcome.stored c h = omega arith
record_outcome-total url_only_stored c h = omega arith
record_outcome-total (skipped r) c h = omega (arith, bump_total r c.skipped (omega arith))
record_outcome-total (failed r e) c h = omega (arith, bump_total r c.skipped (omega arith))

module _ {W H F32 : Type 0} (on : Boundaries W H F32) where
  -- The stages leave the counters to `run_tick`.
  abbrev Keeps : CapturePipeline W H → CapturePipeline W H × CaptureTickOutcome → Type 0
  Keeps p t = t.0.counters ≡ p.counters

  store-counters :
      (c : CaptureContext) (f : Frame H) (o : OcrOutput F32) (p : CapturePipeline W H)
      → Keeps p (store on c f o p)
  unfolding store
  store-counters c f o p = ground arith

  url-counters : (c : CaptureContext) (p : CapturePipeline W H) → Keeps p (persist_url_only on c p)
  unfolding persist_url_only
  url-counters c p = ground arith

  after_ocr-counters :
      (c : CaptureContext) (f : Frame H) (p : CapturePipeline W H)
      (r : Result (OcrOutput F32) PipelineError × W)
      → Keeps p (after_ocr on c f p r)
  after_ocr-counters c f p (err e, w) = refl
  after_ocr-counters c f p (ok o, w) =
      if-holds (Keeps p) o.low_signal refl (store-counters c f o (record p { world = w }))

  compare-counters :
      (c : CaptureContext) (f : Frame H) (s : Option (PerceptualSignature H))
      (p : CapturePipeline W H)
      → Keeps p (compare on c f s p)
  unfolding compare read
  compare-counters c f none p = refl
  compare-counters c f (some s) p =
      let (d, repeated) = Perceptual.should_skip on.hasher p.perceptual_deduper s in
      if-holds (Keeps p) repeated refl
        (after_ocr-counters c f (record p { perceptual_deduper = d }) _)

  after_grab-counters :
      (c : CaptureContext) (p : CapturePipeline W H) (r : Result (Frame H) CaptureError × W)
      → Keeps p (after_grab on c p r)
  after_grab-counters c p (err e, w) = refl
  after_grab-counters c p (ok f, w) =
      compare-counters c f f.perceptual_signature (record p { world = w })

  admit-counters : (c : CaptureContext) (p : CapturePipeline W H) → Keeps p (admit on c p)
  unfolding admit
  admit-counters c p =
      elim (policy-cases (classify_capture_surface_policy c.app_name c.window_title c.url)) [
        | inl e ↦ rw (e, admit)
        | inr (inl e) ↦ rw (e, admit) (url-counters c p)
        | inr (inr e) ↦ rw (e, admit) (after_grab-counters c p _)
      ]

  after_gate-counters :
      (c : CaptureContext) (p : CapturePipeline W H) (r : GateDecision × W)
      → Keeps p (after_gate on c p r)
  after_gate-counters c p (skip r, w) = refl
  after_gate-counters c p (allow, w) = admit-counters c (record p { world = w })

  after_context-counters :
      (p : CapturePipeline W H) (r : Result CaptureContext PipelineError × W)
      → Keeps p (after_context on p r)
  after_context-counters p (err e, w) = refl
  after_context-counters p (ok c, w) = after_gate-counters c (record p { world = w }) _

  run_tick_inner-counters : (p : CapturePipeline W H) → Keeps p (run_tick_inner on p)
  unfolding run_tick_inner
  run_tick_inner-counters p = after_context-counters p _

  -- The pipeline after some ticks.
  unfoldable pub ticks : ℕ → CapturePipeline W H → CapturePipeline W H
  ticks zero p = p
  ticks (suc n) p = (run_tick on (ticks n p)).0

  run_tick-counters :
      (p : CapturePipeline W H)
      → (run_tick on p).0.counters ≡ record_outcome (run_tick on p).1 p.counters
  unfolding run_tick
  run_tick-counters p = ap (record_outcome (run_tick_inner on p).1) (run_tick_inner-counters p)

  -- Whatever the boundaries answer, each tick is counted exactly once: after fewer than 2^64 ticks
  -- from a new pipeline the counters add up to the number of ticks.
  pub total-ticks :
      (world : W) (config : CapturePipelineConfig) (n : ℕ)
      → n < 2 ^ 64
      → total (ticks n (new world config)).counters ≡ n
  unfolding ticks new no_counts
  total-ticks world config zero h = omega arith
  total-ticks world config (suc n) h =
      let p = ticks n (new world config) in
      let ih = total-ticks world config n (omega arith) in
      ap total (run_tick-counters p)
      ∙ record_outcome-total (run_tick on p).1 p.counters (omega arith)
      ∙ ap suc ih

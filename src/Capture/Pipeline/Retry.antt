-- ===== src/Capture/Pipeline/Retry.antt =====
-- What a failed tick leaves behind: the perceptual history moves on before the later stages run.
use fndr.Prelude.{◌<◌, ◌≡◌, refl, sym, subst, ap, ◌∙◌, true, some, Result, ok, err, arith, if-holds}
use fndr.Capture.Dedup.{PerceptualSignature, rgb_distance, distance_to, colour_distance_to}
use fndr.Capture.Dedup.Perceptual
use fndr.Capture.Dedup.Perceptual.{PerceptualDeduper, near, near_last}
use fndr.Capture.Admission.{normal, classify_capture_surface_policy}
use fndr.Capture.Pipeline.{
  CaptureContext, Frame, OcrOutput, Boundaries, CapturePipeline, CaptureTickOutcome, PipelineError,
  allow, skipped, store, after_ocr, read, compare, after_grab, admit, after_gate, after_context,
  run_tick_inner, run_tick, perceptual_duplicate,
}

module _ {W H F32 : Type 0} (on : Boundaries W H F32) where
  -- At the world `w` a tick gets as far as a frame with this signature.
  pub record Shows (w : W) (signature : PerceptualSignature H) : Type 0 where
    pub context : CaptureContext
    pub frame : Frame H
    pub known : W
    pub gated : W
    pub grabbed : W
    pub metadata_ok : on.current_context w ≡ (ok context, known)
    pub gate_ok : on.evaluate context known ≡ (allow, gated)
    pub admitted :
        classify_capture_surface_policy context.app_name context.window_title context.url ≡ normal
    pub grab_ok : on.grab gated ≡ (ok frame, grabbed)
    pub signed : frame.perceptual_signature ≡ some signature

  admit-normal :
      (c : CaptureContext) (p : CapturePipeline W H)
      → classify_capture_surface_policy c.app_name c.window_title c.url ≡ normal
      → admit on c p ≡ after_grab on c p (on.grab p.world)
  unfolding admit
  admit-normal c p e = rw (e, admit)

  shown_tick :
      (p : CapturePipeline W H) (s : PerceptualSignature H) (v : Shows p.world s)
      → run_tick_inner on p ≡ compare on v.context v.frame (some s) (record p { world = v.grabbed })
  unfolding run_tick_inner
  shown_tick p s v =
      ap (after_context on p) v.metadata_ok
      ∙ ap (after_gate on v.context (record p { world = v.known })) v.gate_ok
      ∙ admit-normal v.context (record p { world = v.gated }) v.admitted
      ∙ ap (after_grab on v.context (record p { world = v.gated })) v.grab_ok
      ∙ ap (λ o. compare on v.context v.frame o (record p { world = v.grabbed })) v.signed

  -- The later stages leave the perceptual history alone.
  abbrev Keeps : CapturePipeline W H → CapturePipeline W H × CaptureTickOutcome → Type 0
  Keeps p t = t.0.perceptual_deduper ≡ p.perceptual_deduper

  store-deduper :
      (c : CaptureContext) (f : Frame H) (o : OcrOutput F32) (p : CapturePipeline W H)
      → Keeps p (store on c f o p)
  unfolding store
  store-deduper c f o p = ground arith

  after_ocr-deduper :
      (c : CaptureContext) (f : Frame H) (p : CapturePipeline W H)
      (r : Result (OcrOutput F32) PipelineError × W)
      → Keeps p (after_ocr on c f p r)
  after_ocr-deduper c f p (err e, w) = refl
  after_ocr-deduper c f p (ok o, w) =
      if-holds (Keeps p) o.low_signal refl (store-deduper c f o (record p { world = w }))

  compare-deduper :
      (c : CaptureContext) (f : Frame H) (s : PerceptualSignature H) (p : CapturePipeline W H)
      → (compare on c f (some s) p).0.perceptual_deduper
        ≡ (Perceptual.should_skip on.hasher p.perceptual_deduper s).0
  unfolding compare read
  compare-deduper c f s p =
      let (d, repeated) = Perceptual.should_skip on.hasher p.perceptual_deduper s in
      if-holds (λ (t : CapturePipeline W H × CaptureTickOutcome). t.0.perceptual_deduper ≡ d)
        repeated refl (after_ocr-deduper c f (record p { perceptual_deduper = d }) _)

  run_tick-deduper :
      (p : CapturePipeline W H) (s : PerceptualSignature H)
      → Shows p.world s
      → (run_tick on p).0.perceptual_deduper
        ≡ (Perceptual.should_skip on.hasher p.perceptual_deduper s).0
  unfolding run_tick
  run_tick-deduper p s v =
      ap (λ (t : CapturePipeline W H × CaptureTickOutcome). t.0.perceptual_deduper)
        (shown_tick p s v)
      ∙ compare-deduper v.context v.frame s (record p { world = v.grabbed })

  run_tick-outcome : (p : CapturePipeline W H) → (run_tick on p).1 ≡ (run_tick_inner on p).1
  unfolding run_tick
  run_tick-outcome p = refl

  again_near :
      (d : PerceptualDeduper H) (s : PerceptualSignature H)
      → 0 < d.threshold
      → on.hasher.dist s.hash s.hash ≡ 0
      → let next = (Perceptual.should_skip on.hasher d s).0 in
        (Perceptual.should_skip on.hasher next s).1 ≡ true
  unfolding Perceptual.should_skip near_last near distance_to colour_distance_to rgb_distance
  again_near d s h e = ground arith

  compare_duplicate :
      (c : CaptureContext) (f : Frame H) (s : PerceptualSignature H) (p : CapturePipeline W H)
      → (Perceptual.should_skip on.hasher p.perceptual_deduper s).1 ≡ true
      → (compare on c f (some s) p).1 ≡ skipped perceptual_duplicate
  unfolding compare
  compare_duplicate c f s p h = rw h

  -- A tick that got as far as a frame suppresses the next tick on an unchanged screen as a
  -- duplicate, whatever its own outcome was: after a failed recognition or a failed write the
  -- capture is not retried while the screen stays the same. It is assumed that the threshold is
  -- positive and that a hash has distance 0 to itself.
  pub unchanged_screen_not_retried :
      (p : CapturePipeline W H) (s : PerceptualSignature H)
      → 0 < p.perceptual_deduper.threshold
      → on.hasher.dist s.hash s.hash ≡ 0
      → Shows p.world s
      → Shows (run_tick on p).0.world s
      → (run_tick on (run_tick on p).0).1 ≡ skipped perceptual_duplicate
  unchanged_screen_not_retried p s t e v w =
      let q = (run_tick on p).0 in
      let near =
        subst (λ d. (Perceptual.should_skip on.hasher d s).1 ≡ true) (sym (run_tick-deduper p s v))
          (again_near p.perceptual_deduper s t e) in
      run_tick-outcome q
      ∙ ap (λ (r : CapturePipeline W H × CaptureTickOutcome). r.1) (shown_tick q s w)
      ∙ compare_duplicate w.context w.frame s (record q { world = w.grabbed }) near

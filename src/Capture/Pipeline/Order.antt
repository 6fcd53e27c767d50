-- ===== src/Capture/Pipeline/Order.antt =====
-- The order in which one tick reaches the outside world.
use fndr.Prelude.{
  ◌≡◌, ap, inl, inr, List, [], ◌∷◌, ◌++◌, Option, none, some, Result, ok, err, arith, Has, if-holds,
}
use fndr.Capture.Dedup.{PerceptualSignature}
use fndr.Capture.Dedup.Perceptual
use fndr.Capture.Admission.{classify_capture_surface_policy}
use fndr.Capture.Admission.Surface.{policy-cases}
use fndr.Capture.Pipeline.{
  CaptureContext, Frame, OcrOutput, Boundaries, CapturePipeline, CaptureTickOutcome, SkipReason,
  PipelineError, CaptureError, GateDecision, allow, skip, skipped, failed, url_only_stored,
  persisted, persist_url_only, store, after_ocr, read, compare, after_grab, admit, after_gate,
  after_context, run_tick_inner, run_tick, metadata_unavailable, capture_failed,
  screen_recording_or_capture_unavailable, ocr_failed, persistence_failed,
  missing_perceptual_signature, perceptual_duplicate, low_signal, semantic_duplicate, final_privacy,
}

-- A call across a boundary.
pub data Call : Type 0 where
  context gate grab ocr persist persist_url : Call

abbrev pub logged : {W A : Type 0} → Call → (W → A × W) → W × List Call → A × (W × List Call)
logged c f (w, log) = let (a, w') = f w in (a, (w', log ++ c ∷ []))

-- The same boundaries, with their calls written down.
abbrev pub traced : {W H F32 : Type 0} → Boundaries W H F32 → Boundaries (W × List Call) H F32
traced on = record {
  current_context = logged context on.current_context;
  evaluate = λ c. logged gate (on.evaluate c);
  grab = logged grab on.grab;
  recognize = λ png app bundle n. logged ocr (on.recognize png app bundle n);
  persist_capture = λ c f o. logged persist (on.persist_capture c f o);
  persist_url_only = λ c. logged persist_url (on.persist_url_only c);
  hasher = on.hasher;
  semantic_signature = on.semantic_signature;
  to_string = on.to_string;
}

abbrev pub to_gate : List Call
to_gate = context ∷ gate ∷ []

abbrev pub to_grab : List Call
to_grab = context ∷ gate ∷ grab ∷ []

abbrev pub to_ocr : List Call
to_ocr = context ∷ gate ∷ grab ∷ ocr ∷ []

abbrev pub to_persist : List Call
to_persist = context ∷ gate ∷ grab ∷ ocr ∷ persist ∷ []

abbrev pub to_url : List Call
to_url = context ∷ gate ∷ persist_url ∷ []

-- The calls that a tick with this outcome may have made. The gate may skip for any reason.
abbrev pub skip_calls : SkipReason → List (List Call)
skip_calls missing_perceptual_signature = to_gate ∷ to_grab ∷ []
skip_calls perceptual_duplicate = to_gate ∷ to_grab ∷ []
skip_calls low_signal = to_gate ∷ to_ocr ∷ []
skip_calls semantic_duplicate = to_gate ∷ to_ocr ∷ []
skip_calls final_privacy = to_gate ∷ to_persist ∷ to_url ∷ []
skip_calls _ = to_gate ∷ []

abbrev pub failure_calls : SkipReason → List (List Call)
failure_calls metadata_unavailable = (context ∷ []) ∷ []
failure_calls screen_recording_or_capture_unavailable = to_grab ∷ []
failure_calls capture_failed = to_grab ∷ []
failure_calls ocr_failed = to_ocr ∷ []
failure_calls persistence_failed = to_persist ∷ to_url ∷ []
failure_calls _ = []

abbrev pub allowed_calls : CaptureTickOutcome → List (List Call)
allowed_calls CaptureTickOutcome.stored = to_persist ∷ []
allowed_calls url_only_stored = to_url ∷ []
allowed_calls (skipped r) = skip_calls r
allowed_calls (failed r e) = failure_calls r

abbrev IsLegal : {W H : Type 0} → CapturePipeline (W × List Call) H × CaptureTickOutcome → Type 0
IsLegal (p, outcome) = Has p.world.1 (allowed_calls outcome)

module _ {W H F32 : Type 0} (on : Boundaries W H F32) where
  gate_legal : (r : SkipReason) → Has to_gate (skip_calls r)
  gate_legal r = ground arith

  store-IsLegal :
      (c : CaptureContext) (f : Frame H) (o : OcrOutput F32) (p : CapturePipeline (W × List Call) H)
      → p.world.1 ≡ to_ocr
      → IsLegal (store (traced on) c f o p)
  unfolding store persisted
  store-IsLegal c f o p h = ground arith

  url-IsLegal :
      (c : CaptureContext) (p : CapturePipeline (W × List Call) H)
      → p.world.1 ≡ to_gate
      → IsLegal (persist_url_only (traced on) c p)
  unfolding persist_url_only persisted
  url-IsLegal c p h = ground arith

  after_ocr-IsLegal :
      (c : CaptureContext) (f : Frame H) (p : CapturePipeline (W × List Call) H)
      (r : Result (OcrOutput F32) PipelineError × (W × List Call))
      → r.1.1 ≡ to_ocr
      → IsLegal (after_ocr (traced on) c f p r)
  after_ocr-IsLegal c f p (err e, w) h = ground arith
  after_ocr-IsLegal c f p (ok o, w) h =
      if-holds IsLegal o.low_signal (rw h (ground arith))
        (store-IsLegal c f o (record p { world = w }) h)

  read-IsLegal :
      (c : CaptureContext) (f : Frame H) (p : CapturePipeline (W × List Call) H)
      → p.world.1 ≡ to_grab
      → IsLegal (read (traced on) c f p)
  unfolding read
  read-IsLegal c f p h = after_ocr-IsLegal c f p _ (ap (λ l. l ++ ocr ∷ []) h)

  compare-IsLegal :
      (c : CaptureContext) (f : Frame H) (s : Option (PerceptualSignature H))
      (p : CapturePipeline (W × List Call) H)
      → p.world.1 ≡ to_grab
      → IsLegal (compare (traced on) c f s p)
  unfolding compare
  compare-IsLegal c f none p h = ground arith
  compare-IsLegal c f (some s) p h =
      let (d, repeated) = Perceptual.should_skip on.hasher p.perceptual_deduper s in
      if-holds IsLegal repeated (rw h (ground arith))
        (read-IsLegal c f (record p { perceptual_deduper = d }) h)

  after_grab-IsLegal :
      (c : CaptureContext) (p : CapturePipeline (W × List Call) H)
      (r : Result (Frame H) CaptureError × (W × List Call))
      → r.1.1 ≡ to_grab
      → IsLegal (after_grab (traced on) c p r)
  after_grab-IsLegal c p (err e, w) h = ground arith
  after_grab-IsLegal c p (ok f, w) h =
      compare-IsLegal c f f.perceptual_signature (record p { world = w }) h

  admit-IsLegal :
      (c : CaptureContext) (p : CapturePipeline (W × List Call) H)
      → p.world.1 ≡ to_gate
      → IsLegal (admit (traced on) c p)
  unfolding admit
  admit-IsLegal c p h =
      elim (policy-cases (classify_capture_surface_policy c.app_name c.window_title c.url)) [
        | inl e ↦ rw (e, admit) (ground arith)
        | inr (inl e) ↦ rw (e, admit) (url-IsLegal c p h)
        | inr (inr e) ↦ rw (e, admit) (after_grab-IsLegal c p _ (ap (λ l. l ++ grab ∷ []) h))
      ]

  after_gate-IsLegal :
      (c : CaptureContext) (p : CapturePipeline (W × List Call) H)
      (r : GateDecision × (W × List Call))
      → r.1.1 ≡ to_gate
      → IsLegal (after_gate (traced on) c p r)
  after_gate-IsLegal c p (skip r, w) h = rw h (gate_legal r)
  after_gate-IsLegal c p (allow, w) h = admit-IsLegal c (record p { world = w }) h

  after_context-IsLegal :
      (p : CapturePipeline (W × List Call) H)
      (r : Result CaptureContext PipelineError × (W × List Call))
      → r.1.1 ≡ context ∷ []
      → IsLegal (after_context (traced on) p r)
  after_context-IsLegal p (err e, w) h = ground arith
  after_context-IsLegal p (ok c, w) h =
      after_gate-IsLegal c (record p { world = w }) _ (ap (λ l. l ++ gate ∷ []) h)

  -- Whatever the boundaries answer, the calls that a tick makes are one of the sequences that its
  -- outcome allows: metadata, gate, grab, recognition and sink in this order and as far as the
  -- outcome says, or metadata, gate and URL-only sink. A skip may also come from the gate, with no
  -- call after it.
  pub run_tick_calls :
      (p : CapturePipeline (W × List Call) H)
      → p.world.1 ≡ []
      → Has (run_tick (traced on) p).0.world.1 (allowed_calls (run_tick (traced on) p).1)
  unfolding run_tick run_tick_inner
  run_tick_calls p h = after_context-IsLegal p _ (ap (λ l. l ++ context ∷ []) h)

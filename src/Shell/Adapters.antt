-- ===== src/Shell/Adapters.antt =====
-- crates/fndr-shell/src/capture_adapters.rs: the privacy gate in front of the capture pipeline and
-- the sink behind it.
use fndr.Prelude.{
  ℕ, zero, suc, ◌+◌, ◌-◌, ◌/◌, ◌%◌, ◌^◌, ◌<◌, min, ◌≡◌, ap, ◌↔◌, false, [], ◌∷◌, ◌++◌, none, some,
  ◌>>=◌, Result, ok, err, arith, if◌then◌else◌, ltb, leb,
}
use fndr.Text.{Text, codes, newline, is_empty, trim}
use fndr.Platform.{Platform, Float32}
use fndr.Privacy.Blocklist.{Blocklist, sanitize_url_for_storage}
use fndr.Privacy.SafetyGate.{
  SafetyReason, SafetyDecision, SafetyContext, private_browsing, skip_storage, redact, evaluate,
}
use fndr.Privacy.SafetyGate
use fndr.Capture.Pipeline.{
  CaptureContext, CaptureStage, PipelineError, PersistenceOutcome, GateDecision, SkipReason, Frame,
  OcrOutput,
}
use fndr.Capture.Pipeline
use fndr.Store.{Store, StoreError}
use fndr.Memory.WritePath.{
  CaptureForPersistence, PersistCaptureOutcome, safety_context, persist_capture,
}
use fndr.Memory.WritePath
use fndr.Memory.WritePath.Skip.{skipped_reason, skipped_iff}

-- The decimal digits of a number below 10 ^ 20.
unfoldable pub digits : ℕ → ℕ → Text
digits zero n = []
digits (suc fuel) n =
    let rest = digits fuel (n / 10) in
    let last = b'0' + n % 10 in if ltb n 10 then last ∷ [] else rest ++ last ∷ []

unfoldable pub print_u64 : ℕ → Text
print_u64 = digits 20

unfoldable pub context_of : CaptureContext → SafetyContext
context_of c = record {
  app_name = some c.app_name;
  bundle_id = c.bundle_id;
  url = c.url;
  window_title = some c.window_title;
  ocr_text = none;
}

abbrev pub skip_reason : SafetyReason → SkipReason
skip_reason private_browsing = Pipeline.private_browsing
skip_reason _ = Pipeline.pre_capture_privacy

abbrev pub gate_decision : SafetyDecision → GateDecision
gate_decision SafetyGate.allow = Pipeline.allow
gate_decision (redact reason) = Pipeline.allow
gate_decision (skip_storage reason) = Pipeline.skip (skip_reason reason)

pub record StoreCaptureSink : Type 0 where
  pub store : Store
  pub blocklist : Blocklist
  pub session_id : Text
  pub next_sequence : ℕ

unfoldable pub new : Store → Blocklist → Text → Result StoreCaptureSink PipelineError
new store blocklist session_id =
    if is_empty (trim session_id)
    then err (record {
      stage = Pipeline.persistence;
      message = codes "capture sink requires a non-empty session id";
    })
    else ok (record {
      store = store;
      blocklist = blocklist;
      session_id = session_id;
      next_sequence = 0;
    })

-- The record's and the chunk's identity, and the sink with the next sequence number.
unfoldable pub ids : StoreCaptureSink → StoreCaptureSink × Text × Text
ids sink =
    let record_id = sink.session_id ++ (codes "-" ++ print_u64 sink.next_sequence) in
    (
      record sink { next_sequence = min (sink.next_sequence + 1) (2 ^ 64 - 1) },
      record_id,
      record_id ++ codes "-0",
    )

-- `error_text` is what SQLite's errors print.
unfoldable pub outcome_of :
    (StoreError → Text)
    → Result PersistCaptureOutcome StoreError
    → Result PersistenceOutcome PipelineError
outcome_of error_text (err e) =
    err (record { stage = Pipeline.persistence; message = error_text e })
outcome_of error_text (ok (WritePath.stored id n)) = ok Pipeline.PersistenceOutcome.stored
outcome_of error_text (ok (WritePath.merged id n)) = ok Pipeline.PersistenceOutcome.stored
outcome_of error_text (ok (WritePath.skipped reason)) =
    ok Pipeline.PersistenceOutcome.skipped_final_privacy

module _ {Url F : Type 0} (pf : Platform Url) (fl : Float32 F)
    (error_text : StoreError → Text) where
  -- `PrivacyGate::evaluate`.
  unfoldable pub gate_evaluate : Blocklist → CaptureContext → GateDecision
  gate_evaluate blocklist context = gate_decision (evaluate pf (context_of context) blocklist)

  abbrev pub Persisted : Type 0
  Persisted = StoreCaptureSink × Result PersistenceOutcome PipelineError

  abbrev pub failed : Text → Result PersistenceOutcome PipelineError
  failed message = err (record { stage = Pipeline.persistence; message = message })

  abbrev pub capture_of :
      StoreCaptureSink → Text → CaptureContext → ℕ → Text → Text → Text → CaptureForPersistence
  capture_of sink source context captured_at_ms text record_id chunk_id = record {
    record_id = record_id;
    session_id = sink.session_id;
    chunk_id = chunk_id;
    source = source;
    app_name = context.app_name;
    bundle_id = context.bundle_id;
    url = context.url;
    window_title = context.window_title;
    ocr_text = text;
    captured_at_ms = captured_at_ms;
    created_at_ms = captured_at_ms;
  }

  unfoldable pub persist : StoreCaptureSink → Text → CaptureContext → ℕ → Text → Persisted
  persist sink source context captured_at_ms text =
      let (next, record_id, chunk_id) = ids sink in
      let (store, answer) =
        persist_capture pf fl sink.store
          (capture_of sink source context captured_at_ms text record_id chunk_id) sink.blocklist in
      if leb (2 ^ 63) captured_at_ms
      then (sink, failed (codes "capture timestamp exceeds i64"))
      else (record next { store = store }, outcome_of error_text answer)

  -- `CaptureSink::persist_capture`.
  unfoldable pub sink_capture :
      {H : Type 0} → CaptureContext → Frame H → OcrOutput F → StoreCaptureSink → Persisted
  sink_capture context frame ocr sink =
      persist sink (codes "screen") context frame.captured_at_ms ocr.text

  -- `CaptureSink::persist_url_only`.
  unfoldable pub sink_url_only : CaptureContext → StoreCaptureSink → Persisted
  sink_url_only context sink = elim (context.url >>= sanitize_url_for_storage pf) [
    | none ↦ (sink, failed (codes "URL-only admission requires a sanitizable HTTP(S) URL"))
    | some safe_url ↦
        persist sink (codes "browser_url_only") context context.observed_at_ms
          (context.window_title ++ newline ∷ safe_url.text)
  ]

  skipped_answer :
      (answer : Result PersistCaptureOutcome StoreError)
      → outcome_of error_text answer ≡ ok Pipeline.PersistenceOutcome.skipped_final_privacy
      → (r : SafetyReason) × (answer ≡ ok (WritePath.skipped r))
  unfolding outcome_of
  skipped_answer answer h = ground arith

  gate_skips :
      (d : SafetyDecision) (reason : SkipReason)
      → gate_decision d ≡ Pipeline.skip reason
      → (r : SafetyReason) × (d ≡ skip_storage r)
  gate_skips d reason h = ground arith

  skip_gates :
      (d : SafetyDecision) (r : SafetyReason)
      → d ≡ skip_storage r
      → (reason : SkipReason) × (gate_decision d ≡ Pipeline.skip reason)
  skip_gates d r h = (skip_reason r, ap gate_decision h)

  -- With one blocklist, the last privacy check before SQLite refuses a capture exactly if the gate
  -- before the grab refuses its context: nothing that the gate lets through is refused later for
  -- privacy, whatever text was read. The time of the capture must fit an `i64`.
  pub persist_agrees_with_gate :
      (sink : StoreCaptureSink) (source : Text) (context : CaptureContext) (captured_at_ms : ℕ)
      (text : Text)
      → captured_at_ms < 2 ^ 63
      → ((persist sink source context captured_at_ms text).1
          ≡ ok Pipeline.PersistenceOutcome.skipped_final_privacy)
        ↔ ((reason : SkipReason) × (gate_evaluate sink.blocklist context ≡ Pipeline.skip reason))
  unfolding persist gate_evaluate context_of safety_context
  persist_agrees_with_gate sink source context t text b =
      let (next, record_id, chunk_id) = ids sink in
      let capture = capture_of sink source context t text record_id chunk_id in
      let fits : leb (2 ^ 63) t ≡ false = ground arith in
      rw fits (
        λ h.
            let (r, e) =
              skipped_answer (persist_capture pf fl sink.store capture sink.blocklist).1 h in
            skip_gates _ r (skipped_reason pf fl sink.store capture sink.blocklist r e),
        λ (reason, g).
            let (r, e) = gate_skips _ reason g in
            unfold outcome_of in
            ap (λ t. outcome_of error_text t.1)
              ((skipped_iff pf fl sink.store capture sink.blocklist r).1 e),
      )

-- ===== src/Memory/WritePath.antt =====
-- crates/fndr-memory/src/write_path.rs: the step from an assembled capture to the store.
pub mod Secrets
pub mod Skip
use fndr.Prelude.{
  ℕ, ◌-◌, ◌*◌, ◌≡◌, refl, Bool, true, false, ◌&&◌, ◌||◌, List, [], ◌∷◌, Option, none, some, ◌>>=◌,
  Result, ok, err, if◌then◌else◌, arith, map_option,
}
use fndr.Text.{Text}
use fndr.Platform.{Platform, Float32}
use fndr.Privacy.Blocklist.{Blocklist, SanitizedUrl, sanitize_url_for_storage}
use fndr.Privacy.SafetyGate.{
  SafetyReason, SafetyDecision, allow, redact, skip_storage, SafetyContext, evaluate,
  redact_secret_lines,
}
use fndr.Store.{
  Store, StoreError, NewRecord, NewChunk, PendingContinuityCandidate, insert_capture,
  pending_continuity_candidates, merge_pending_capture,
}
use fndr.Memory.Anchor.{ContinuityRecord}
use fndr.Memory.Score.{should_merge}
use fndr.Memory.Story.{merge_story_text}

pub record CaptureForPersistence : Type 0 where
  pub record_id : Text
  pub session_id : Text
  pub chunk_id : Text
  pub source : Text
  pub app_name : Text
  pub bundle_id : Option Text
  pub url : Option Text
  pub window_title : Text
  pub ocr_text : Text
  pub captured_at_ms : ℕ
  pub created_at_ms : ℕ

pub data PersistCaptureOutcome : Type 0 where
  stored : Text → ℕ → PersistCaptureOutcome
  merged : Text → ℕ → PersistCaptureOutcome
  skipped : SafetyReason → PersistCaptureOutcome

unfoldable pub safety_context : CaptureForPersistence → Option Text → SafetyContext
safety_context capture ocr_text = record {
  app_name = some capture.app_name;
  bundle_id = capture.bundle_id;
  url = capture.url;
  window_title = some capture.window_title;
  ocr_text = ocr_text;
}

unfoldable pub candidate_record : PendingContinuityCandidate → ContinuityRecord
candidate_record c = record {
  app_name = c.app_name;
  url = c.url;
  window_title = c.window_title;
  text = c.text;
  snippet = c.window_title;
  lexical_shadow = c.text;
  captured_at_ms = c.captured_at_ms;
}

unfoldable pub incoming_record : NewRecord → Text → ContinuityRecord
incoming_record r text = record {
  app_name = r.app_name;
  url = map_option (λ (u : SanitizedUrl). u.text) r.url;
  window_title = r.window_title;
  text = text;
  snippet = r.window_title;
  lexical_shadow = text;
  captured_at_ms = r.captured_at_ms;
}

abbrev pub is_some {ℓ} : {A : Type ℓ} → Option A → Bool
is_some none = false
is_some (some a) = true

module _ {Url F : Type 0} (pf : Platform Url) (fl : Float32 F) where
  unfoldable pub new_record : CaptureForPersistence → NewRecord
  new_record capture = record {
    id = capture.record_id;
    session_id = capture.session_id;
    source = capture.source;
    app_name = capture.app_name;
    bundle_id = capture.bundle_id;
    url = capture.url >>= sanitize_url_for_storage pf;
    window_title = capture.window_title;
    captured_at_ms = capture.captured_at_ms;
    created_at_ms = capture.created_at_ms;
  }

  -- The loop over the candidates, up to the first that takes the capture.
  unfoldable pub merge_into_candidate :
      Store → NewRecord → Text → List PendingContinuityCandidate → Option (Store × Text)
  merge_into_candidate s r text [] = none
  merge_into_candidate s r text (c ∷ cs) =
      let rest = merge_into_candidate s r text cs in
      let attempt = merge_pending_capture s c r (merge_story_text pf c.text text 6400) in
      if is_some
        (should_merge pf fl (incoming_record r text) (candidate_record c) (fl.hundredths 0))
      then (if attempt.1 then some (attempt.0, c.record_id) else rest)
      else rest

  -- What follows the decision, for the text that may be kept.
  unfoldable pub write_capture :
      Store → CaptureForPersistence → Text → ℕ → Store × Result PersistCaptureOutcome StoreError
  write_capture s capture text redaction_count =
      let r = new_record capture in
      let chunk : NewChunk = record { id = capture.chunk_id; ord = 0; text = text } in
      let recent_after = r.captured_at_ms - 45 * 60 * 1000 in
      elim (merge_into_candidate s r text (pending_continuity_candidates s recent_after 64)) [
        | some (after, record_id) ↦ (after, ok (merged record_id redaction_count))
        | none ↦ elim (insert_capture s r (chunk ∷ [])) [
          | ok after ↦ (after, ok (stored capture.record_id redaction_count))
          | err e ↦ (s, err e)
        ]
      ]

  unfoldable pub persist_capture :
      Store → CaptureForPersistence → Blocklist → Store × Result PersistCaptureOutcome StoreError
  persist_capture s capture blocklist = elim (evaluate pf (safety_context capture none) blocklist) [
    | skip_storage reason ↦ (s, ok (skipped reason))
    | _ ↦ elim (evaluate pf (safety_context capture (some capture.ocr_text)) blocklist) [
      | allow ↦ write_capture s capture capture.ocr_text 0
      | redact reason ↦
          let (text, count) = redact_secret_lines capture.ocr_text in
          write_capture s capture text count
      | skip_storage reason ↦ (s, ok (skipped reason))
    ]
  ]

-- ===== src/Memory/WritePath/Skip.antt =====
-- Which captures the write path refuses.
use fndr.Prelude.{◌≢◌, ℕ, ◌≡◌, refl, ap, ◌↔◌, none, some, Result, ok, arith}
use fndr.Text.{Text}
use fndr.Platform.{Platform, Float32}
use fndr.Privacy.Blocklist.{Blocklist}
use fndr.Privacy.SafetyGate.{
  SafetyReason, SafetyDecision, allow, redact, skip_storage, evaluate, built_in,
  redact_secret_lines,
}
use fndr.Privacy.Decisions.{skip_storage_iff}
use fndr.Store.{Store, StoreError}
use fndr.Memory.WritePath.{
  CaptureForPersistence, PersistCaptureOutcome, skipped, safety_context, write_capture,
  persist_capture,
}

-- The outcome of a step that wrote or failed.
abbrev Written : SafetyReason → Store × Result PersistCaptureOutcome StoreError → Type 0
Written r result = result.1 ≢ ok (skipped r)

module _ {Url F : Type 0} (pf : Platform Url) (fl : Float32 F) where
  write_capture-Written :
      (s : Store) (capture : CaptureForPersistence) (text : Text) (count : ℕ) (r : SafetyReason)
      → Written r (write_capture pf fl s capture text count)
  unfolding write_capture
  write_capture-Written s capture text count r = ground arith

  -- A skip comes from the metadata.
  pub skipped_reason :
      (s : Store) (capture : CaptureForPersistence) (blocklist : Blocklist) (r : SafetyReason)
      → (persist_capture pf fl s capture blocklist).1 ≡ ok (skipped r)
      → evaluate pf (safety_context capture none) blocklist ≡ skip_storage r
  unfolding persist_capture evaluate safety_context
  skipped_reason s capture blocklist r h =
      decided _ _
        ((skip_storage_iff pf (safety_context capture (some capture.ocr_text)) blocklist built_in
          r).0)
        h
    where
      branch : SafetyDecision → Store × Result PersistCaptureOutcome StoreError
      branch after = elim after as (λ _. Store × Result PersistCaptureOutcome StoreError) [
        | allow ↦ write_capture pf fl s capture capture.ocr_text 0
        | redact reason ↦
            let (text, count) = redact_secret_lines capture.ocr_text in
            write_capture pf fl s capture text count
        | skip_storage reason ↦ (s, ok (skipped reason))
      ]

      kept :
          (before after : SafetyDecision)
          → (after ≡ skip_storage r → before ≡ skip_storage r)
          → (branch after).1 ≡ ok (skipped r)
          → before ≡ skip_storage r
      kept before allow k h = absurd (write_capture-Written s capture capture.ocr_text 0 r h)
      kept before (redact reason) k h = absurd (write_capture-Written s capture _ _ r h)
      kept before (skip_storage reason) k h = k (cc h)

      decided :
          (before after : SafetyDecision)
          → (after ≡ skip_storage r → before ≡ skip_storage r)
          → (elim before as (λ _. Store × Result PersistCaptureOutcome StoreError) [
            | skip_storage reason ↦ (s, ok (skipped reason))
            | _ ↦ branch after
          ]).1
            ≡ ok (skipped r)
          → before ≡ skip_storage r
      decided (skip_storage reason) after k h = cc h
      decided allow after k h = kept allow after k h
      decided (redact reason) after k h = kept (redact reason) after k h

  -- The write path answers that it skipped a capture for a reason, and leaves the store as it was,
  -- exactly if the metadata alone is to be skipped for that reason.
  pub skipped_iff :
      (s : Store) (capture : CaptureForPersistence) (blocklist : Blocklist) (r : SafetyReason)
      → (persist_capture pf fl s capture blocklist ≡ (s, ok (skipped r)))
        ↔ (evaluate pf (safety_context capture none) blocklist ≡ skip_storage r)
  unfolding persist_capture
  skipped_iff s capture blocklist r = (
    λ h. skipped_reason s capture blocklist r (ap (λ t. t.1) h),
    λ h. rw (h, persist_capture) refl,
  )

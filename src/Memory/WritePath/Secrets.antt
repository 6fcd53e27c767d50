-- ===== src/Memory/WritePath/Secrets.antt =====
-- The store's chunks stay free of secret patterns.
use fndr.Prelude.{
  ℕ, ◌-◌, ◌*◌, ◌≡◌, refl, true, false, List, [], ◌∷◌, Option, none, some, Result, ok, err, arith,
  all, All, if-holds,
}
use fndr.Text.{Text, starts_with}
use fndr.Text.Lines.{IsLinePattern}
use fndr.Platform.{Platform, Float32}
use fndr.Privacy.Blocklist.{Blocklist}
use fndr.Privacy.SafetyGate.{
  SafetyDecision, allow, redact, skip_storage, evaluate, built_in, secret_patterns,
  redaction_marker, contains_secret_pattern, redact_secret_lines,
}
use fndr.Privacy.Redaction.{contains_secret_pattern-redact_secret_lines}
use fndr.Privacy.Decisions.{allow_iff}
use fndr.Store.{Store, StoreError, NewRecord, PendingContinuityCandidate, merge_pending_capture}
use fndr.Store.Texts.{AllTexts, All-candidates, AllTexts-merge, AllTexts-insert, OnSome, OnOk}
use fndr.Memory.Score.{should_merge}
use fndr.Memory.Story.{merge_story_text}
use fndr.Memory.Story.Secrets.{IsClean, is_story_pattern, merge_story_text-IsClean}
use fndr.Memory.WritePath.{
  CaptureForPersistence, PersistCaptureOutcome, stored, merged, skipped, safety_context, is_some,
  incoming_record, candidate_record, new_record, merge_into_candidate, write_capture,
  persist_capture,
}

-- No chunk holds one of the built-in secret patterns.
abbrev pub IsSecretFree : Store → Type 0
IsSecretFree = AllTexts (IsClean secret_patterns)

pub story_patterns : all is_story_pattern secret_patterns ≡ true
story_patterns = refl

pub line_patterns : All IsLinePattern secret_patterns
line_patterns = ground arith

pub marker_clean : contains_secret_pattern redaction_marker secret_patterns ≡ false
unfolding contains_secret_pattern starts_with
marker_clean = refl

redacted-IsClean : (text : Text) → IsClean secret_patterns (redact_secret_lines text).0
unfolding redact_secret_lines
redacted-IsClean text =
    contains_secret_pattern-redact_secret_lines text secret_patterns line_patterns marker_clean

module _ {Url F : Type 0} (pf : Platform Url) (fl : Float32 F) where
  merge_into_candidate-secrets :
      (s : Store) (r : NewRecord) (text : Text) (cs : List PendingContinuityCandidate)
      → IsSecretFree s
      → IsClean secret_patterns text
      → All (λ (c : PendingContinuityCandidate). IsClean secret_patterns c.text) cs
      → OnSome (λ (p : Store × Text). IsSecretFree p.0) (merge_into_candidate pf fl s r text cs)
  unfolding merge_into_candidate
  merge_into_candidate-secrets s r text [] h k q = tt
  merge_into_candidate-secrets s r text (c ∷ cs) h k q =
      let P = OnSome (λ (p : Store × Text). IsSecretFree p.0) in
      let rest = merge_into_candidate-secrets s r text cs h k q.1 in
      let grown =
        merge_story_text-IsClean pf secret_patterns c.text text 6400 story_patterns q.0 k in
      if-holds P
        (is_some
          (should_merge pf fl (incoming_record r text) (candidate_record c) (fl.hundredths 0)))
        (if-holds P (merge_pending_capture s c r (merge_story_text pf c.text text 6400)).1
          (AllTexts-merge (IsClean secret_patterns) s c r _ h grown) rest)
        rest

  write_capture-secrets :
      (s : Store) (capture : CaptureForPersistence) (text : Text) (count : ℕ)
      → IsSecretFree s
      → IsClean secret_patterns text
      → IsSecretFree (write_capture pf fl s capture text count).0
  unfolding write_capture
  write_capture-secrets s capture text count h k =
      let r = new_record pf fl capture in
      let after = r.captured_at_ms - 45 * 60 * 1000 in
      tried _
        (merge_into_candidate-secrets s r text _ h k
          (All-candidates (IsClean secret_patterns) s after 64 h))
        _
        (AllTexts-insert (IsClean secret_patterns) s r
          (record { id = capture.chunk_id; ord = 0; text = text } ∷ []) (k, tt) h)
    where
      inserted :
          (o : Result Store StoreError)
          → OnOk IsSecretFree o
          → IsSecretFree
              (elim o as (λ _. Store × Result PersistCaptureOutcome StoreError) [
                | ok after ↦ (after, ok (stored capture.record_id count))
                | err e ↦ (s, err e)
              ]).0
      inserted (ok after) q = q
      inserted (err e) q = h

      tried :
          (o : Option (Store × Text))
          → OnSome (λ (p : Store × Text). IsSecretFree p.0) o
          → (i : Result Store StoreError) → OnOk IsSecretFree i
          → IsSecretFree
              (elim o as (λ _. Store × Result PersistCaptureOutcome StoreError) [
                | some (after, record_id) ↦ (after, ok (merged record_id count))
                | none ↦ elim i as (λ _. Store × Result PersistCaptureOutcome StoreError) [
                  | ok after ↦ (after, ok (stored capture.record_id count))
                  | err e ↦ (s, err e)
                ]
              ]).0
      tried (some (after, record_id)) q i k = q
      tried none q i k = inserted i k

  -- For the built-in policy, a store whose chunks hold no secret pattern still holds none after a
  -- capture went through the write path, whether it was skipped, stored, merged or refused.
  pub persist_capture-secrets :
      (s : Store) (capture : CaptureForPersistence) (blocklist : Blocklist)
      → IsSecretFree s
      → IsSecretFree (persist_capture pf fl s capture blocklist).0
  unfolding persist_capture evaluate contains_secret_pattern safety_context
  persist_capture-secrets s capture blocklist h =
      let full = safety_context capture (some capture.ocr_text) in
      decided _ _ (λ e. ((allow_iff pf full blocklist built_in).0 e).8)
    where
      kept :
          (after : SafetyDecision)
          → (after ≡ allow → IsClean secret_patterns capture.ocr_text)
          → IsSecretFree
              (elim after as (λ _. Store × Result PersistCaptureOutcome StoreError) [
                | allow ↦ write_capture pf fl s capture capture.ocr_text 0
                | redact reason ↦
                    let (text, count) = redact_secret_lines capture.ocr_text in
                    write_capture pf fl s capture text count
                | skip_storage reason ↦ (s, ok (skipped reason))
              ]).0
      kept allow k = write_capture-secrets s capture capture.ocr_text 0 h (k refl)
      kept (redact reason) k =
          write_capture-secrets s capture _ (redact_secret_lines capture.ocr_text).1 h
            (redacted-IsClean capture.ocr_text)
      kept (skip_storage reason) k = h

      decided :
          (before after : SafetyDecision)
          → (after ≡ allow → IsClean secret_patterns capture.ocr_text)
          → IsSecretFree
              (elim before as (λ _. Store × Result PersistCaptureOutcome StoreError) [
                | skip_storage reason ↦ (s, ok (skipped reason))
                | _ ↦ elim after as (λ _. Store × Result PersistCaptureOutcome StoreError) [
                  | allow ↦ write_capture pf fl s capture capture.ocr_text 0
                  | redact reason ↦
                      let (text, count) = redact_secret_lines capture.ocr_text in
                      write_capture pf fl s capture text count
                  | skip_storage reason ↦ (s, ok (skipped reason))
                ]
              ]).0
      decided (skip_storage reason) after k = h
      decided allow after k = kept after k
      decided (redact reason) after k = kept after k

-- ===== src/Tests/Memory.antt =====
-- crates/fndr-memory, the store and the adapters at concrete inputs.
use fndr.Prelude.{◌/◌, ◌≡◌, refl, ◌↔◌, [], none, some, ok, arith}
use fndr.Text.{
  Text, codes, bytes, encode_char, str_len, trim, is_ascii_digit, contains, starts_with, text_eq,
  to_ascii_lowercase, lower_char, split_on, is_empty, trim_start_matches, trim_end_matches,
  is_whitespace, is_ascii_alphanumeric, join,
}
use fndr.Privacy.Blocklist.{Blocklist}
use fndr.Privacy.SafetyGate.{
  evaluate, skip_storage, password_manager, secret_patterns, contains_secret_pattern,
}
use fndr.Capture.Pipeline.{CaptureContext, SkipReason, skip, PersistenceOutcome}
use fndr.Store.{Store}
use fndr.Memory.Anchor.{ContinuityRecord, domain, matching_effective_url, normalize_overlap, words}
use fndr.Memory.Anchor
use fndr.Memory.Session.{build_session_id, same_session_iff}
use fndr.Memory.Score.{
  should_merge, score_candidate, eligible_for_story_merge, passes_merge_threshold, time_distance,
  both_equal,
}
use fndr.Memory.Score
use fndr.Memory.Symmetry.{should_merge-swap}
use fndr.Memory.Story.{merge_story_text}
use fndr.Memory.Story.Evidence.{Keeps, merge_story_text-Keeps}
use fndr.Memory.Story.Secrets.{IsClean, merge_story_text-IsClean}
use fndr.Memory.WritePath.{CaptureForPersistence, skipped, safety_context, persist_capture}
use fndr.Memory.WritePath.Secrets.{IsSecretFree, persist_capture-secrets, story_patterns}
use fndr.Memory.WritePath.Skip.{skipped_iff}
use fndr.Shell.Adapters.{StoreCaptureSink, gate_evaluate, persist, persist_agrees_with_gate}
use fndr.Tests.Web.{web, hundredths}

abbrev today : Text
today = codes "20250101"

same_session_iff_example :
    (build_session_id today 61 (codes "Notes") none (codes "notes:plan")
      ≡ build_session_id today 89 (codes "Notes") none (codes "notes:plan"))
    ↔ (61 / 30 ≡ 89 / 30)
unfolding str_len bytes encode_char is_ascii_digit
same_session_iff_example =
    same_session_iff today (codes "Notes") (codes "notes:plan") none 61 89 refl refl (omega arith)
      (omega arith)

abbrev plan : ContinuityRecord
plan = record {
  app_name = codes "Notes";
  url = none;
  window_title = codes "quarterly roadmap";
  text = codes "quarterly roadmap draft with budget numbers";
  snippet = codes "quarterly roadmap draft";
  lexical_shadow = codes "quarterly roadmap draft";
  captured_at_ms = 1_000;
}

abbrev later_plan : ContinuityRecord
later_plan = record plan {
  text = codes "budget numbers for the quarterly roadmap draft";
  snippet = codes "draft of the quarterly roadmap";
  captured_at_ms = 2_000;
}

-- The program, opened.
program : Unit {0}
unfolding should_merge eligible_for_story_merge passes_merge_threshold score_candidate
    Score.lexical_score Score.token_overlap Score.tokenize Score.distinct Score.trim_chars words
    Anchor.is_generic_stop_word Anchor.continuity_anchor Anchor.app_anchor Anchor.normalize_app_key
    Anchor.normalize_anchor_text domain text_eq split_on join is_empty str_len bytes encode_char
    trim trim_start_matches trim_end_matches is_whitespace to_ascii_lowercase lower_char
    is_ascii_alphanumeric is_ascii_digit contains starts_with contains_secret_pattern
program = tt
  where
    merged :
        should_merge web hundredths plan plan 0 ≡ some (score_candidate web hundredths plan plan 0)
    merged = refl

should_merge-swap_example :
    let score = score_candidate web hundredths plan later_plan 0 in
    (should_merge web hundredths later_plan plan 0 ≡ some score)
    × (score ≡ score_candidate web hundredths plan later_plan 0)
    × (score ≡ score_candidate web hundredths later_plan plan 0)
unfolding program
should_merge-swap_example =
    should_merge-swap web hundredths plan later_plan 0
      (score_candidate web hundredths plan later_plan 0) refl

abbrev old_text : Text
old_text = codes "Budget review. Numbers are open."

abbrev new_text : Text
new_text = codes "The roadmap was agreed. Numbers are open."

merge_story_text-Keeps_example :
    Keeps web old_text new_text 6400 (merge_story_text web old_text new_text 6400)
merge_story_text-Keeps_example = merge_story_text-Keeps web old_text new_text 6400

merge_story_text-IsClean_example :
    IsClean secret_patterns (merge_story_text web old_text new_text 6400)
unfolding program
merge_story_text-IsClean_example =
    merge_story_text-IsClean web secret_patterns old_text new_text 6400 story_patterns refl refl

abbrev capture : CaptureForPersistence
capture = record {
  record_id = codes "r1";
  session_id = codes "s1";
  chunk_id = codes "c1";
  source = codes "screen";
  app_name = codes "1Password";
  bundle_id = none;
  url = none;
  window_title = codes "Vault";
  ocr_text = codes "password: hunter2";
  captured_at_ms = 1_000;
  created_at_ms = 1_000;
}

abbrev nothing : Store
nothing = record { records = []; chunks = [] }

abbrev no_rules : Blocklist
no_rules = record { apps = []; domains = [] }

persist_capture-secrets_example :
    IsSecretFree (persist_capture web hundredths nothing capture no_rules).0
persist_capture-secrets_example = persist_capture-secrets web hundredths nothing capture no_rules tt

skipped_iff_example :
    (persist_capture web hundredths nothing capture no_rules
      ≡ (nothing, ok (skipped password_manager)))
    ↔ (evaluate web (safety_context capture none) no_rules ≡ skip_storage password_manager)
skipped_iff_example = skipped_iff web hundredths nothing capture no_rules password_manager

abbrev sink : StoreCaptureSink
sink = record { store = nothing; blocklist = no_rules; session_id = codes "s1"; next_sequence = 0 }

abbrev vault : CaptureContext
vault = record {
  app_name = codes "1Password";
  bundle_id = none;
  window_title = codes "Vault";
  url = none;
  observed_at_ms = 1_000;
}

persist_agrees_with_gate_example :
    ((persist web hundredths
        (λ e. codes "constraint")
        sink
        (codes "screen")
        vault
        1_000
        (codes "text")).1
      ≡ ok PersistenceOutcome.skipped_final_privacy)
    ↔ ((reason : SkipReason) × (gate_evaluate web hundredths
            (λ e. codes "constraint")
            no_rules
            vault
          ≡ skip reason))
persist_agrees_with_gate_example =
    persist_agrees_with_gate web hundredths (λ e. codes "constraint") sink (codes "screen") vault
      1_000 (codes "text") (omega arith)

-- ===== src/Shell/Lifecycle/Codes.antt =====
-- crates/fndr-shell/src/capture_lifecycle.rs: the codes that the status carries.
use fndr.Prelude.{◌≡◌, refl, sym, ◌∙◌, ap, List, [], ◌∷◌, Option, none, some, if◌then◌else◌}
use fndr.Text.{Text, text_eq}
use fndr.Capture.Pipeline.{
  SkipReason, metadata_unavailable, pre_capture_privacy, private_browsing, admission_policy,
  perceptual_duplicate, missing_perceptual_signature, low_signal, semantic_duplicate, final_privacy,
  screen_recording_or_capture_unavailable, capture_failed, ocr_failed, persistence_failed,
}
use fndr.Shell.Lifecycle.{skip_reason_code}

abbrev all_reasons : List SkipReason
all_reasons =
    metadata_unavailable ∷ pre_capture_privacy ∷ private_browsing ∷ admission_policy
    ∷ perceptual_duplicate ∷ missing_perceptual_signature ∷ low_signal ∷ semantic_duplicate
    ∷ final_privacy ∷ screen_recording_or_capture_unavailable ∷ capture_failed ∷ ocr_failed
    ∷ persistence_failed ∷ []

-- The first reason with a code.
abbrev find_reason : Text → List SkipReason → Option SkipReason
find_reason code [] = none
find_reason code (r ∷ rs) =
    let rest = find_reason code rs in if text_eq (skip_reason_code r) code then some r else rest

find_reason-code : (r : SkipReason) → find_reason (skip_reason_code r) all_reasons ≡ some r
unfolding skip_reason_code text_eq
find_reason-code metadata_unavailable = refl
find_reason-code pre_capture_privacy = refl
find_reason-code private_browsing = refl
find_reason-code admission_policy = refl
find_reason-code perceptual_duplicate = refl
find_reason-code missing_perceptual_signature = refl
find_reason-code low_signal = refl
find_reason-code semantic_duplicate = refl
find_reason-code final_privacy = refl
find_reason-code screen_recording_or_capture_unavailable = refl
find_reason-code capture_failed = refl
find_reason-code ocr_failed = refl
find_reason-code persistence_failed = refl

some_injective : (r s : SkipReason) → some r ≡ some s → r ≡ s
some_injective r s h = cc

-- Two reasons with one code are one reason.
pub skip_reason_code_injective :
    (r s : SkipReason) → skip_reason_code r ≡ skip_reason_code s → r ≡ s
skip_reason_code_injective r s h =
    some_injective r s
      (sym (find_reason-code r) ∙ ap (λ t. find_reason t all_reasons) h ∙ find_reason-code s)

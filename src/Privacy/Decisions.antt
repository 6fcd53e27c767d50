-- ===== src/Privacy/Decisions.antt =====
-- What `evaluate` decides.
use fndr.Prelude.{◌≡◌, ◌↔◌, true, false, [], none, some, arith, any, unwrap_or, ◌||◌}
use fndr.Text.{Text, contains, to_ascii_lowercase}
use fndr.Platform.{Platform}
use fndr.Privacy.Blocklist.{Blocklist, blocks_app, blocks_url}
use fndr.Privacy.SafetyGate.{
  SafetyReason, allow, redact, skip_storage, SafetyContext, Policy, contains_secret_pattern,
  is_some_and, is_self_capture, is_private_browsing, matches_domain_suffix, matches_domain_label,
  evaluate_core, secret_pattern,
}

abbrev pub metadata : SafetyContext → SafetyContext
metadata context = record context { ocr_text = none }

module _ {Url : Type 0} (pf : Platform Url) (context : SafetyContext) (list : Blocklist)
    (policy : Policy) where
  -- The text that was read never changes a decision to skip: the check before the capture, which
  -- has metadata alone, and the check at the storage boundary skip the same contexts, for the same
  -- reason.
  pub skip_storage_iff :
      (r : SafetyReason)
      → (evaluate_core pf context list policy ≡ skip_storage r)
        ↔ (evaluate_core pf (metadata context) list policy ≡ skip_storage r)
  unfolding evaluate_core
  skip_storage_iff r = ground arith

  -- Metadata alone never asks for redaction.
  pub redact_needs_text :
      (r : SafetyReason)
      → evaluate_core pf context list policy ≡ redact r
      → (text : Text) × (context.ocr_text ≡ some text)
        × (contains_secret_pattern text policy.secret_patterns ≡ true)
        × (evaluate_core pf (metadata context) list policy ≡ allow)
        × (r ≡ secret_pattern)
  unfolding evaluate_core
  redact_needs_text r h = ground arith

  -- A context is allowed exactly when every test passes: the blocklist, the program's own windows,
  -- password managers, private browsing, financial and medical hosts, sign-in cues and secrets.
  pub allow_iff :
      let app = to_ascii_lowercase (unwrap_or [] context.app_name) in
      let title = to_ascii_lowercase (unwrap_or [] context.window_title) in
      let url = unwrap_or [] context.url in
      (evaluate_core pf context list policy ≡ allow) ↔ (
        (blocks_app pf list app ≡ false)
        × (blocks_url pf list url ≡ false)
        × (is_some_and (is_self_capture app) context.bundle_id ≡ false)
        × (any (λ name. contains app name) policy.password_manager_names ≡ false)
        × (is_private_browsing title ≡ false)
        × (matches_domain_suffix pf url policy.financial_domains ≡ false)
        × (matches_domain_label pf url policy.medical_domain_markers ≡ false)
        × (any (λ w. contains title w || contains (to_ascii_lowercase url) w) policy.auth_indicators
            ≡ false)
        × (is_some_and
              (λ text. contains_secret_pattern text policy.secret_patterns)
              context.ocr_text
            ≡ false))
  unfolding evaluate_core
  allow_iff = ground arith

-- ===== src/Privacy/SafetyGate.antt =====
-- crates/fndr-privacy/src/safety_gate.rs: the decision about one captured context, and redaction.
use fndr.Prelude.{
  ℕ, suc, Bool, false, not, ◌&&◌, ◌||◌, List, [], ◌∷◌, map, Option, none, some, if◌then◌else◌, ◌==◌,
  any, keep, filter_map, unwrap_or,
}
use fndr.Text.{
  Text, codes, newline, is_not_empty, text_eq, one_of, contains, starts_with, trim, split_on, lines,
  join, to_ascii_lowercase,
}
use fndr.Platform.{Platform}
use fndr.Privacy.Blocklist.{
  Blocklist, host_matches_suffix, host_from_url, normalize_domain, blocks_app, blocks_url,
}

abbrev pub password_manager_names : List Text
password_manager_names =
    codes "1password"
    ∷ codes "bitwarden"
    ∷ codes "keychain"
    ∷ codes "lastpass"
    ∷ codes "dashlane"
    ∷ codes "keepass"
    ∷ []

abbrev pub financial_domains : List Text
financial_domains =
    codes "chase.com"
    ∷ codes "bankofamerica.com"
    ∷ codes "wellsfargo.com"
    ∷ codes "citibank.com"
    ∷ codes "capitalone.com"
    ∷ codes "usbank.com"
    ∷ codes "fidelity.com"
    ∷ codes "vanguard.com"
    ∷ codes "schwab.com"
    ∷ codes "americanexpress.com"
    ∷ codes "discover.com"
    ∷ codes "paypal.com"
    ∷ codes "venmo.com"
    ∷ codes "robinhood.com"
    ∷ []

abbrev pub medical_domain_markers : List Text
medical_domain_markers = codes "mychart" ∷ codes "healthportal" ∷ codes "patientportal" ∷ []

abbrev pub auth_indicators : List Text
auth_indicators =
    codes "sign in"
    ∷ codes "log in"
    ∷ codes "login"
    ∷ codes "authenticate"
    ∷ codes "authorization"
    ∷ codes "oauth"
    ∷ codes "saml"
    ∷ codes "two-factor"
    ∷ codes "2fa"
    ∷ []

abbrev pub secret_patterns : List Text
secret_patterns =
    codes "api_key"
    ∷ codes "apikey"
    ∷ codes "secret_key"
    ∷ codes "private_key"
    ∷ codes "access_token"
    ∷ codes "password:"
    ∷ codes "passwd:"
    ∷ codes "token:"
    ∷ codes "-----begin rsa"
    ∷ codes "-----begin ec"
    ∷ codes "ghp_"
    ∷ codes "sk-"
    ∷ codes "xoxb-"
    ∷ []

pub data SafetyReason : Type 0 where
  user_blocklist fndr_self_capture password_manager private_browsing : SafetyReason
  financial_site medical_site authentication secret_pattern : SafetyReason

pub data SafetyDecision : Type 0 where
  allow : SafetyDecision
  redact : SafetyReason → SafetyDecision
  skip_storage : SafetyReason → SafetyDecision

-- `SafetyDecision::reason`.
unfoldable pub reason : SafetyDecision → Option SafetyReason
reason allow = none
reason (redact r) = some r
reason (skip_storage r) = some r

pub record SafetyContext : Type 0 where
  pub app_name : Option Text
  pub bundle_id : Option Text
  pub url : Option Text
  pub window_title : Option Text
  pub ocr_text : Option Text

-- `SensitiveContextPolicy`.
pub record Policy : Type 0 where
  pub password_manager_names : List Text
  pub financial_domains : List Text
  pub medical_domain_markers : List Text
  pub auth_indicators : List Text
  pub secret_patterns : List Text

-- The lists that `evaluate` passes on.
abbrev pub built_in : Policy
built_in = record {
  password_manager_names = password_manager_names;
  financial_domains = financial_domains;
  medical_domain_markers = medical_domain_markers;
  auth_indicators = auth_indicators;
  secret_patterns = secret_patterns;
}

unfoldable pub contains_secret_pattern : Text → List Text → Bool
unfolding contains to_ascii_lowercase
contains_secret_pattern text patterns = any (λ p. contains (to_ascii_lowercase text) p) patterns

abbrev pub redaction_marker : Text
redaction_marker = codes "[REDACTED: secret pattern]"

-- The mapped lines and the closure's counter.
unfoldable pub redact_lines : List Text → List Text → ℕ → List Text × ℕ
unfolding contains_secret_pattern
redact_lines patterns [] count = ([], count)
redact_lines patterns (l ∷ ls) count =
    let secret = contains_secret_pattern l patterns in
    let rest = redact_lines patterns ls (if secret then suc count else count) in
    ((if secret then redaction_marker else l) ∷ rest.0, rest.1)

unfoldable pub redact_secret_lines_matching : Text → List Text → Text × ℕ
unfolding lines join redact_lines
redact_secret_lines_matching text patterns =
    let (redacted, count) = redact_lines patterns (lines text) 0 in
    (join (newline ∷ []) redacted, count)

unfoldable pub redact_secret_lines : Text → Text × ℕ
unfolding redact_secret_lines_matching
redact_secret_lines text = redact_secret_lines_matching text secret_patterns

unfoldable pub redact_secret_lines_with_policy : Text → Policy → Text × ℕ
unfolding redact_secret_lines_matching
redact_secret_lines_with_policy text policy =
    redact_secret_lines_matching text policy.secret_patterns

unfoldable pub normalize_word : List Text → List Text
unfolding trim to_ascii_lowercase
normalize_word entries = keep is_not_empty (map (λ e. to_ascii_lowercase (trim e)) entries)

-- The bundle identifier of the program itself, but for its meeting window.
unfoldable pub is_self_capture : Text → Text → Bool
unfolding to_ascii_lowercase starts_with contains
is_self_capture app bundle_id =
    let id = to_ascii_lowercase bundle_id in
    (starts_with id (codes "com.fndr") || contains id (codes ".fndr."))
    && not (contains app (codes "fndr meeting"))

unfoldable pub is_private_browsing : Text → Bool
unfolding contains
is_private_browsing title =
    contains title (codes "incognito")
    || (contains title (codes "private")
        && (contains title (codes "browsing") || contains title (codes "window")))

-- `Option::is_some_and`.
abbrev pub is_some_and : (Text → Bool) → Option Text → Bool
is_some_and p none = false
is_some_and p (some t) = p t

module _ {Url : Type 0} (pf : Platform Url) where
  unfoldable pub matches_domain_suffix : Text → List Text → Bool
  unfolding host_from_url host_matches_suffix
  matches_domain_suffix url domains =
      is_some_and (λ host. any (λ domain. host_matches_suffix host domain) domains)
        (host_from_url pf url)

  unfoldable pub matches_domain_label : Text → List Text → Bool
  unfolding host_from_url text_eq split_on
  matches_domain_label url markers =
      is_some_and (λ host. any (λ label. one_of label markers) (split_on (λ c. c == b'.') host))
        (host_from_url pf url)

  -- `SensitiveContextPolicy::new` and `default`.
  unfoldable pub policy_new : Policy → Policy
  unfolding normalize_word normalize_domain
  policy_new p = record {
    password_manager_names = normalize_word p.password_manager_names;
    financial_domains = filter_map (normalize_domain pf) p.financial_domains;
    medical_domain_markers = normalize_word p.medical_domain_markers;
    auth_indicators = normalize_word p.auth_indicators;
    secret_patterns = normalize_word p.secret_patterns;
  }

  unfoldable pub policy_default : Policy
  unfolding policy_new
  policy_default = policy_new built_in

  unfoldable pub evaluate_core : SafetyContext → Blocklist → Policy → SafetyDecision
  evaluate_core context blocklist policy =
      let app = to_ascii_lowercase (unwrap_or [] context.app_name) in
      let title = to_ascii_lowercase (unwrap_or [] context.window_title) in
      let url = unwrap_or [] context.url in
      let url_lower = to_ascii_lowercase url in
      if blocks_app pf blocklist app || blocks_url pf blocklist url
      then skip_storage user_blocklist
      else if is_some_and (is_self_capture app) context.bundle_id
      then skip_storage fndr_self_capture
      else if any (λ name. contains app name) policy.password_manager_names
      then skip_storage password_manager
      else if is_private_browsing title
      then skip_storage private_browsing
      else if matches_domain_suffix url policy.financial_domains
      then skip_storage financial_site
      else if matches_domain_label url policy.medical_domain_markers
      then skip_storage medical_site
      else if any (λ indicator. contains title indicator || contains url_lower indicator)
          policy.auth_indicators
      then skip_storage authentication
      else if is_some_and (λ text. contains_secret_pattern text policy.secret_patterns)
          context.ocr_text
      then redact secret_pattern
      else allow

  unfoldable pub evaluate : SafetyContext → Blocklist → SafetyDecision
  evaluate context blocklist = evaluate_core context blocklist built_in

  unfoldable pub evaluate_with_policy : SafetyContext → Blocklist → Policy → SafetyDecision
  evaluate_with_policy = evaluate_core

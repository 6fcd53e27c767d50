-- ===== src/Tests/Privacy.antt =====
-- crates/fndr-privacy at concrete inputs.
use fndr.Prelude.{◌≡◌, refl, ◌↔◌, ◌⊎◌, true, false, [], ◌∷◌, ◌++◌, map, none, some, length, Has}
use fndr.Text.{
  Text, codes, newline, lines, join, contains, to_ascii_lowercase, text_eq, starts_with, ends_with,
  trim, trim_start_matches, trim_end_matches, is_empty, one_of, split_on, split_once_str, str_len,
  bytes, encode_char, is_whitespace, lower_char, split_whitespace,
}
use fndr.Privacy.Blocklist.{
  Blocklist, SanitizedUrl, host_matches_suffix, host_from_url, blocks_url, blocks_app, tokens,
  normalize_app, normalize_domain, sanitize_url_for_storage, entry_blocks, texts_eq,
}
use fndr.Privacy.Blocklist
use fndr.Privacy.SafetyGate.{
  SafetyContext, redact, skip_storage, password_manager, secret_pattern, contains_secret_pattern,
  redact_secret_lines_matching, secret_patterns, redact_secret_lines, evaluate, evaluate_core,
  built_in, financial_site, is_self_capture, is_private_browsing, matches_domain_suffix,
  matches_domain_label, redact_lines,
}
use fndr.Privacy.Redaction.{
  contains_secret_pattern-redact_secret_lines, redact_secret_lines_matching-eq-map, redacted_line,
  secrets,
}
use fndr.Privacy.Decisions.{metadata, skip_storage_iff}
use fndr.Privacy.Hosts.{blocks_url-subdomain}
use fndr.Privacy.Apps.{blocks_app_iff, Run}
use fndr.Privacy.Sanitize.{sanitize_url_safe}
use fndr.Memory.WritePath.Secrets.{line_patterns, marker_clean}
use fndr.Tests.Web.{WebUrl, web, web_local}

abbrev page : Text
page = codes "notes" ++ newline ∷ codes "Password: hunter2"

abbrev bank : Text
bank = codes "https://online.bank.com"

abbrev list : Blocklist
list = record { apps = codes "mail app" ∷ []; domains = codes "bank.com" ∷ [] }

abbrev context : SafetyContext
context = record {
  app_name = some (codes "Notes");
  bundle_id = none;
  url = none;
  window_title = some (codes "List");
  ocr_text = some page;
}

-- The program, opened.
program : Unit {0}
unfolding contains_secret_pattern redact_secret_lines redact_secret_lines_matching redact_lines
    lines join contains to_ascii_lowercase lower_char text_eq starts_with ends_with trim
    trim_start_matches trim_end_matches is_empty split_on split_once_str str_len bytes encode_char
    is_whitespace split_whitespace host_matches_suffix host_from_url blocks_url blocks_app tokens
    normalize_app normalize_domain sanitize_url_for_storage entry_blocks texts_eq evaluate
    evaluate_core Blocklist.is_byte is_self_capture is_private_browsing matches_domain_suffix
    matches_domain_label
program = tt

redacted_page :
    redact_secret_lines page ≡ (codes "notes" ++ newline ∷ codes "[REDACTED: secret pattern]", 1)
unfolding program
redacted_page = refl

page_decision : evaluate web context list ≡ redact secret_pattern
unfolding program
page_decision = refl

bank_decision :
    evaluate web (record context { url = some (codes "https://www.chase.com") }) list
    ≡ skip_storage financial_site
unfolding program
bank_decision = refl

name_is_whole : blocks_app web list (codes "Gmail App") ≡ false
unfolding program
name_is_whole = refl

contains_secret_pattern-redact_secret_lines_example :
    contains_secret_pattern (redact_secret_lines_matching page secret_patterns).0 secret_patterns
    ≡ false
contains_secret_pattern-redact_secret_lines_example =
    contains_secret_pattern-redact_secret_lines page secret_patterns line_patterns marker_clean

redact_secret_lines_matching-eq-map_example : redact_secret_lines_matching page secret_patterns ≡ (
  join (newline ∷ []) (map (redacted_line secret_patterns) (lines page)),
  length (secrets secret_patterns (lines page)),
)
redact_secret_lines_matching-eq-map_example =
    redact_secret_lines_matching-eq-map page secret_patterns

skip_storage_iff_example :
    (evaluate_core web context list built_in ≡ skip_storage password_manager)
    ↔ (evaluate_core web (metadata context) list built_in ≡ skip_storage password_manager)
skip_storage_iff_example = skip_storage_iff web context list built_in password_manager

blocks_url-subdomain_example : blocks_url web list (codes "https://a.online.bank.com") ≡ true
unfolding program
blocks_url-subdomain_example =
    blocks_url-subdomain web list bank (codes "https://a.online.bank.com") (codes "online.bank.com")
      (codes "a") refl refl refl

blocks_app_iff_example :
    let name = normalize_app web (codes "Mail App") in
    (blocks_app web list (codes "Mail App") ≡ true) ↔ (
      (is_empty name ≡ false)
      × ((entry : Text) × Has entry list.apps
          × ((entry ≡ name) ⊎ Run (tokens entry) (tokens name))))
blocks_app_iff_example = blocks_app_iff web list (codes "Mail App")

sanitize_url_safe_example :
    (u : WebUrl) × (bank ≡ web.into_string u)
    × (one_of (web.scheme u) (codes "http" ∷ codes "https" ∷ []) ≡ true)
    × (web.username u ≡ [])
    × (web.password u ≡ none)
    × (web.query u ≡ none)
    × (web.fragment u ≡ none)
unfolding program
sanitize_url_safe_example = sanitize_url_safe web web_local bank (record { text = bank }) refl

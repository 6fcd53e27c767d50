-- ===== src/Tests/Signal.antt =====
-- Text cleanup: small runs, and the theorems at concrete inputs.
use fndr.Prelude.{
  ℕ, ◌≤◌, ◌≡◌, refl, Bool, true, false, not, ◌&&◌, leb, List, [], ◌∷◌, ◌++◌, some, length, All,
}
use fndr.Text.{
  Text, codes, newline, is_empty, trim, trim_start_matches, trim_end_matches, is_whitespace, lines,
  join, split_on, split_whitespace, split_str, str_len, bytes, encode_char, contains, starts_with,
  ends_with, text_eq, strip_prefix, to_ascii_lowercase, lower_char, is_ascii_alphanumeric,
  is_ascii_digit,
}
use fndr.Memory.Score.{distinct}
use fndr.Prelude.{order_by, place}
use fndr.TextSignal.App.{
  browser, code, other, same_class, AppIdentity, is_browser, is_code, is_mail, class_from_bundle_id,
  class_from_name, new, from_name,
}
use fndr.TextSignal.Lines.{
  looks_like_tab_strip_line, looks_like_pipe_tab_row, is_separator_line, normalize_inline,
  low_conf_payload, truncate_snippet, looks_like_file_inventory, is_compact_chrome_caption,
  looks_like_json_inventory, looks_like_notification_fragment, looks_like_feed_fragment,
  looks_like_animation_fragment, snippet_dedup_key, title_is_generic_for_app,
  looks_like_email_header, looks_like_url_line, is_generic_browser_label,
}
use fndr.TextSignal.Noise.{
  symbol_ratio, should_drop_line, is_useful_snippet_line, line_quality_score, noise_loop,
  estimate_noise_score,
}
use fndr.TextSignal.Clean.{
  reduce_line, reduce_lines, reduce_chrome_noise_for_app, reduce_chrome_noise, build_line,
  build_lines, build_high_signal_text_for_app,
}
use fndr.TextSignal.Kept.{FreshKeys}
use fndr.TextSignal.Reduced.{reduce_chrome_noise_for_app_idem}
use fndr.TextSignal.Built.{
  StatsAccount, build_high_signal_text_for_app_sound, build_high_signal_text_for_app_stats,
}
use fndr.TextSignal.Snippet.{collect_details, concise_fallback_snippet}
use fndr.TextSignal.Salience.{
  SalientSpan, sentence_loop, split_block_into_sentences, line_scores, span_score, rank_sentences,
  rank_blocks, rank_salient_spans, compress_spans, compress_to_salient_evidence,
  salience_concentration,
}
use fndr.TextSignal.Spans.{compress_to_salient_evidence-bound}
use fndr.Tests.Web.{web, hundredths}

abbrev safari : AppIdentity
safari = record { name = codes "Safari"; class = browser }

abbrev nl : Text
nl = newline ∷ []

-- A repeated line in another case, a label, a short line and two lines of content.
abbrev screen_text : Text
screen_text =
    codes "The quarterly plan was approved"
    ++ nl
    ++ codes "the  quarterly plan was APPROVED "
    ++ nl
    ++ codes "New Tab"
    ++ nl
    ++ codes "ok"
    ++ nl
    ++ codes "Ship the importer next week"

abbrev is_upper : ℕ → Bool
is_upper c = not (is_empty (trim (c ∷ []))) && (leb b'A' c && leb c b'Z')

-- Two spans; the limit leaves room for nothing behind the first one but the separator.
abbrev spans : List (SalientSpan ℕ)
spans =
    record { text = codes "abcdefghi"; score = 2 } ∷ record { text = codes "jkl"; score = 1 } ∷ []

program : Unit {0}
unfolding same_class is_browser is_code is_mail class_from_bundle_id class_from_name new from_name
    is_empty trim trim_start_matches trim_end_matches is_whitespace lines join split_on
    split_whitespace str_len bytes encode_char contains starts_with ends_with text_eq strip_prefix
    to_ascii_lowercase lower_char is_ascii_alphanumeric is_ascii_digit looks_like_tab_strip_line
    looks_like_pipe_tab_row is_separator_line normalize_inline low_conf_payload truncate_snippet
    looks_like_file_inventory is_compact_chrome_caption looks_like_json_inventory
    looks_like_notification_fragment looks_like_feed_fragment looks_like_animation_fragment
    snippet_dedup_key title_is_generic_for_app looks_like_email_header looks_like_url_line
    is_generic_browser_label symbol_ratio should_drop_line is_useful_snippet_line line_quality_score
    noise_loop estimate_noise_score reduce_line reduce_lines reduce_chrome_noise_for_app
    reduce_chrome_noise build_line build_lines build_high_signal_text_for_app collect_details
    concise_fallback_snippet sentence_loop split_block_into_sentences line_scores span_score
    rank_sentences rank_blocks rank_salient_spans compress_spans compress_to_salient_evidence
    salience_concentration distinct order_by place split_str
program = tt
  where
    named_by_bundle :
        (new web (codes "Chromium Notes") (some (codes " com.jetbrains.PyCharm"))).class ≡ code
    named_by_bundle = refl

    no_substrings : (from_name web (codes "Knowledge Search")).class ≡ other
    no_substrings = refl

    reduced :
        reduce_chrome_noise_for_app web hundredths safari screen_text
        ≡ codes "The quarterly plan was approved" ++ nl ++ codes "Ship the importer next week"
    reduced = refl

    tabs :
        looks_like_tab_strip_line (codes "Inbox" ++ 183 ∷ codes "News" ++ 183 ∷ codes "Docs") ≡ true
    tabs = refl

    marked : low_conf_payload (codes " [LOW_CONF] maybe this") ≡ (codes "maybe this", true)
    marked = refl

    sentences :
        split_block_into_sentences (codes "We decided to ship. Ok. Then review the rest")
        ≡ codes "We decided to ship." ∷ codes "Ok. Then review the rest" ∷ []
    sentences = refl

    -- The separator is written although the limit is 10: the evidence has 12 characters.
    overrun : length (compress_spans web hundredths is_upper spans 10 []) ≡ 12
    overrun = refl

    snippet :
        concise_fallback_snippet web hundredths safari (codes "Home") (codes "ok") ≡ codes "Home"
    snippet = refl

reduce_chrome_noise_for_app_idem_example :
    reduce_chrome_noise_for_app web hundredths safari
      (reduce_chrome_noise_for_app web hundredths safari screen_text)
    ≡ reduce_chrome_noise_for_app web hundredths safari screen_text
reduce_chrome_noise_for_app_idem_example =
    reduce_chrome_noise_for_app_idem web hundredths safari screen_text

build_high_signal_text_for_app_sound_example :
    All
      (λ w. should_drop_line web hundredths safari w ≡ false)
      (lines (build_high_signal_text_for_app web hundredths safari screen_text).text)
    × FreshKeys
        (snippet_dedup_key web)
        []
        (lines (build_high_signal_text_for_app web hundredths safari screen_text).text)
build_high_signal_text_for_app_sound_example =
    build_high_signal_text_for_app_sound web hundredths safari screen_text

build_high_signal_text_for_app_stats_example :
    StatsAccount web hundredths safari screen_text
      (build_high_signal_text_for_app web hundredths safari screen_text)
build_high_signal_text_for_app_stats_example =
    build_high_signal_text_for_app_stats web hundredths safari screen_text

compress_to_salient_evidence-bound_example :
    length (compress_to_salient_evidence web hundredths is_upper screen_text safari 40) ≤ 42
compress_to_salient_evidence-bound_example =
    compress_to_salient_evidence-bound web hundredths is_upper screen_text safari 40

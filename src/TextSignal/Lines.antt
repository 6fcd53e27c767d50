-- ===== src/TextSignal/Lines.antt =====
-- crates/fndr-textsignal/src/cleanup.rs: the tests that tell chrome and noise from content, line by
-- line.
use fndr.Prelude.{
  ℕ, ◌-◌, Bool, true, false, not, ◌&&◌, ◌||◌, List, [], ◌∷◌, ◌++◌, map, max, none, some,
  if◌then◌else◌, leb, ltb, ◌==◌, length, take, any, all, keep,
}
use fndr.Text.{
  Text, codes, is_empty, text_eq, one_of, starts_with, ends_with, contains, trim, split_on,
  split_whitespace, strip_prefix, str_len, join, trim_start_matches, trim_end_matches,
}
use fndr.Platform.{Platform}
use fndr.TextSignal.App.{AppIdentity}

abbrev pub min_line_len : ℕ
min_line_len = 7

abbrev pub generic_browser_labels : List Text
generic_browser_labels =
    codes "new tab"
    ∷ codes "home"
    ∷ codes "trending"
    ∷ codes "for you"
    ∷ codes "shorts"
    ∷ codes "explore"
    ∷ codes "discover"
    ∷ codes "notifications"
    ∷ codes "inbox"
    ∷ codes "starred"
    ∷ codes "settings"
    ∷ codes "untitled"
    ∷ []

-- `line.matches(c).count()`.
abbrev pub count_char : ℕ → Text → ℕ
count_char c line = length (keep (λ d. d == c) line)

-- `line.split(c).map(|s| s.trim().len())`, and the largest of the lengths.
abbrev pub segments : ℕ → Text → List ℕ
segments c line = map (λ s. str_len (trim s)) (split_on (λ d. d == c) line)

abbrev pub largest : List ℕ → ℕ
largest [] = 0
largest (n ∷ ns) = max n (largest ns)

-- The middle dot is U+00B7.
unfoldable pub looks_like_tab_strip_line : Text → Bool
looks_like_tab_strip_line line =
    if ltb (count_char 183 line) 2
    then false
    else leb (largest (segments 183 line)) 42 && leb (str_len line) 220

unfoldable pub looks_like_pipe_tab_row : Text → Bool
looks_like_pipe_tab_row line =
    if ltb (count_char b'|' line) 2
    then false
    else if ltb (length (segments b'|' line)) 3
    then false
    else leb (largest (segments b'|' line)) 36 && leb (str_len line) 220

unfoldable pub is_separator_line : Text → Bool
is_separator_line line =
    not (is_empty line)
    && all (λ c. c == b'-' || (c == b'_' || (c == b'=' || (c == b'.' || c == b' ')))) line

unfoldable pub normalize_inline : Text → Text
normalize_inline line = join (codes " ") (split_whitespace line)

unfoldable pub low_conf_payload : Text → Text × Bool
low_conf_payload line =
    let trimmed = trim line in
    if text_eq trimmed (codes "[LOW_CONF]")
    then ([], true)
    else elim (strip_prefix (codes "[LOW_CONF] ") trimmed) [
      | some payload ↦ (payload, true)
      | none ↦ (trimmed, false)
    ]

unfoldable pub truncate_snippet : Text → ℕ → Text
truncate_snippet text max_chars =
    if leb (length text) max_chars then text else take (max_chars - 3) text ++ codes "..."

-- `",;:()[]{}".contains(ch)`.
abbrev pub is_bracket : ℕ → Bool
is_bracket c = any (λ d. d == c) (codes ",;:()[]{}")

abbrev pub is_pathish : Text → Bool
is_pathish raw =
    let token = trim_end_matches is_bracket (trim_start_matches is_bracket raw) in
    contains token (codes "/")
    || (contains token (codes "\\")
        || (contains token (codes ".")
            && (contains token (codes "_")
                || (contains token (codes "-")
                    || (ends_with token (codes ".rs")
                        || (ends_with token (codes ".ts")
                            || (ends_with token (codes ".json")
                                || ends_with token (codes ".md"))))))))

unfoldable pub looks_like_file_inventory : Text → Bool
looks_like_file_inventory line =
    let tokens = split_whitespace line in
    if ltb (length tokens) 4 then false else leb 3 (length (keep is_pathish tokens))

module _ {Url : Type 0} (pf : Platform Url) where
  unfoldable pub is_compact_chrome_caption : Text → Bool
  is_compact_chrome_caption line =
      let lower = pf.to_lowercase line in
      if ltb 64 (str_len line)
      then false
      else if one_of lower (codes "backforward" ∷ codes "forwardback" ∷ [])
      then true
      else contains lower (codes "back")
        && (contains lower (codes "forward")
            && (ltb (str_len lower) 42
                && (contains lower (codes "reload") || contains lower (codes "refresh"))))

  unfoldable pub looks_like_json_inventory : Text → Bool
  looks_like_json_inventory line =
      let trimmed = trim line in
      let lower = pf.to_lowercase trimmed in
      if (starts_with trimmed (codes "{") && ends_with trimmed (codes "}"))
        || (starts_with trimmed (codes "[") && ends_with trimmed (codes "]"))
      then ltb 50 (str_len trimmed)
      else contains lower (codes "\"files\"")
        || (contains lower (codes "\"path\"")
            || (contains lower (codes "\"nodes\"") || contains lower (codes "\"items\"")))

  unfoldable pub looks_like_notification_fragment : Text → Bool
  looks_like_notification_fragment line =
      let lower = pf.to_lowercase line in
      contains lower (codes " minutes ago")
      || (contains lower (codes " hours ago")
          || (contains lower (codes " liked this")
              || (contains lower (codes " replied")
                  || (contains lower (codes "suggested for you")
                      || starts_with lower (codes "breaking:")))))

  unfoldable pub looks_like_feed_fragment : Text → Bool
  looks_like_feed_fragment line =
      let lower = pf.to_lowercase line in
      if ltb 90 (str_len line)
      then false
      else if leb (length (split_whitespace line)) 2
      then true
      else starts_with lower (codes "sponsored")
        || one_of lower (
            codes "watch now"
            ∷ codes "learn more"
            ∷ codes "follow"
            ∷ codes "share"
            ∷ codes "like"
            ∷ [])

  unfoldable pub looks_like_animation_fragment : Text → Bool
  looks_like_animation_fragment line = one_of (pf.to_lowercase line) (
      codes "loading"
      ∷ codes "loading..."
      ∷ codes "please wait"
      ∷ codes "retry"
      ∷ codes "refresh"
      ∷ codes "updated just now"
      ∷ [])

  unfoldable pub snippet_dedup_key : Text → Text
  snippet_dedup_key value = pf.to_lowercase (normalize_inline value)

  unfoldable pub title_is_generic_for_app : AppIdentity → Text → Bool
  title_is_generic_for_app app title =
      let title_lower = pf.to_lowercase title in
      let app_lower = pf.to_lowercase app.name in
      if not (is_empty app_lower) && text_eq title_lower app_lower
      then true
      else one_of title_lower (
          codes "new tab"
          ∷ codes "untitled"
          ∷ codes "home"
          ∷ codes "settings"
          ∷ codes "preferences"
          ∷ codes "dashboard"
          ∷ codes "start page"
          ∷ [])

  unfoldable pub looks_like_email_header : Text → Bool
  looks_like_email_header line =
      any (λ header. starts_with (pf.to_lowercase line) header)
        (codes "from:" ∷ codes "to:" ∷ codes "subject:" ∷ codes "cc:" ∷ codes "bcc:" ∷ [])

  unfoldable pub looks_like_url_line : Text → Bool
  looks_like_url_line line =
      let lower = pf.to_lowercase (trim line) in
      starts_with lower (codes "http://")
      || (starts_with lower (codes "https://") || contains lower (codes "www."))

  unfoldable pub is_generic_browser_label : Text → Bool
  is_generic_browser_label line =
      let lower = pf.to_lowercase line in
      any (λ label. text_eq lower label || starts_with lower (label ++ codes " "))
        generic_browser_labels

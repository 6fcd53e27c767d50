-- ===== src/TextSignal/Noise.antt =====
-- crates/fndr-textsignal/src/cleanup.rs: which lines are dropped, and how noisy a text is.
use fndr.Prelude.{
  ℕ, ◌+◌, Bool, true, false, not, ◌&&◌, ◌||◌, List, [], ◌∷◌, if◌then◌else◌, ltb, ◌==◌, length, keep,
  min,
}
use fndr.Text.{Text, is_empty, trim, lines, str_len, is_whitespace}
use fndr.Platform.{Platform, Float32}
use fndr.TextSignal.App.{AppIdentity, is_browser, is_code, is_mail}
use fndr.TextSignal.Lines.{
  min_line_len, looks_like_tab_strip_line, looks_like_pipe_tab_row, is_separator_line,
  normalize_inline, looks_like_file_inventory, is_compact_chrome_caption, looks_like_json_inventory,
  looks_like_notification_fragment, looks_like_feed_fragment, looks_like_animation_fragment,
  title_is_generic_for_app, looks_like_email_header, looks_like_url_line, is_generic_browser_label,
}

module _ {Url F : Type 0} (pf : Platform Url) (fl : Float32 F) where
  unfoldable pub symbol_ratio : Text → F
  symbol_ratio line =
      if is_empty line
      then fl.hundredths 100
      else fl.div
          (fl.of_usize
            (length (keep (λ c. not (pf.is_alphanumeric c) && not (is_whitespace c)) line)))
          (fl.of_usize (length line))

  unfoldable pub should_drop_line : AppIdentity → Text → Bool
  should_drop_line app line =
      let browser_app = is_browser app in
      let code_app = is_code app in
      let mail_app = is_mail app in
      let ratio = symbol_ratio line in
      if is_separator_line line
      then true
      else if looks_like_tab_strip_line line
          || (looks_like_pipe_tab_row line || is_compact_chrome_caption pf line)
      then true
      else if browser_app && is_generic_browser_label pf line
      then true
      else if mail_app && is_generic_browser_label pf line
      then true
      else if looks_like_url_line pf line
      then false
      else if browser_app
          && (looks_like_notification_fragment pf line || looks_like_feed_fragment pf line)
      then true
      else if looks_like_animation_fragment pf line
      then true
      else if not code_app && (looks_like_file_inventory line || looks_like_json_inventory pf line)
      then true
      else if mail_app && looks_like_email_header pf line
      then false
      else if browser_app && fl.gt ratio (fl.hundredths 38)
      then true
      else not code_app && fl.gt ratio (fl.hundredths 58)

  unfoldable pub is_useful_snippet_line : AppIdentity → Text → Bool
  is_useful_snippet_line app line =
      let normalized = normalize_inline line in
      if ltb (str_len normalized) min_line_len
      then false
      else if ltb 240 (str_len normalized)
      then false
      else if should_drop_line app normalized
      then false
      else if title_is_generic_for_app pf app normalized
      then false
      else true

  unfoldable pub line_quality_score : AppIdentity → Text → Bool → F
  line_quality_score app line has_low_conf =
      let zero_f = fl.hundredths 0 in
      let one_f = fl.hundredths 100 in
      let symbol = fl.clamp (symbol_ratio line) zero_f one_f in
      let char_count = length line in
      let alpha =
        if char_count == 0
        then zero_f
        else fl.div (fl.of_usize (length (keep pf.is_alphanumeric line)))
            (fl.of_usize char_count) in
      let len_score =
        fl.clamp (fl.div (fl.of_usize (min char_count 180)) (fl.hundredths 18000)) zero_f one_f in
      let base =
        fl.add
          (fl.add (fl.mul alpha (fl.hundredths 52))
            (fl.mul (fl.sub one_f symbol) (fl.hundredths 28)))
          (fl.mul len_score (fl.hundredths 20)) in
      let doubted = if has_low_conf then fl.mul base (fl.hundredths 78) else base in
      let noisy =
        if should_drop_line app line then fl.mul doubted (fl.hundredths 16) else doubted in
      let score =
        if not (is_code app) && looks_like_file_inventory line
        then fl.mul noisy (fl.hundredths 25)
        else noisy in
      fl.clamp score zero_f one_f

  -- The loop of `estimate_noise_score`, with the lines counted and their weight.
  unfoldable pub noise_loop : AppIdentity → List Text → ℕ → F → ℕ × F
  noise_loop app [] total noisy_weight = (total, noisy_weight)
  noise_loop app (raw ∷ rest) total noisy_weight =
      let line = normalize_inline (trim raw) in
      let symbol = symbol_ratio line in
      let next = λ (weight : F). noise_loop app rest (total + 1) weight in
      let skipped = noise_loop app rest total noisy_weight in
      if is_empty line
      then skipped
      else if should_drop_line app line || ltb (str_len line) min_line_len
      then next (fl.add noisy_weight (fl.hundredths 100))
      else if fl.gt symbol (fl.hundredths 50)
      then next (
          fl.add noisy_weight (
            fl.clamp (fl.mul (fl.sub symbol (fl.hundredths 50)) (fl.hundredths 180))
              (fl.hundredths 0) (fl.hundredths 100)))
      else next noisy_weight

  unfoldable pub estimate_noise_score : AppIdentity → Text → F
  estimate_noise_score app text =
      let (total, noisy_weight) = noise_loop app (lines text) 0 (fl.hundredths 0) in
      if total == 0
      then fl.hundredths 100
      else fl.clamp (fl.div noisy_weight (fl.of_usize total)) (fl.hundredths 0) (fl.hundredths 100)

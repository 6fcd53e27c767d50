-- ===== src/Ocr/Noise.antt =====
-- crates/fndr-ocr/src/vision.rs: the noise filter, and the lines that `normalize_text` keeps.
use fndr.Prelude.{
  ℕ, ◌+◌, Bool, true, false, not, ◌&&◌, ◌||◌, List, [], ◌∷◌, ◌++◌, if◌then◌else◌, ltb, leb, ◌==◌,
  length, any, all, keep,
}
use fndr.Text.{
  Text, codes, newline, is_empty, text_eq, one_of, starts_with, ends_with, contains, trim, lines,
  split_whitespace, str_len,
}
use fndr.Platform.{Platform, Float32}
use fndr.Ocr.{OcrConfig}

abbrev pub base_patterns : List Text
base_patterns =
    codes "File Edit View Window Help"
    ∷ codes "Apple Inc."
    ∷ codes "System Settings"
    ∷ codes "System Preferences"
    ∷ codes "Finder"
    ∷ codes "com.apple."
    ∷ codes "com.google."
    ∷ codes "com.microsoft."
    ∷ codes "AM"
    ∷ codes "PM"
    ∷ codes "Version"
    ∷ codes "Build"
    ∷ codes "Copyright ©"
    ∷ codes "All Rights Reserved"
    ∷ codes "Sign in"
    ∷ codes "Sign up"
    ∷ codes "Log in"
    ∷ codes "Log out"
    ∷ codes "Forgot password"
    ∷ codes "Loading..."
    ∷ codes "Please wait"
    ∷ codes "OK"
    ∷ codes "Cancel"
    ∷ []

abbrev pub ui_words : List Text
ui_words =
    codes "close"
    ∷ codes "minimize"
    ∷ codes "maximize"
    ∷ codes "menu"
    ∷ codes "settings"
    ∷ codes "preferences"
    ∷ codes "about"
    ∷ codes "help"
    ∷ codes "quit"
    ∷ codes "exit"
    ∷ codes "new"
    ∷ codes "open"
    ∷ codes "save"
    ∷ codes "print"
    ∷ codes "copy"
    ∷ codes "paste"
    ∷ codes "cut"
    ∷ codes "undo"
    ∷ codes "redo"
    ∷ codes "search"
    ∷ codes "find"
    ∷ []

abbrev pub date_prefixes : List Text
date_prefixes =
    codes "Mon"
    ∷ codes "Tue"
    ∷ codes "Wed"
    ∷ codes "Thu"
    ∷ codes "Fri"
    ∷ codes "Sat"
    ∷ codes "Sun"
    ∷ []

abbrev pub month_names : List Text
month_names =
    codes "Jan"
    ∷ codes "Feb"
    ∷ codes "Mar"
    ∷ codes "Apr"
    ∷ codes "May"
    ∷ codes "Jun"
    ∷ codes "Jul"
    ∷ codes "Aug"
    ∷ codes "Sep"
    ∷ codes "Oct"
    ∷ codes "Nov"
    ∷ codes "Dec"
    ∷ []

-- The regular expressions of the filter, and `char::is_numeric`.
pub record Patterns : Type 0 where
  pub time_regex : Text → Bool
  pub size_regex : Text → Bool
  pub is_numeric : ℕ → Bool

pub record NoiseFilter : Type 0 where
  pub aggressive : Bool
  pub custom_patterns : List Text

module _ {Url F : Type 0} (pf : Platform Url) (fl : Float32 F) (re : Patterns) where
  -- The single word of a line, if it is one of the interface's.
  abbrev pub is_ui_word : List Text → Bool
  is_ui_word [] = false
  is_ui_word (w ∷ []) = one_of (pf.to_lowercase w) ui_words
  is_ui_word (w ∷ v ∷ ws) = false

  abbrev pub mostly_symbols : Text → Bool
  mostly_symbols text =
      ltb 0 (length text)
      && fl.lt
          (fl.div (fl.of_usize (length (keep pf.is_alphanumeric text))) (fl.of_usize (length text)))
          (fl.hundredths 50)

  unfoldable pub is_noise : NoiseFilter → Text → Bool
  is_noise filter text =
      if any (contains text) filter.custom_patterns
      then true
      else if any (contains text) base_patterns
      then true
      else if not filter.aggressive
      then false
      else if mostly_symbols text
      then true
      else if is_ui_word (split_whitespace text)
      then true
      else if re.time_regex text
      then true
      else if ends_with (trim text) (codes "%")
          && all (λ c. re.is_numeric c || (c == b'%' || c == b'.')) (trim text)
      then true
      else if re.size_regex (trim text)
      then true
      else if any (λ prefix. starts_with text prefix && ltb (str_len text) 20) date_prefixes
      then true
      else any (λ month. contains text month && ltb (str_len text) 15) month_names

  -- The variables of the loop in `normalize_text`.
  pub record NormalizeState : Type 0 where
    pub result : Text
    pub last_line : Text
    pub seen : List Text
    pub kept : ℕ

  -- One line that is long enough and no noise; `seen` only matters where duplicates are removed.
  unfoldable pub normalize_line : OcrConfig F → Text → NormalizeState → NormalizeState
  normalize_line config trimmed s =
      let lower = pf.to_lowercase trimmed in
      if config.remove_duplicates && text_eq trimmed s.last_line
      then s
      else if config.remove_duplicates && one_of lower s.seen
      then s
      else record {
        result = if is_empty s.result then trimmed else s.result ++ (newline ∷ trimmed);
        last_line = trimmed;
        seen = if config.remove_duplicates then lower ∷ s.seen else s.seen;
        kept = s.kept + 1;
      }

  unfoldable pub normalize_lines :
      OcrConfig F → NoiseFilter → List Text → NormalizeState → NormalizeState
  unfolding normalize_line is_noise
  normalize_lines config filter [] s = s
  normalize_lines config filter (line ∷ rest) s =
      let trimmed = trim line in
      let next = normalize_line config trimmed s in
      let dropped = ltb (str_len trimmed) config.min_line_length || is_noise filter trimmed in
      let after = normalize_lines config filter rest (if dropped then s else next) in
      if not dropped && (leb 220 next.kept && ltb s.kept next.kept) then next else after

  unfoldable pub normalize_text : OcrConfig F → NoiseFilter → Text → Text
  unfolding normalize_lines
  normalize_text config filter text =
      if config.preserve_formatting
      then text
      else (normalize_lines config filter (lines text)
          (record { result = []; last_line = []; seen = []; kept = 0 })).result

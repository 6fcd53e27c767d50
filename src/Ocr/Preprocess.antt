-- ===== src/Ocr/Preprocess.antt =====
-- crates/fndr-ocr/src/vision.rs: lines with their confidence, marked and counted.
use fndr.Prelude.{
  ℕ, ◌+◌, ◌≤◌, ◌≡◌, refl, Bool, false, List, [], ◌∷◌, ◌++◌, Option, none, some, if◌then◌else◌, ◌==◌,
  length, arith, length-append,
}
use fndr.Text.{Text, codes, newline, is_empty, text_eq, join, split_whitespace}
use fndr.Platform.{Platform, Float32}
use fndr.Ocr.{OcrAggregateStats}

-- The variables of the loop in `preprocess_ocr_for_qwen`.
pub record PreprocessState (F : Type 0) : Type 0 where
  pub output : List Text
  pub lines_dropped : ℕ
  pub low_conf_count : ℕ
  pub kept_conf_sum : F
  pub kept_count : ℕ
  pub prev_key : Option Text

abbrev pub same_key : Option Text → Text → Bool
same_key none key = false
same_key (some prev) key = text_eq prev key

module _ {Url F : Type 0} (pf : Platform Url) (fl : Float32 F) where
  unfoldable pub preprocess_line : Text → F → PreprocessState F → PreprocessState F
  preprocess_line text conf s =
      let normalized = join (codes " ") (split_whitespace text) in
      let key = pf.to_lowercase normalized in
      let is_low = fl.lt conf (fl.hundredths 65) in
      if fl.lt conf (fl.hundredths 40)
      then record s { lines_dropped = s.lines_dropped + 1 }
      else if is_empty normalized
      then record s { lines_dropped = s.lines_dropped + 1 }
      else if same_key s.prev_key key
      then s
      else record {
        output =
            s.output ++ ((if is_low then codes "[LOW_CONF] " ++ normalized else normalized) ∷ []);
        lines_dropped = s.lines_dropped;
        low_conf_count = if is_low then s.low_conf_count + 1 else s.low_conf_count;
        kept_conf_sum = fl.add s.kept_conf_sum conf;
        kept_count = s.kept_count + 1;
        prev_key = some key;
      }

  unfoldable pub preprocess_lines : List (Text × F) → PreprocessState F → PreprocessState F
  preprocess_lines [] s = s
  preprocess_lines ((text, conf) ∷ rest) s = preprocess_lines rest (preprocess_line text conf s)

  abbrev pub sum_confidence : List (Text × F) → F → F
  sum_confidence [] total = total
  sum_confidence ((text, conf) ∷ rest) total = sum_confidence rest (fl.add total conf)

  abbrev pub preprocess_start : PreprocessState F
  preprocess_start = record {
    output = [];
    lines_dropped = 0;
    low_conf_count = 0;
    kept_conf_sum = fl.hundredths 0;
    kept_count = 0;
    prev_key = none;
  }

  abbrev pub average : F → ℕ → F
  average sum n = if n == 0 then fl.hundredths 0 else fl.div sum (fl.of_usize n)

  unfoldable pub preprocess_ocr_for_qwen : List (Text × F) → Text × OcrAggregateStats F
  preprocess_ocr_for_qwen rows =
      let s = preprocess_lines rows preprocess_start in
      (
        join (newline ∷ []) s.output,
        record {
          avg_confidence_all = average (sum_confidence rows (fl.hundredths 0)) (length rows);
          avg_confidence_kept = average s.kept_conf_sum s.kept_count;
          lines_used = length s.output;
          lines_dropped = s.lines_dropped;
          low_conf_count = s.low_conf_count;
        },
      )

  -- The counters of the loop against the number of rows it has read.
  abbrev Counts : ℕ → PreprocessState F → Type 0
  Counts n s =
      (length s.output + s.lines_dropped ≤ n)
      × (s.low_conf_count ≤ length s.output)
      × (s.kept_count ≡ length s.output)

  preprocess_line-Counts :
      (n : ℕ) (text : Text) (conf : F) (s : PreprocessState F)
      → Counts n s
      → Counts (n + 1) (preprocess_line text conf s)
  unfolding preprocess_line
  preprocess_line-Counts n text conf s h =
      let normalized = join (codes " ") (split_whitespace text) in
      let is_low = fl.lt conf (fl.hundredths 65) in
      let line = if is_low then codes "[LOW_CONF] " ++ normalized else normalized in
      ground (arith, h, length-append s.output (line ∷ []))

  preprocess_lines-Counts :
      (rows : List (Text × F)) (n : ℕ) (s : PreprocessState F)
      → Counts n s
      → Counts (n + length rows) (preprocess_lines rows s)
  unfolding preprocess_lines
  preprocess_lines-Counts [] n s h = (omega (arith, h.0), h.1, h.2)
  preprocess_lines-Counts ((text, conf) ∷ rows) n s h =
      let (a, b, c) =
        preprocess_lines-Counts rows (n + 1) (preprocess_line text conf s)
          (preprocess_line-Counts n text conf s h) in
      (omega (arith, a), b, c)

  -- The statistics of preprocessed rows: the lines used and those dropped are among the rows, and
  -- the marked ones among those used.
  pub preprocess_ocr_for_qwen_stats :
      (rows : List (Text × F))
      → ((preprocess_ocr_for_qwen rows).1.lines_used
            + (preprocess_ocr_for_qwen rows).1.lines_dropped
          ≤ length rows)
        × ((preprocess_ocr_for_qwen rows).1.low_conf_count
            ≤ (preprocess_ocr_for_qwen rows).1.lines_used)
  unfolding preprocess_ocr_for_qwen
  preprocess_ocr_for_qwen_stats rows =
      let (a, b, c) =
        preprocess_lines-Counts rows 0 preprocess_start (omega arith, omega arith, refl) in
      (omega (arith, a), b)

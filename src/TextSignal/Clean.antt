-- ===== src/TextSignal/Clean.antt =====
-- crates/fndr-textsignal/src/cleanup.rs: a capture's text without its noisy lines.
use fndr.Prelude.{ℕ, ◌+◌, Bool, ◌||◌, List, [], ◌∷◌, ◌++◌, map, if◌then◌else◌, ltb, ◌==◌, length}
use fndr.Text.{Text, newline, is_empty, one_of, trim, lines, join, str_len}
use fndr.Platform.{Platform, Float32}
use fndr.TextSignal.App.{AppIdentity, from_name}
use fndr.TextSignal.Lines.{min_line_len, normalize_inline, low_conf_payload, snippet_dedup_key}
use fndr.TextSignal.Noise.{should_drop_line, line_quality_score}

-- `if !out.is_empty() { out.push('\n') }`, then `out.push_str(line)`.
abbrev pub push_line : Text → Text → Text
push_line out line = if is_empty out then line else out ++ (newline ∷ line)

pub record CaptureQualityStats (F : Type 0) : Type 0 where
  pub total_lines : ℕ
  pub kept_lines : ℕ
  pub low_conf_lines : ℕ
  pub dropped_noise_lines : ℕ
  pub dropped_low_signal_lines : ℕ
  pub avg_line_score : F

pub record HighSignalText (F : Type 0) : Type 0 where
  pub text : Text
  pub stats : CaptureQualityStats F

-- The variables of the loop in `build_high_signal_text_for_app`.
pub record BuildState (F : Type 0) : Type 0 where
  pub out : Text
  pub seen : List Text
  pub stats : CaptureQualityStats F
  pub score_sum : F
  pub scored_lines : ℕ

module _ {Url F : Type 0} (pf : Platform Url) (fl : Float32 F) where
  -- One turn of the loop of `reduce_chrome_noise_for_app`, on `out` and `seen`.
  unfoldable pub reduce_line : AppIdentity → Text → Text → List Text → Text × List Text
  reduce_line app line out seen =
      let trimmed = normalize_inline (trim line) in
      let dedup_key = snippet_dedup_key pf trimmed in
      if ltb (str_len trimmed) min_line_len
      then (out, seen)
      else if should_drop_line pf fl app trimmed
      then (out, seen)
      else if one_of dedup_key seen
      then (out, seen)
      else (push_line out trimmed, dedup_key ∷ seen)

  unfoldable pub reduce_lines : AppIdentity → List Text → Text → List Text → Text
  reduce_lines app [] out seen = out
  reduce_lines app (line ∷ rest) out seen =
      let (out1, seen1) = reduce_line app line out seen in reduce_lines app rest out1 seen1

  unfoldable pub reduce_chrome_noise_for_app : AppIdentity → Text → Text
  reduce_chrome_noise_for_app app text = reduce_lines app (lines text) [] []

  -- The wrapper for callers that know no application.
  unfoldable pub reduce_chrome_noise : Text → Text
  reduce_chrome_noise text = reduce_chrome_noise_for_app (from_name pf []) text

  abbrev pub default_stats : CaptureQualityStats F
  default_stats = record {
    total_lines = 0;
    kept_lines = 0;
    low_conf_lines = 0;
    dropped_noise_lines = 0;
    dropped_low_signal_lines = 0;
    avg_line_score = fl.hundredths 0;
  }

  abbrev pub bump_if : Bool → ℕ → ℕ
  bump_if b n = if b then n + 1 else n

  unfoldable pub build_line : AppIdentity → Text → BuildState F → BuildState F
  build_line app line s =
      let (payload, has_low_conf) = low_conf_payload line in
      let normalized = normalize_inline payload in
      let quality = line_quality_score pf fl app normalized has_low_conf in
      let dedup_key = snippet_dedup_key pf normalized in
      let stats = s.stats in
      let counted : CaptureQualityStats F = record stats {
        total_lines = stats.total_lines + 1;
        low_conf_lines = bump_if has_low_conf stats.low_conf_lines;
      } in
      let scored : BuildState F = record s {
        stats = counted;
        score_sum = fl.add s.score_sum quality;
        scored_lines = s.scored_lines + 1;
      } in
      if is_empty normalized
      then s
      else if should_drop_line pf fl app normalized
      then record scored {
        stats = record counted { dropped_noise_lines = counted.dropped_noise_lines + 1 };
      }
      else if fl.lt quality (fl.hundredths 36) || ltb (length normalized) min_line_len
      then record scored {
        stats = record counted { dropped_low_signal_lines = counted.dropped_low_signal_lines + 1 };
      }
      else if one_of dedup_key s.seen
      then scored
      else record scored {
        out = push_line s.out normalized;
        seen = dedup_key ∷ s.seen;
        stats = record counted { kept_lines = counted.kept_lines + 1 };
      }

  unfoldable pub build_lines : AppIdentity → List Text → BuildState F → BuildState F
  build_lines app [] s = s
  build_lines app (line ∷ rest) s = build_lines app rest (build_line app line s)

  abbrev pub build_start : BuildState F
  build_start = record {
    out = [];
    seen = [];
    stats = default_stats;
    score_sum = fl.hundredths 0;
    scored_lines = 0;
  }

  unfoldable pub build_high_signal_text_for_app : AppIdentity → Text → HighSignalText F
  build_high_signal_text_for_app app text =
      let s = build_lines app (lines text) build_start in
      let score =
        if s.scored_lines == 0
        then fl.hundredths 0
        else fl.clamp (fl.div s.score_sum (fl.of_usize s.scored_lines)) (fl.hundredths 0)
            (fl.hundredths 100) in
      let marker_free =
        join (newline ∷ []) (map (λ line. (low_conf_payload line).0) (lines text)) in
      let out =
        if is_empty (trim s.out) then reduce_chrome_noise_for_app app marker_free else s.out in
      record { text = out; stats = record s.stats { avg_line_score = score } }

-- ===== src/TextSignal/Counts.antt =====
-- crates/fndr-textsignal/src/cleanup.rs: what the counters of `build_high_signal_text_for_app` count,
-- line by line.
use fndr.Prelude.{ℕ, ◌+◌, ◌≡◌, Bool, not, ◌&&◌, ◌||◌, List, [], ◌∷◌, arith, ltb, length, keep}
use fndr.Text.{Text, is_empty}
use fndr.Platform.{Platform, Float32}
use fndr.TextSignal.App.{AppIdentity}
use fndr.TextSignal.Lines.{min_line_len, normalize_inline, low_conf_payload}
use fndr.TextSignal.Noise.{should_drop_line, line_quality_score}
use fndr.TextSignal.Clean.{BuildState, CaptureQualityStats, build_line, build_lines}

module _ {Url F : Type 0} (pf : Platform Url) (fl : Float32 F) (app : AppIdentity) where
  abbrev pub normal : Text → Text
  normal line = normalize_inline (low_conf_payload line).0

  -- A line with text, one that is marked, one that is noise, and one that is too weak.
  abbrev pub filled : Text → Bool
  filled line = not (is_empty (normal line))

  abbrev pub marked : Text → Bool
  marked line = filled line && (low_conf_payload line).1

  abbrev pub noisy : Text → Bool
  noisy line = filled line && should_drop_line pf fl app (normal line)

  abbrev pub weak : Text → Bool
  weak line =
      filled line
      && (not (should_drop_line pf fl app (normal line))
          && (fl.lt (line_quality_score pf fl app (normal line) (low_conf_payload line).1)
                (fl.hundredths 36)
              || ltb (length (normal line)) min_line_len))

  abbrev pub how_many : (Text → Bool) → List Text → ℕ
  how_many p ls = length (keep p ls)

  -- Between two states of the loop, the counters go up by the lines of each kind.
  abbrev pub Rise : List Text → CaptureQualityStats F → CaptureQualityStats F → Type 0
  Rise ls before after =
      (after.total_lines ≡ before.total_lines + how_many filled ls)
      × (after.low_conf_lines ≡ before.low_conf_lines + how_many marked ls)
      × (after.dropped_noise_lines ≡ before.dropped_noise_lines + how_many noisy ls)
      × (after.dropped_low_signal_lines ≡ before.dropped_low_signal_lines + how_many weak ls)

  build_line-Rise :
      (l : Text) (s : BuildState F) → Rise (l ∷ []) s.stats (build_line pf fl app l s).stats
  unfolding build_line
  build_line-Rise l s = ground arith

  how_many-∷ :
      (p : Text → Bool) (l : Text) (ls : List Text)
      → how_many p (l ∷ ls) ≡ how_many p (l ∷ []) + how_many p ls
  how_many-∷ p l ls = ground arith

  pub build_lines-Rise :
      (ls : List Text) (s : BuildState F) → Rise ls s.stats (build_lines pf fl app ls s).stats
  unfolding build_lines
  build_lines-Rise [] s = (omega arith, omega arith, omega arith, omega arith)
  build_lines-Rise (l ∷ ls) s =
      let (a, b, c, d) = build_line-Rise l s in
      let (x, y, z, w) = build_lines-Rise ls (build_line pf fl app l s) in
      (
        omega (arith, a, x, how_many-∷ filled l ls),
        omega (arith, b, y, how_many-∷ marked l ls),
        omega (arith, c, z, how_many-∷ noisy l ls),
        omega (arith, d, w, how_many-∷ weak l ls),
      )

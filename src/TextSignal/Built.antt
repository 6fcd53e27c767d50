-- ===== src/TextSignal/Built.antt =====
-- crates/fndr-textsignal/src/cleanup.rs: the text and the statistics of
-- `build_high_signal_text_for_app`.
use fndr.Prelude.{
  ℕ, ◌+◌, ◌≤◌, ◌≡◌, ◌⊎◌, subst, refl, sym, ◌∙◌, ap, true, false, ◌||◌, List, [], ◌∷◌, Option, none,
  some, arith, if◌then◌else◌, ltb, length, All, if-cases, All-weaken, inl, inr,
}
use fndr.Text.{
  Text, codes, newline, is_empty, is_not_empty, trim, lines, join, is_whitespace,
  trim_start_matches, trim_end_matches, split_whitespace,
}
use fndr.Text.Words.{IsLine, IsWord, lines-join, split_whitespace-IsWord}
use fndr.Platform.{Platform, Float32}
use fndr.TextSignal.App.{AppIdentity}
use fndr.TextSignal.Lines.{min_line_len, normalize_inline, low_conf_payload, snippet_dedup_key}
use fndr.TextSignal.Noise.{should_drop_line, line_quality_score}
use fndr.TextSignal.Counts.{Rise, build_lines-Rise}
use fndr.TextSignal.Clean.{
  BuildState, CaptureQualityStats, HighSignalText, default_stats, build_line, build_lines,
  build_start, build_high_signal_text_for_app,
}
use fndr.TextSignal.Kept.{
  push_lines, push_lines-join, kept, kept-FreshKeys, kept-All, FreshKeys, normalize_inline-IsLine,
}
use fndr.TextSignal.Reduced.{IsKeptLine, reduce_chrome_noise_for_app_sound}

-- A text that begins with a character that is not blank.
abbrev StartsFilled : Text → Type 0
StartsFilled [] = ⊥
StartsFilled (c ∷ s) = is_whitespace c ≡ false

trim-StartsFilled : (s : Text) → StartsFilled s → is_empty (trim s) ≡ false
unfolding trim trim_start_matches trim_end_matches is_empty
trim-StartsFilled [] h = absurd h
trim-StartsFilled (c ∷ s) h = rw (h, h) refl

words-StartsFilled :
    (ws : List Text)
    → All IsWord ws
    → is_not_empty (join (codes " ") ws) ≡ true
    → StartsFilled (join (codes " ") ws)
unfolding join
words-StartsFilled [] h k = absurd (cc)
words-StartsFilled ([] ∷ ws) h k = absurd (cc (h.0.0))
words-StartsFilled ((c ∷ w) ∷ []) h k = h.0.1.0
words-StartsFilled ((c ∷ w) ∷ v ∷ ws) h k = h.0.1.0

normalize_inline-StartsFilled :
    (s : Text) → is_not_empty (normalize_inline s) ≡ true → StartsFilled (normalize_inline s)
unfolding normalize_inline
normalize_inline-StartsFilled s h =
    words-StartsFilled (split_whitespace s) (split_whitespace-IsWord s) h

filled_of_not_empty : (s : Text) → is_empty s ≡ false → is_not_empty s ≡ true
unfolding is_empty
filled_of_not_empty [] h = absurd (cc)
filled_of_not_empty (c ∷ s) h = refl

join-StartsFilled :
    (w : Text) (ws : List Text) → StartsFilled w → StartsFilled (join (newline ∷ []) (w ∷ ws))
unfolding join
join-StartsFilled [] ws h = absurd h
join-StartsFilled (c ∷ w) [] h = h
join-StartsFilled (c ∷ w) (v ∷ ws) h = h

module _ {Url F : Type 0} (pf : Platform Url) (fl : Float32 F) where
  -- A line as it is kept, if no line before has its key.
  abbrev pub built : AppIdentity → Text → Option Text
  built app line =
      let (payload, has_low_conf) = low_conf_payload line in
      let normalized = normalize_inline payload in
      if is_empty normalized
      then none
      else if should_drop_line pf fl app normalized
      then none
      else if fl.lt (line_quality_score pf fl app normalized has_low_conf) (fl.hundredths 36)
          || ltb (length normalized) min_line_len
      then none
      else some normalized

  abbrev pub built_lines : AppIdentity → List Text → List Text → List Text
  built_lines app = kept (built app) (snippet_dedup_key pf)

  built_sound :
      (app : AppIdentity) (l w : Text)
      → built app l ≡ some w
      → (normalize_inline (low_conf_payload l).0 ≡ w)
        × (is_empty w ≡ false)
        × (should_drop_line pf fl app w ≡ false)
  built_sound app l w h = ground arith

  -- One turn of the loop keeps the line or not.
  build_line_lem :
      (app : AppIdentity) (l : Text) (ls : List Text) (s : BuildState F)
      → (push_lines
            (build_line pf fl app l s).out
            (built_lines app ls (build_line pf fl app l s).seen)
          ≡ push_lines s.out (built_lines app (l ∷ ls) s.seen))
        × ((build_line pf fl app l s).stats.kept_lines
              + length (built_lines app ls (build_line pf fl app l s).seen)
            ≡ s.stats.kept_lines + length (built_lines app (l ∷ ls) s.seen))
  unfolding build_line
  build_line_lem app l ls s = ground arith

  build_lines_lem :
      (app : AppIdentity) (ls : List Text) (s : BuildState F)
      → ((build_lines pf fl app ls s).out ≡ push_lines s.out (built_lines app ls s.seen))
        × ((build_lines pf fl app ls s).stats.kept_lines
            ≡ s.stats.kept_lines + length (built_lines app ls s.seen))
  unfolding build_lines
  build_lines_lem app [] s = (refl, omega arith)
  build_lines_lem app (l ∷ ls) s =
      let (e, n) = build_lines_lem app ls (build_line pf fl app l s) in
      let (f, k) = build_line_lem app l ls s in (e ∙ f, n ∙ k)

  -- The counters, which only grow.
  abbrev Balanced : CaptureQualityStats F → Type 0
  Balanced st =
      (st.kept_lines + st.dropped_noise_lines + st.dropped_low_signal_lines ≤ st.total_lines)
      × (st.low_conf_lines ≤ st.total_lines)

  build_line-Balanced :
      (app : AppIdentity) (l : Text) (s : BuildState F)
      → Balanced s.stats
      → Balanced (build_line pf fl app l s).stats
        × ((build_line pf fl app l s).stats.total_lines ≤ s.stats.total_lines + 1)
  unfolding build_line
  build_line-Balanced app l s h = ground arith

  build_lines-Balanced :
      (app : AppIdentity) (ls : List Text) (s : BuildState F)
      → Balanced s.stats
      → Balanced (build_lines pf fl app ls s).stats
        × ((build_lines pf fl app ls s).stats.total_lines ≤ s.stats.total_lines + length ls)
  unfolding build_lines
  build_lines-Balanced app [] s h = (h, omega arith)
  build_lines-Balanced app (l ∷ ls) s h =
      let (a, n) = build_line-Balanced app l s h in
      let (b, k) = build_lines-Balanced app ls (build_line pf fl app l s) a in (b, omega arith)

  built-IsLine : (app : AppIdentity) (l w : Text) → built app l ≡ some w → IsLine w × StartsFilled w
  built-IsLine app l w h =
      let (e, n, d) = built_sound app l w h in
      let filled = subst (λ t. is_not_empty t ≡ true) (sym e) (filled_of_not_empty w n) in
      subst (λ t. IsLine t × StartsFilled t) e
        (
          normalize_inline-IsLine (low_conf_payload l).0 filled,
          normalize_inline-StartsFilled (low_conf_payload l).0 filled,
        )

  -- The text of the loop, and its lines.
  built_out :
      (app : AppIdentity) (ls : List Text)
      → ((build_lines pf fl app ls (build_start pf fl)).out
          ≡ join (newline ∷ []) (built_lines app ls []))
        × (lines (build_lines pf fl app ls (build_start pf fl)).out ≡ built_lines app ls [])
  built_out app ls =
      let all_lines =
        kept-All (built app) (snippet_dedup_key pf) IsLine (λ l w h. (built-IsLine app l w h).0) ls
          [] in
      let e = (build_lines_lem app ls (build_start pf fl)).0 ∙ push_lines-join _ all_lines in
      (e, ap lines e ∙ lines-join _ all_lines)

  blank_of_none :
      (ws : List Text)
      → All StartsFilled ws
      → is_empty (trim (join (newline ∷ []) ws)) ≡ true
      → length ws ≡ 0
  blank_of_none [] h k = refl
  blank_of_none (w ∷ ws) h k = absurd (cc (k, trim-StartsFilled _ (join-StartsFilled w ws h.0)))

  -- Each line of the text that is built is no noise for the application, and no two of them have
  -- the same key, also where the text falls back on `reduce_chrome_noise_for_app`.
  pub build_high_signal_text_for_app_sound :
      (app : AppIdentity) (text : Text)
      → All
          (λ w. should_drop_line pf fl app w ≡ false)
          (lines (build_high_signal_text_for_app pf fl app text).text)
        × FreshKeys
            (snippet_dedup_key pf)
            []
            (lines (build_high_signal_text_for_app pf fl app text).text)
  unfolding build_high_signal_text_for_app
  build_high_signal_text_for_app_sound app text =
      if-cases P (is_empty (trim (build_lines pf fl app (lines text) (build_start pf fl)).out))
        (λ e.
          let (a, b) = reduce_chrome_noise_for_app_sound pf fl app _ in
          (All-weaken {P = IsKeptLine pf fl app} (λ w h. h.1) _ a, b))
        (λ e. rw (built_out app (lines text)).1 (
          kept-All (built app) (snippet_dedup_key pf) _ (λ l w h. (built_sound app l w h).2)
              (lines text) [],
          kept-FreshKeys (built app) (snippet_dedup_key pf) (lines text) [],
        ))
    where
      P : Text → Type 0
      P t =
          All (λ w. should_drop_line pf fl app w ≡ false) (lines t)
          × FreshKeys (snippet_dedup_key pf) [] (lines t)

  -- The counters of a text. Each is the number of the text's lines of its kind, `kept_lines` that of
  -- the acceptable lines without those that repeat the key of one before; lines are kept or dropped
  -- only among those counted. If a line is kept, the text built has as many lines.
  abbrev pub StatsAccount : AppIdentity → Text → HighSignalText F → Type 0
  StatsAccount app text r =
      Rise pf fl app (lines text) (default_stats pf fl) r.stats
      × (r.stats.kept_lines ≡ length (built_lines app (lines text) []))
      × (r.stats.kept_lines + r.stats.dropped_noise_lines + r.stats.dropped_low_signal_lines
          ≤ r.stats.total_lines)
      × (r.stats.low_conf_lines ≤ r.stats.total_lines)
      × (r.stats.total_lines ≤ length (lines text))
      × ((r.stats.kept_lines ≡ 0) ⊎ (length (lines r.text) ≡ r.stats.kept_lines))

  -- The statistics count the lines of the text by kind: those with text, the marked ones, noise and
  -- those too weak, and as kept the others, less those that repeat the key of one kept before. The
  -- kept and the dropped ones are together at most the lines counted, so are the marked ones, no more
  -- are counted than the text has, and unless no line is kept the built text has exactly the kept ones.
  pub build_high_signal_text_for_app_stats :
      (app : AppIdentity) (text : Text)
      → StatsAccount app text (build_high_signal_text_for_app pf fl app text)
  unfolding build_high_signal_text_for_app
  build_high_signal_text_for_app_stats app text =
      let (a, n) =
        build_lines-Balanced app (lines text) (build_start pf fl) (omega arith, omega arith) in
      let k : kept_count ≡ length (built_lines app (lines text) []) =
        omega (arith, (build_lines_lem app (lines text) (build_start pf fl)).1) in
      let (e, f) = built_out app (lines text) in
      (
        build_lines-Rise pf fl app (lines text) (build_start pf fl),
        k,
        a.0,
        a.1,
        omega (arith, n),
        if-cases (λ t. (kept_count ≡ 0) ⊎ (length (lines t) ≡ kept_count))
            (is_empty (trim (build_lines pf fl app (lines text) (build_start pf fl)).out))
            (λ b. inl (
              k
              ∙ blank_of_none _
                  (kept-All (built app) (snippet_dedup_key pf) StartsFilled
                    (λ l w h. (built-IsLine app l w h).1) (lines text) [])
                  (ap (λ t. is_empty (trim t)) (sym e) ∙ b)))
            (λ b. inr (ap length f ∙ sym k)),
      )
    where
      kept_count : ℕ
      kept_count = (build_lines pf fl app (lines text) (build_start pf fl)).stats.kept_lines

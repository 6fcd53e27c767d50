-- ===== src/TextSignal/Salience.antt =====
-- crates/fndr-textsignal/src/cleanup.rs: the spans of a text that carry its meaning.
use fndr.Prelude.{
  ℕ, ◌+◌, ◌-◌, Bool, true, false, not, ◌&&◌, ◌||◌, List, [], ◌∷◌, ◌++◌, min, if◌then◌else◌, leb,
  ltb, ◌==◌, length, take, any, keep, order_by,
}
use fndr.Text.{
  Text, codes, newline, is_empty, trim, lines, contains, ends_with, split_str, split_whitespace,
  to_ascii_lowercase,
}
use fndr.Platform.{Platform, Float32}
use fndr.Memory.Score.{distinct}
use fndr.Memory.Story.{bullet}
use fndr.TextSignal.App.{AppIdentity}
use fndr.TextSignal.Lines.{normalize_inline}
use fndr.TextSignal.Noise.{line_quality_score}

pub record SalientSpan (F : Type 0) : Type 0 where
  pub text : Text
  pub score : F

abbrev pub max_ranked_spans : ℕ
max_ranked_spans = 64

-- `chars.peek()` is a blank, a newline or the end.
abbrev pub next_is_break : Text → Bool
next_is_break [] = true
next_is_break (c ∷ s) = c == b' ' || c == newline

-- The loop of `split_block_into_sentences`, on `buffer`; the sentences that it pushes, and the
-- buffer that it leaves.
unfoldable pub sentence_loop : Text → Text → List Text × Text
sentence_loop [] buffer = ([], buffer)
sentence_loop (c ∷ s) buffer =
    let full = buffer ++ (c ∷ []) in
    let candidate = trim full in
    let ends = ((c == b'.' || (c == b'!' || c == b'?')) && next_is_break s) || c == newline in
    let pushes = ends && leb 12 (length candidate) in
    let (sentences, rest) = sentence_loop s (if pushes then [] else full) in
    (if pushes then candidate ∷ sentences else sentences, rest)

unfoldable pub split_block_into_sentences : Text → List Text
split_block_into_sentences block =
    let trimmed = trim block in
    let (sentences, buffer) = sentence_loop trimmed [] in
    let tail = trim buffer in
    let out = if is_empty tail then sentences else sentences ++ (tail ∷ []) in
    if is_empty trimmed then [] else elim out [ [] ↦ trimmed ∷ [] | s ∷ ss ↦ s ∷ ss ]

abbrev pub verb_endings : List Text
verb_endings =
    codes "ed"
    ∷ codes "ing"
    ∷ codes "tion"
    ∷ codes "sion"
    ∷ codes "ment"
    ∷ codes "able"
    ∷ codes "ible"
    ∷ []

abbrev pub cue_words : List Text
cue_words =
    codes "because"
    ∷ codes "however"
    ∷ codes "therefore"
    ∷ codes "should"
    ∷ codes "must"
    ∷ codes "todo"
    ∷ codes "next"
    ∷ codes "plan"
    ∷ codes "need to"
    ∷ codes "consider"
    ∷ codes "implement"
    ∷ codes "review"
    ∷ codes "fix"
    ∷ codes "blocker"
    ∷ codes "decided"
    ∷ codes "open question"
    ∷ []

abbrev pub starts_uppercase : (ℕ → Bool) → Text → Bool
starts_uppercase is_uppercase [] = false
starts_uppercase is_uppercase (c ∷ s) = is_uppercase c

module _ {Url F : Type 0} (pf : Platform Url) (fl : Float32 F) (is_uppercase : ℕ → Bool) where
  -- `clamp(0.0, 1.0)`.
  abbrev unit_clamp : F → F
  unit_clamp x = fl.clamp x (fl.hundredths 0) (fl.hundredths 100)

  -- `n as f32 / d as f32`.
  abbrev ratio : ℕ → ℕ → F
  ratio n d = fl.div (fl.of_usize n) (fl.of_usize d)

  -- The sum and the number of the scores of the lines.
  unfoldable pub line_scores : AppIdentity → List Text → F → ℕ → F × ℕ
  line_scores app [] line_sum line_count = (line_sum, line_count)
  line_scores app (raw ∷ rest) line_sum line_count =
      let line = normalize_inline (trim raw) in
      let skips = is_empty line in
      line_scores app rest
        (if skips then line_sum else fl.add line_sum (line_quality_score pf fl app line false))
        (if skips then line_count else line_count + 1)

  unfoldable pub span_score : AppIdentity → Text → F
  span_score app span =
      let normalized = normalize_inline span in
      let (line_sum, line_count) = line_scores app (lines span) (fl.hundredths 0) 0 in
      let avg_line =
        if line_count == 0
        then line_quality_score pf fl app normalized false
        else fl.div line_sum (fl.of_usize line_count) in
      let tokens = split_whitespace normalized in
      let cap_count = length (keep (starts_uppercase is_uppercase) tokens) in
      let cap_ratio =
        unit_clamp (
          fl.div (fl.min (ratio cap_count (length tokens)) (fl.hundredths 45))
            (fl.hundredths 45)) in
      let verb_count =
        length (keep (λ token. any (ends_with (to_ascii_lowercase token)) verb_endings) tokens) in
      let verb_ratio = unit_clamp (
        fl.div (fl.min (ratio verb_count (length tokens)) (fl.hundredths 30)) (fl.hundredths 30)) in
      let cue_count = length (keep (contains (to_ascii_lowercase normalized)) cue_words) in
      let cue_bonus =
        fl.min (fl.mul (fl.of_usize cue_count) (fl.hundredths 5)) (fl.hundredths 18) in
      let length_ratio =
        unit_clamp (fl.div (fl.of_usize (min (length normalized) 280)) (fl.hundredths 28000)) in
      let distinct_ratio = unit_clamp (ratio (length (distinct tokens)) (length tokens)) in
      let score =
        fl.add
          (fl.add
            (fl.add
              (fl.add
                (fl.add (fl.mul avg_line (fl.hundredths 40)) (fl.mul cap_ratio (fl.hundredths 12)))
                (fl.mul verb_ratio (fl.hundredths 10)))
              (fl.mul length_ratio (fl.hundredths 16)))
            (fl.mul distinct_ratio (fl.hundredths 12)))
          cue_bonus in
      if ltb (length normalized) 10
      then fl.hundredths 0
      else elim tokens [ [] ↦ fl.hundredths 0 | t ∷ ts ↦ unit_clamp score ]

  -- The inner loop of `rank_salient_spans`, which pushes onto `spans`.
  unfoldable pub rank_sentences :
      AppIdentity → List Text → List (SalientSpan F) → List (SalientSpan F)
  rank_sentences app [] spans = spans
  rank_sentences app (sentence ∷ rest) spans =
      let trimmed = trim sentence in
      let score = span_score app trimmed in
      let skips = is_empty trimmed || fl.le score (fl.hundredths 0) in
      let pushed = spans ++ (record { text = trimmed; score = score } ∷ []) in
      let after = rank_sentences app rest (if skips then spans else pushed) in
      if leb max_ranked_spans (length spans) then spans else after

  -- The outer loop, over the blocks.
  unfoldable pub rank_blocks : AppIdentity → List Text → List (SalientSpan F) → List (SalientSpan F)
  rank_blocks app [] spans = spans
  rank_blocks app (block ∷ rest) spans =
      let spans1 = rank_sentences app (split_block_into_sentences block) spans in
      let after = rank_blocks app rest spans1 in
      if leb max_ranked_spans (length spans1) then spans1 else after

  -- `b.score.partial_cmp(&a.score)` is not `Greater`: `a` stays before `b`.
  abbrev pub ranks_before : SalientSpan F → SalientSpan F → Bool
  ranks_before a b = not (fl.gt b.score a.score)

  unfoldable pub rank_salient_spans : Text → AppIdentity → List (SalientSpan F)
  rank_salient_spans cleaned app =
      if is_empty (trim cleaned)
      then []
      else order_by ranks_before (rank_blocks app (split_str (codes "\n\n") cleaned) [])

  -- The loop of `compress_to_salient_evidence`.
  unfoldable pub compress_spans : List (SalientSpan F) → ℕ → Text → Text
  compress_spans [] max_chars out = out
  compress_spans (span ∷ rest) max_chars out =
      let joined = if is_empty out then out else out ++ bullet in
      let after = compress_spans rest max_chars (joined ++ span.text) in
      if leb max_chars (length out)
      then out
      else if ltb max_chars (length joined + length span.text)
      then joined ++ take (max_chars - length joined) span.text
      else after

  unfoldable pub compress_to_salient_evidence : Text → AppIdentity → ℕ → Text
  compress_to_salient_evidence cleaned app max_chars =
      if max_chars == 0 || is_empty (trim cleaned)
      then []
      else elim (rank_salient_spans cleaned app) [
        | [] ↦ take max_chars cleaned
        | span ∷ spans ↦ compress_spans (span ∷ spans) max_chars []
      ]

  abbrev pub sum_scores : List (SalientSpan F) → F → F
  sum_scores [] total = total
  sum_scores (span ∷ spans) total = sum_scores spans (fl.add total span.score)

  unfoldable pub salience_concentration : Text → AppIdentity → F
  salience_concentration cleaned app =
      let spans = rank_salient_spans cleaned app in
      let total = sum_scores spans (fl.hundredths 0) in
      let top_k = min 3 (length spans) in
      elim spans [
        | [] ↦ fl.hundredths 0
        | s ∷ ss ↦
            if fl.le total (fl.millionths 1)
            then fl.hundredths 0
            else unit_clamp (fl.div (sum_scores (take top_k (s ∷ ss)) (fl.hundredths 0)) total)
      ]

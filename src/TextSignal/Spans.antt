-- ===== src/TextSignal/Spans.antt =====
-- crates/fndr-textsignal/src/cleanup.rs: how many spans are ranked, and how long the evidence is.
use fndr.Prelude.{
  ℕ, ◌+◌, ◌-◌, ◌≤◌, ◌≡◌, refl, subst, sym, Bool, false, ◌||◌, List, [], ◌∷◌, ◌++◌, arith,
  if◌then◌else◌, leb, ltb, length, take, length-append, length-take, All, All-append, All-order_by,
  length-order_by, if-holds, if-cases, ◌==◌,
}
use fndr.Text.{Text, codes, is_empty, trim, split_str}
use fndr.Platform.{Platform, Float32}
use fndr.Memory.Story.{bullet}
use fndr.TextSignal.App.{AppIdentity}
use fndr.TextSignal.Salience.{
  SalientSpan, split_block_into_sentences, span_score, rank_sentences, rank_blocks, ranks_before,
  rank_salient_spans, compress_spans, compress_to_salient_evidence,
}

module _ {Url F : Type 0} (pf : Platform Url) (fl : Float32 F) (is_uppercase : ℕ → Bool) where
  -- A span that is ranked: no blank text, with its own score, which is above 0.
  abbrev pub IsRanked : AppIdentity → SalientSpan F → Type 0
  IsRanked app s =
      (is_empty s.text ≡ false)
      × (fl.le s.score (fl.hundredths 0) ≡ false)
      × (s.score ≡ span_score pf fl is_uppercase app s.text)

  abbrev Ranked : AppIdentity → List (SalientSpan F) → Type 0
  Ranked app spans = (length spans ≤ 64) × All (IsRanked app) spans

  push_Ranked :
      (app : AppIdentity) (spans : List (SalientSpan F)) (s : SalientSpan F)
      → leb 64 (length spans) ≡ false
      → Ranked app spans
      → IsRanked app s
      → Ranked app (spans ++ (s ∷ []))
  push_Ranked app spans s n h k = (
    ground (arith, length-append spans (s ∷ [])),
    All-append (IsRanked app) spans (s ∷ []) h.1 (k, tt),
  )

  rank_sentences-Ranked :
      (app : AppIdentity) (sentences : List Text) (spans : List (SalientSpan F))
      → Ranked app spans
      → Ranked app (rank_sentences pf fl is_uppercase app sentences spans)
  unfolding rank_sentences
  rank_sentences-Ranked app [] spans h = h
  rank_sentences-Ranked app (sentence ∷ rest) spans h =
      if-cases (Ranked app) (leb 64 (length spans)) (λ n. h)
        (λ n. rank_sentences-Ranked app rest _ (
          if-cases (Ranked app)
            (is_empty text || fl.le (span_score pf fl is_uppercase app text) (fl.hundredths 0))
            (λ e. h)
            (λ e. push_Ranked app spans _ n h (ground (arith, e), ground (arith, e), refl))))
    where
      text : Text
      text = trim sentence

  rank_blocks-Ranked :
      (app : AppIdentity) (blocks : List Text) (spans : List (SalientSpan F))
      → Ranked app spans
      → Ranked app (rank_blocks pf fl is_uppercase app blocks spans)
  unfolding rank_blocks
  rank_blocks-Ranked app [] spans h = h
  rank_blocks-Ranked app (block ∷ rest) spans h =
      let k = rank_sentences-Ranked app (split_block_into_sentences block) spans h in
      if-cases (Ranked app)
        (leb 64
          (length (rank_sentences pf fl is_uppercase app (split_block_into_sentences block) spans)))
        (λ n. k) (λ n. rank_blocks-Ranked app rest _ k)

  -- At most 64 spans are ranked; none is blank, each has the score of its text, and no score is 0 or
  -- less.
  pub rank_salient_spans_sound :
      (cleaned : Text) (app : AppIdentity)
      → (length (rank_salient_spans pf fl is_uppercase cleaned app) ≤ 64)
        × All (IsRanked app) (rank_salient_spans pf fl is_uppercase cleaned app)
  unfolding rank_salient_spans
  rank_salient_spans_sound cleaned app =
      if-cases (Ranked app) (is_empty (trim cleaned)) (λ e. (omega arith, tt))
        (λ e.
          let h = rank_blocks-Ranked app (split_str (codes "\n\n") cleaned) [] (omega arith, tt) in
          (
            subst (λ n. n ≤ 64) (sym (length-order_by (ranks_before pf fl is_uppercase) _)) h.0,
            All-order_by (IsRanked app) (ranks_before pf fl is_uppercase) _ h.1,
          ))

  joined-bound :
      (out : Text) (max_chars : ℕ)
      → leb max_chars (length out) ≡ false
      → length (if is_empty out then out else out ++ bullet) ≤ max_chars + 2
  joined-bound out max_chars h =
      if-holds (λ (t : Text). length t ≤ max_chars + 2) (is_empty out) (ground (arith, h))
        (ground (arith, length-append out bullet, h))

  cut-bound :
      (joined text : Text) (max_chars : ℕ)
      → length joined ≤ max_chars + 2
      → length (joined ++ take (max_chars - length joined) text) ≤ max_chars + 2
  cut-bound joined text max_chars h =
      subst (λ n. n ≤ max_chars + 2) (sym (length-append joined _))
        (omega (arith, length-take (max_chars - length joined) text))

  compress_spans-bound :
      (spans : List (SalientSpan F)) (max_chars : ℕ) (out : Text)
      → length out ≤ max_chars + 2
      → length (compress_spans pf fl is_uppercase spans max_chars out) ≤ max_chars + 2
  unfolding compress_spans
  compress_spans-bound [] max_chars out h = h
  compress_spans-bound (span ∷ rest) max_chars out h =
      if-cases P (leb max_chars (length out)) (λ n. h)
        (λ n.
          if-cases P (ltb max_chars (length joined + length span.text))
            (λ m. cut-bound joined span.text max_chars (joined-bound out max_chars n))
            (λ m. compress_spans-bound rest max_chars (joined ++ span.text) (
              subst (λ k. k ≤ max_chars + 2) (sym (length-append joined span.text))
                (ground (arith, m)))))
    where
      P : Text → Type 0
      P t = length t ≤ max_chars + 2

      joined : Text
      joined = if is_empty out then out else out ++ bullet

  -- The evidence is at most two characters longer than the limit. It can be: the separator is
  -- written before the limit is looked at again.
  pub compress_to_salient_evidence-bound :
      (cleaned : Text) (app : AppIdentity) (max_chars : ℕ)
      → length (compress_to_salient_evidence pf fl is_uppercase cleaned app max_chars)
        ≤ max_chars + 2
  unfolding compress_to_salient_evidence
  compress_to_salient_evidence-bound cleaned app max_chars =
      if-cases P (max_chars == 0 || is_empty (trim cleaned)) (λ e. omega arith)
        (λ e. evidence (rank_salient_spans pf fl is_uppercase cleaned app))
    where
      P : Text → Type 0
      P t = length t ≤ max_chars + 2

      evidence :
          (spans : List (SalientSpan F))
          → P (elim spans as (λ _. Text) [
            | [] ↦ take max_chars cleaned
            | span ∷ more ↦ compress_spans pf fl is_uppercase (span ∷ more) max_chars []
          ])
      evidence [] = omega (arith, length-take max_chars cleaned)
      evidence (span ∷ more) = compress_spans-bound (span ∷ more) max_chars [] (omega arith)

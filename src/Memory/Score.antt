-- ===== src/Memory/Score.antt =====
-- crates/fndr-memory/src/continuity.rs: the evidence that two captures belong to one story. The
-- scores are `f32`, whose arithmetic is a parameter.
use fndr.Prelude.{
  ℕ, ◌+◌, ◌-◌, ◌*◌, Bool, true, false, not, ◌&&◌, ◌||◌, List, [], ◌∷◌, Option, none, some,
  if◌then◌else◌, ltb, leb, length, take, keep,
}
use fndr.Text.{Text, text_eq, one_of, trim, str_len}
use fndr.Platform.{Platform, Float32}
use fndr.Memory.Anchor.{ContinuityRecord, domain, words, matching_effective_url, continuity_anchor}

pub record ContinuityScore (F : Type 0) : Type 0 where
  pub score : F
  pub lexical : F
  pub vector : F
  pub anchor_match : Bool

-- `trim_chars`: the first `max_chars` characters.
unfoldable pub trim_chars : Text → ℕ → Text
trim_chars text max_chars = take max_chars text

-- A `HashSet` as a list that holds each entry once.
unfoldable pub distinct : List Text → List Text
distinct [] = []
distinct (t ∷ ts) = let rest = distinct ts in if one_of t ts then rest else t ∷ rest

abbrev pub is_empty_list : List Text → Bool
is_empty_list [] = true
is_empty_list (t ∷ ts) = false

unfoldable pub eligible_for_story_merge : ContinuityRecord → Bool
eligible_for_story_merge r = leb 36 (str_len (trim r.text)) || leb 18 (str_len (trim r.snippet))

-- `a.zip(b).map(|(l, r)| l == r).unwrap_or(false)`.
abbrev pub both_equal : Option Text → Option Text → Bool
both_equal none right = false
both_equal (some left) none = false
both_equal (some left) (some right) = text_eq left right

-- `unsigned_abs` of the difference.
abbrev pub time_distance : ContinuityRecord → ContinuityRecord → ℕ
time_distance a b = (a.captured_at_ms - b.captured_at_ms) + (b.captured_at_ms - a.captured_at_ms)

module _ {Url F : Type 0} (pf : Platform Url) (fl : Float32 F) where
  unfoldable pub tokenize : Text → List Text
  tokenize text = distinct (words pf text)

  unfoldable pub token_overlap : Text → Text → F
  token_overlap left right =
      let ls = tokenize left in
      let rs = tokenize right in
      if is_empty_list ls || is_empty_list rs
      then fl.hundredths 0
      else fl.div (fl.of_usize (length (keep (λ t. one_of t rs) ls)))
          (fl.of_usize (length ls + length (keep (λ t. not (one_of t ls)) rs)))

  unfoldable pub lexical_score : ContinuityRecord → ContinuityRecord → F
  lexical_score a b =
      fl.add
        (fl.add
          (fl.add (fl.mul (token_overlap a.snippet b.snippet) (fl.hundredths 42))
            (fl.mul (token_overlap a.window_title b.window_title) (fl.hundredths 26)))
          (fl.mul (token_overlap (trim_chars a.text 1000) (trim_chars b.text 1000))
            (fl.hundredths 20)))
        (fl.mul (token_overlap a.lexical_shadow b.lexical_shadow) (fl.hundredths 12))

  unfoldable pub score_candidate : ContinuityRecord → ContinuityRecord → F → ContinuityScore F
  score_candidate incoming other vector_similarity =
      let lexical = lexical_score incoming other in
      let vector = fl.clamp vector_similarity (fl.hundredths 0) (fl.hundredths 100) in
      let anchor_match = both_equal (continuity_anchor pf incoming) (continuity_anchor pf other) in
      let same_domain = both_equal (domain incoming.url) (domain other.url) in
      record {
        score =
            fl.add
              (fl.add
                (fl.add (fl.mul vector (fl.hundredths 50)) (fl.mul lexical (fl.hundredths 42)))
                (if same_domain then fl.hundredths 8 else fl.hundredths 0))
              (if anchor_match then fl.hundredths 32 else fl.hundredths 0);
        lexical = lexical;
        vector = vector;
        anchor_match = anchor_match;
      }

  unfoldable pub passes_merge_threshold : ContinuityScore F → Bool
  passes_merge_threshold s =
      if s.anchor_match
      then fl.ge s.score (fl.hundredths 58) && fl.ge s.lexical (fl.hundredths 18)
      else if fl.ge s.lexical (fl.hundredths 72) && fl.ge s.score (fl.hundredths 80)
      then true
      else fl.ge s.score (fl.hundredths 86)
        && (fl.ge s.vector (fl.hundredths 82) && fl.ge s.lexical (fl.hundredths 28))

  unfoldable pub allows_cross_app_merge :
      ContinuityRecord → ContinuityRecord → ContinuityScore F → Bool
  allows_cross_app_merge incoming other s =
      if ltb (45 * 60 * 1000) (time_distance incoming other)
      then false
      else if matching_effective_url pf incoming.url other.url
      then true
      else both_equal (domain incoming.url) (domain other.url)
        && ((s.anchor_match && fl.ge s.lexical (fl.hundredths 52))
            || (fl.ge s.vector (fl.hundredths 93) && fl.ge s.lexical (fl.hundredths 70)))

  unfoldable pub should_merge : ContinuityRecord → ContinuityRecord → F → Option (ContinuityScore F)
  should_merge incoming other vector_similarity =
      let s = score_candidate incoming other vector_similarity in
      if not (eligible_for_story_merge incoming) || not (eligible_for_story_merge other)
      then none
      else if not (text_eq incoming.app_name other.app_name)
          && not (allows_cross_app_merge incoming other s)
      then none
      else if passes_merge_threshold s
      then some s
      else none

-- ===== src/Memory/Story.antt =====
-- crates/fndr-memory/src/continuity.rs: how the text of a capture joins the text of a story.
pub mod Evidence
pub mod Secrets
use fndr.Prelude.{
  ℕ, ◌≤◌, ◌≡◌, refl, sym, ◌∙◌, ap, ◌⊎◌, inl, inr, Bool, true, false, ◌||◌, List, [], ◌∷◌, ◌++◌, map,
  arith, if◌then◌else◌, leb, ◌==◌, length, take, keep, length-take, Bool-cases,
}
use fndr.Text.{Text, codes, newline, is_empty, contains, trim, split_on, str_len}
use fndr.Platform.{Platform}
use fndr.Memory.Anchor.{normalize_overlap}
use fndr.Memory.Score.{trim_chars}

-- " • "
abbrev pub bullet : Text
bullet = b' ' ∷ 8226 ∷ b' ' ∷ []

abbrev pub ends_sentence : ℕ → Bool
ends_sentence c = c == newline || (c == b'.' || (c == b'!' || (c == b'?' || c == b';')))

unfoldable pub story_segments : Text → List Text
story_segments incoming =
    keep (λ segment. leb 12 (str_len segment)) (map trim (split_on ends_sentence incoming))

module _ {Url : Type 0} (pf : Platform Url) where
  -- The loop over the segments, with its two accumulators.
  unfoldable pub merge_segments : ℕ → List Text → Text → Text → Text
  merge_segments max_chars [] merged merged_normalized = merged
  merge_segments max_chars (segment ∷ segments) merged merged_normalized =
      let normalized = normalize_overlap pf segment in
      let longer = merged ++ (bullet ++ segment) in
      let skipped = merge_segments max_chars segments merged merged_normalized in
      let pushed =
        merge_segments max_chars segments longer (merged_normalized ++ (b' ' ∷ normalized)) in
      if is_empty normalized || contains merged_normalized normalized
      then skipped
      else if leb max_chars (length longer)
      then longer
      else pushed

  unfoldable pub merge_story_text : Text → Text → ℕ → Text
  merge_story_text existing_text incoming_text max_chars =
      let existing = trim existing_text in
      let incoming = trim incoming_text in
      let old = normalize_overlap pf existing in
      let new = normalize_overlap pf incoming in
      if is_empty existing
      then trim_chars incoming max_chars
      else if is_empty incoming
      then trim_chars existing max_chars
      else if contains old new
      then trim_chars existing max_chars
      else if contains new old
      then trim_chars incoming max_chars
      else trim_chars (merge_segments max_chars (story_segments incoming) existing old) max_chars

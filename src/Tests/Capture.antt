-- ===== src/Tests/Capture.antt =====
-- crates/fndr-capture at concrete inputs: sampling, admission and deduplication.
use fndr.Prelude.{
  ℕ, ◌*◌, ◌^◌, ◌<◌, ◌≤◌, ◌≡◌, refl, ◌↔◌, true, List, [], ◌∷◌, Option, some, arith, length, ◌-◌,
  if◌then◌else◌, leb,
}
use fndr.Text.{
  Text, codes, to_ascii_lowercase, lower_char, contains, starts_with, text_eq, is_empty, split_on,
  split_str, split_once, ends_with, trim, trim_start_matches, trim_end_matches, is_whitespace,
}
use fndr.Capture.Sampling.{
  SamplingDecision, SamplingPolicy, default, decide, interval, capture_now, wait, deep_idle,
}
use fndr.Capture.Sampling
use fndr.Capture.Admission.{
  normal, url_only, skip_frame, from_url, is_browser_app, classify_capture_surface_policy,
}
use fndr.Capture.Admission
use fndr.Capture.Admission.Surface.{restricted_is_browser}
use fndr.Capture.Dedup.{
  ImageHasher, PerceptualSignature, from_native_rgba, sample_width, sample_height,
}
use fndr.Capture.Dedup.Perceptual
use fndr.Capture.Dedup.Semantic
use fndr.Capture.Dedup.Sample.{is_some, from_native_rgba_total}
use fndr.Capture.Dedup.History.{skips, redundancies, perceptual_refines}
use fndr.Capture.Dedup.Expiry.{suppressed, repeats, semantic_refines}

abbrev second : ℕ
second = 1_000_000_000

abbrev policy : SamplingPolicy
policy = record {
  active_interval = 3 * second;
  idle_interval = 15 * second;
  idle_after = 30 * second;
  deep_idle_after = 300 * second;
  forced_capture_after = 120 * second;
}

deep_idle_iff_example :
    (decide policy (400 * second) second ≡ deep_idle) ↔ (policy.deep_idle_after ≤ 400 * second)
deep_idle_iff_example = Sampling.deep_idle_iff policy (400 * second) second

abbrev watch : Text
watch = codes "https://www.youtube.com/watch?v=1#t"

new_tab :
    classify_capture_surface_policy (codes "Safari") (codes "New Tab") (some watch) ≡ skip_frame
unfolding classify_capture_surface_policy is_browser_app Admission.contains_any
    Admission.is_generic_browser_chrome_title contains starts_with to_ascii_lowercase lower_char
new_tab = refl

-- The test of `ends_with("youtube.com")` takes a whole other domain for YouTube.
other_domain :
    Admission.is_listing_surface (from_url (codes "https://notyoutube.com/c/page")) (codes "a page")
    ≡ true
unfolding Admission.is_listing_surface from_url Admission.path_and_query Admission.extract_domain
    contains starts_with ends_with text_eq split_on split_str split_once is_empty to_ascii_lowercase
    lower_char trim trim_start_matches trim_end_matches is_whitespace
    Admission.contains_path_segment
other_domain = refl

restricted_is_browser_example :
    (is_browser_app (codes "Safari") ≡ true) × ((u : Text) × (some watch ≡ some u))
restricted_is_browser_example =
    restricted_is_browser (codes "Safari") (codes "New Tab") (some watch) (λ e. cc (e, new_tab))

-- A hash that is a number.
abbrev pub numbers : ImageHasher ℕ
numbers = record { hash_image = length; dist = λ a b. if leb a b then b - a else a - b }

abbrev small : List ℕ
small = 1 ∷ 2 ∷ []

from_native_rgba_total_example :
    (result : Option (PerceptualSignature ℕ)) × (from_native_rgba numbers 9 8 small ≡ some result)
    × ((is_some result ≡ true) ↔ (
        (sample_width ≤ 9)
        × (sample_height ≤ 8)
        × (9 * 8 * 4 < 2 ^ 64)
        × (9 * 8 * 4 ≤ length small)))
from_native_rgba_total_example = from_native_rgba_total numbers 9 8 small

abbrev grey : ℕ → PerceptualSignature ℕ
grey n = record { hash = n; average_rgb = record { red = 9; green = 9; blue = 9 } }

perceptual_refines_example :
    skips numbers (Perceptual.new 5) (grey 1 ∷ grey 50 ∷ grey 2 ∷ [])
    ≡ redundancies numbers 5 [] (grey 1 ∷ grey 50 ∷ grey 2 ∷ [])
perceptual_refines_example = perceptual_refines numbers 5 (grey 1 ∷ grey 50 ∷ grey 2 ∷ [])

semantic_refines_example :
    suppressed 30_000 Semantic.default ((7, 1_000) ∷ (7, 20_000) ∷ (7, 60_000) ∷ [])
    ≡ repeats 30_000 [] ((7, 1_000) ∷ (7, 20_000) ∷ (7, 60_000) ∷ [])
semantic_refines_example =
    semantic_refines 30_000 0 ((7, 1_000) ∷ (7, 20_000) ∷ (7, 60_000) ∷ [])
      (omega arith, (omega arith, (omega arith, tt)))

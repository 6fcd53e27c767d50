-- ===== src/Capture/Dedup/Perceptual.antt =====
-- `PerceptualDeduper`.
use fndr.Prelude.{
  ℕ, ◌-◌, max, Bool, true, false, ◌&&◌, List, [], ◌∷◌, ◌++◌, Option, none, some, if◌then◌else◌, ltb,
  leb, length, drop, any,
}
use fndr.Capture.Dedup.{
  ImageHasher, PerceptualSignature, hash_history, max_rgb_distance, loop_max_rgb_distance,
  distance_to, colour_distance_to,
}

pub record PerceptualDeduper (H : Type 0) : Type 0 where
  pub threshold : ℕ
  pub last : Option (PerceptualSignature H)
  pub recent : List (PerceptualSignature H)

unfoldable pub new : {H : Type 0} → ℕ → PerceptualDeduper H
new threshold = record { threshold = threshold; last = none; recent = [] }

unfoldable pub default : {H : Type 0} → PerceptualDeduper H
unfolding new
default = new 5

module _ {H : Type 0} (hasher : ImageHasher H) where
  -- Near in hash and in colour.
  unfoldable pub near : ℕ → ℕ → PerceptualSignature H → PerceptualSignature H → Bool
  near threshold max_rgb signature other =
      ltb (distance_to hasher signature other) threshold
      && leb (colour_distance_to hasher signature other) max_rgb

  abbrev pub loop_threshold : ℕ → ℕ
  loop_threshold threshold = max (threshold - 1) 1

  unfoldable pub near_last : ℕ → PerceptualSignature H → Option (PerceptualSignature H) → Bool
  near_last threshold signature none = false
  near_last threshold signature (some last) = near threshold max_rgb_distance signature last

  abbrev pub push_recent :
      List (PerceptualSignature H) → PerceptualSignature H → List (PerceptualSignature H)
  push_recent recent signature =
      let pushed = recent ++ signature ∷ [] in
      if ltb hash_history (length pushed) then drop 1 pushed else pushed

  unfoldable pub should_skip :
      PerceptualDeduper H → PerceptualSignature H → PerceptualDeduper H × Bool
  should_skip d signature =
      let duplicate = near_last d.threshold signature d.last in
      let in_loop =
        any (near (loop_threshold d.threshold) loop_max_rgb_distance signature) d.recent in
      (
        record d { last = some signature; recent = push_recent d.recent signature },
        if duplicate then true else in_loop,
      )

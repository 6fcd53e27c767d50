-- ===== src/Capture/Dedup/History.antt =====
-- The perceptual deduplicator against the whole history of frames.
use fndr.Prelude.{
  ℕ, ◌≡◌, refl, ◌∙◌, ap, Bool, true, ◌||◌, List, [], ◌∷◌, Option, none, some, arith, take, any, Has,
  Has-any,
}
use fndr.Capture.Dedup.{
  ImageHasher, Rgb, PerceptualSignature, loop_max_rgb_distance, rgb_distance, distance_to,
  colour_distance_to, hash_history,
}
use fndr.Capture.Dedup.Perceptual
use fndr.Capture.Dedup.Perceptual.{PerceptualDeduper, near, near_last, loop_threshold, push_recent}

abbrev pub newest {ℓ} : {A : Type ℓ} → List A → Option A
newest [] = none
newest (a ∷ rest) = some a

-- The last three, oldest first.
abbrev window : {A : Type 0} → List A → List A
window [] = []
window (a ∷ []) = a ∷ []
window (a ∷ b ∷ []) = b ∷ a ∷ []
window (a ∷ b ∷ c ∷ rest) = c ∷ b ∷ a ∷ []

module _ {H : Type 0} (hasher : ImageHasher H) where
  -- The rule over a history, newest first: near the newest frame, or nearer to one of the last
  -- three.
  abbrev pub redundant : ℕ → PerceptualSignature H → List (PerceptualSignature H) → Bool
  redundant threshold s history =
      near_last hasher threshold s (newest history)
      || any (near hasher (loop_threshold hasher threshold) loop_max_rgb_distance s)
          (take hash_history history)

  -- The decisions on a sequence of frames, by the state and by the rule.
  unfoldable pub skips : PerceptualDeduper H → List (PerceptualSignature H) → List Bool
  skips d [] = []
  skips d (s ∷ ss) =
      (Perceptual.should_skip hasher d s).1 ∷ skips (Perceptual.should_skip hasher d s).0 ss

  unfoldable pub redundancies :
      ℕ → List (PerceptualSignature H) → List (PerceptualSignature H) → List Bool
  redundancies threshold history [] = []
  redundancies threshold history (s ∷ ss) =
      redundant threshold s history ∷ redundancies threshold (s ∷ history) ss

  record Tracks (t : ℕ) (d : PerceptualDeduper H) (history : List (PerceptualSignature H))
      : Type 0 where
    threshold : d.threshold ≡ t
    last : d.last ≡ newest history
    recent : d.recent ≡ window history

  push_recent-window :
      (s : PerceptualSignature H) (h : List (PerceptualSignature H))
      → push_recent hasher (window h) s ≡ window (s ∷ h)
  push_recent-window s [] = refl
  push_recent-window s (a ∷ []) = refl
  push_recent-window s (a ∷ b ∷ []) = refl
  push_recent-window s (a ∷ b ∷ c ∷ h) = refl

  any-window :
      (p : PerceptualSignature H → Bool) (h : List (PerceptualSignature H))
      → any p (window h) ≡ any p (take hash_history h)
  any-window p [] = refl
  any-window p (a ∷ []) = refl
  any-window p (a ∷ b ∷ []) = ground arith
  any-window p (a ∷ b ∷ c ∷ h) = ground arith

  should_skip-Tracks :
      (t : ℕ) (d : PerceptualDeduper H) (h : List (PerceptualSignature H))
      (s : PerceptualSignature H)
      → Tracks t d h
      → Tracks t (Perceptual.should_skip hasher d s).0 (s ∷ h)
  unfolding Perceptual.should_skip
  should_skip-Tracks t d h s k = record {
    threshold = k.threshold;
    last = refl;
    recent = ap (λ r. push_recent hasher r s) k.recent ∙ push_recent-window s h;
  }

  should_skip-redundant :
      (t : ℕ) (d : PerceptualDeduper H) (h : List (PerceptualSignature H))
      (s : PerceptualSignature H)
      → Tracks t d h
      → (Perceptual.should_skip hasher d s).1 ≡ redundant t s h
  unfolding Perceptual.should_skip
  should_skip-redundant t d h s k =
      rw (k.threshold, k.last, k.recent, any-window _ h) (ground arith)

  skips-redundancies :
      (t : ℕ) (d : PerceptualDeduper H) (h ss : List (PerceptualSignature H))
      → Tracks t d h
      → skips d ss ≡ redundancies t h ss
  unfolding skips redundancies
  skips-redundancies t d h [] k = refl
  skips-redundancies t d h (s ∷ ss) k = cc (
    should_skip-redundant t d h s k,
    skips-redundancies t (Perceptual.should_skip hasher d s).0 (s ∷ h) ss
        (should_skip-Tracks t d h s k),
  )

  -- The bounded state forgets nothing that matters: on every sequence of frames its decisions are
  -- those of the rule over the whole history.
  pub perceptual_refines :
      (t : ℕ) (ss : List (PerceptualSignature H))
      → skips (Perceptual.new t) ss ≡ redundancies t [] ss
  unfolding Perceptual.new
  perceptual_refines t ss =
      skips-redundancies t (Perceptual.new t) [] ss
        (record { threshold = refl; last = refl; recent = refl })

  rgb_distance_self : (c : Rgb) → rgb_distance c c ≡ 0
  unfolding rgb_distance
  rgb_distance_self c = ground arith

  -- A frame equal to one of the last three is redundant, at every threshold; of the hasher it is
  -- assumed that a hash has distance 0 to itself.
  pub recent_frame_redundant :
      (t : ℕ) (s : PerceptualSignature H) (history : List (PerceptualSignature H))
      → hasher.dist s.hash s.hash ≡ 0
      → Has s (take hash_history history)
      → redundant t s history ≡ true
  unfolding near distance_to colour_distance_to
  recent_frame_redundant t s history e m =
      let self : near hasher (loop_threshold hasher t) loop_max_rgb_distance s s ≡ true =
        ground (arith, rgb_distance_self s.average_rgb) in
      let found =
        Has-any (near hasher (loop_threshold hasher t) loop_max_rgb_distance s) s (take 3 history) m
          self in
      ground arith

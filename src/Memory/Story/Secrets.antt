-- ===== src/Memory/Story/Secrets.antt =====
-- A story holds no secret that its captures did not hold.
use fndr.Prelude.{
  ℕ, ◌≡◌, refl, sym, ◌∙◌, ap, Bool, true, false, not, ◌&&◌, ◌||◌, List, [], ◌∷◌, ◌++◌, map, arith,
  leb, ◌==◌, all, All, keep, true≢false, length, if-holds, take,
}
use fndr.Text.{Text, is_empty, starts_with, contains, to_ascii_lowercase, lower_char, trim, str_len}
use fndr.Text.Search.{Lacks, contains_at}
use fndr.Text.Parts.{PartOf, part_trans, part_take, part_trim, parts_split_on, contains-part}
use fndr.Platform.{Platform}
use fndr.Privacy.SafetyGate.{contains_secret_pattern}
use fndr.Memory.Anchor.{normalize_overlap}
use fndr.Memory.Score.{trim_chars}
use fndr.Memory.Story.{bullet, ends_sentence, story_segments, merge_segments, merge_story_text}

-- The last character is no space.
abbrev pub ends_inside : Text → Bool
ends_inside [] = false
ends_inside (c ∷ []) = not (c == b' ')
ends_inside (c ∷ d ∷ p) = ends_inside (d ∷ p)

abbrev pub starts_inside : Text → Bool
starts_inside [] = false
starts_inside (c ∷ p) = not (c == b' ')

-- A pattern that cannot reach across the " • " between two pieces of a story.
abbrev pub is_story_pattern : Text → Bool
is_story_pattern p = starts_inside p && (ends_inside p && all (λ c. not (c == 8226)) p)

Lacks-of_all : (p : Text) → all (λ c. not (c == 8226)) p ≡ true → Lacks 8226 p
Lacks-of_all [] h = tt
Lacks-of_all (c ∷ p) h = (ground arith, Lacks-of_all p (ground arith))

-- A space at either end adds no occurrence.
starts_with_snoc :
    (a p : Text) → ends_inside p ≡ true → starts_with (a ++ b' ' ∷ []) p ≡ starts_with a p
unfolding starts_with
starts_with_snoc a [] h = absurd (cc)
starts_with_snoc [] (d ∷ []) h = ground arith
starts_with_snoc [] (d ∷ e ∷ p) h = ground arith
starts_with_snoc (c ∷ a) (d ∷ []) h = ground arith
starts_with_snoc (c ∷ a) (d ∷ e ∷ p) h = ap (λ t. (c == d) && t) (starts_with_snoc a (e ∷ p) h)

contains_snoc : (a p : Text) → ends_inside p ≡ true → contains (a ++ b' ' ∷ []) p ≡ contains a p
unfolding contains starts_with
contains_snoc a [] h = absurd (cc)
contains_snoc [] (d ∷ p) h = ap (λ t. t || false) (starts_with_snoc [] (d ∷ p) h)
contains_snoc (c ∷ a) (d ∷ p) h =
    ap (λ t. t || contains (a ++ b' ' ∷ []) (d ∷ p)) (starts_with_snoc (c ∷ a) (d ∷ p) h)
    ∙ ap (λ t. starts_with (c ∷ a) (d ∷ p) || t) (contains_snoc a (d ∷ p) h)

contains_space : (a p : Text) → starts_inside p ≡ true → contains (b' ' ∷ a) p ≡ contains a p
unfolding contains starts_with
contains_space a [] h = absurd (cc)
contains_space a (d ∷ p) h = ground arith

lower-bullet :
    (a b : Text)
    → to_ascii_lowercase (a ++ (bullet ++ b))
      ≡ (to_ascii_lowercase a ++ (b' ' ∷ [])) ++ (8226 ∷ b' ' ∷ to_ascii_lowercase b)
unfolding to_ascii_lowercase lower_char
lower-bullet [] b = refl
lower-bullet (c ∷ a) b = ap (λ t. lower_char c ∷ t) (lower-bullet a b)

contains-bullet :
    (a b p : Text)
    → is_story_pattern p ≡ true
    → contains (to_ascii_lowercase (a ++ (bullet ++ b))) p
      ≡ (contains (to_ascii_lowercase a) p || contains (to_ascii_lowercase b) p)
contains-bullet a b p h =
    let lower = to_ascii_lowercase in
    ap (λ t. contains t p) (lower-bullet a b)
    ∙ contains_at (lower a ++ b' ' ∷ []) (b' ' ∷ lower b) p 8226 (Lacks-of_all p (ground arith))
    ∙ ap (λ t. t || contains (b' ' ∷ lower b) p) (contains_snoc (lower a) p (ground arith))
    ∙ ap (λ t. contains (lower a) p || t) (contains_space (lower b) p (ground arith))

module _ (patterns : List Text) where
  abbrev pub IsClean : Text → Type 0
  IsClean text = contains_secret_pattern text patterns ≡ false

not-true : (b : Bool) → (b ≡ true → ⊥) → b ≡ false
not-true true h = absurd (h refl)
not-true false h = refl

IsClean-part :
    (patterns : List Text) (s a : Text) → PartOf s a → IsClean patterns s → IsClean patterns a
unfolding contains_secret_pattern
IsClean-part [] s a h k = refl
IsClean-part (p ∷ ps) s a h k =
    let gone : contains (to_ascii_lowercase a) p ≡ false =
      not-true _ (λ e. true≢false (sym (contains-part s a p h e) ∙ ground arith)) in
    rw gone (IsClean-part ps s a h (ground arith))

IsClean-bullet :
    (patterns : List Text) (a b : Text)
    → all is_story_pattern patterns ≡ true
    → IsClean patterns a
    → IsClean patterns b
    → IsClean patterns (a ++ (bullet ++ b))
unfolding contains_secret_pattern
IsClean-bullet [] a b h k l = refl
IsClean-bullet (p ∷ ps) a b h k l =
    let here : contains (to_ascii_lowercase (a ++ (bullet ++ b))) p ≡ false =
      contains-bullet a b p (ground arith) ∙ ground arith in
    rw here (IsClean-bullet ps a b (ground arith) (ground arith) (ground arith))

IsClean-parts :
    (patterns : List Text) (s : Text) (ws : List Text)
    → All (PartOf s) ws
    → IsClean patterns s
    → All (IsClean patterns) (keep (λ w. leb 12 (str_len w)) (map trim ws))
IsClean-parts patterns s [] h k = tt
IsClean-parts patterns s (w ∷ ws) h k =
    let here = IsClean-part patterns s (trim w) (part_trans s w _ h.0 (part_trim w)) k in
    let rest = IsClean-parts patterns s ws h.1 k in
    if-holds (All (IsClean patterns)) (leb 12 (str_len (trim w))) (here, rest) rest

module _ {Url : Type 0} (pf : Platform Url) (patterns : List Text) where
  merge_segments-IsClean :
      (max_chars : ℕ) (segments : List Text) (merged merged_normalized : Text)
      → all is_story_pattern patterns ≡ true
      → All (IsClean patterns) segments
      → IsClean patterns merged
      → IsClean patterns (merge_segments pf max_chars segments merged merged_normalized)
  unfolding merge_segments
  merge_segments-IsClean n [] m mn h ks k = k
  merge_segments-IsClean n (w ∷ ws) m mn h ks k =
      let normalized = normalize_overlap pf w in
      let longer = IsClean-bullet patterns m w h k ks.0 in
      if-holds (IsClean patterns) (is_empty normalized || contains mn normalized)
        (merge_segments-IsClean n ws m mn h ks.1 k)
        (if-holds (IsClean patterns) (leb n (length (m ++ (bullet ++ w)))) longer
          (merge_segments-IsClean n ws _ _ h ks.1 longer))

  -- If no pattern can reach across the " • " between two pieces, merging two texts without a secret
  -- pattern gives a text without one.
  pub merge_story_text-IsClean :
      (existing incoming : Text) (max_chars : ℕ)
      → all is_story_pattern patterns ≡ true
      → IsClean patterns existing
      → IsClean patterns incoming
      → IsClean patterns (merge_story_text pf existing incoming max_chars)
  unfolding merge_story_text trim_chars story_segments
  merge_story_text-IsClean existing incoming n h k l =
      let e = trim existing in
      let i = trim incoming in
      let ke = IsClean-part patterns existing e (part_trim existing) k in
      let ki = IsClean-part patterns incoming i (part_trim incoming) l in
      let cut : (t : Text) → IsClean patterns t → IsClean patterns (take n t) =
        λ t q. IsClean-part patterns t _ (part_take n t) q in
      let segments = IsClean-parts patterns i _ (parts_split_on ends_sentence i) ki in
      let old = normalize_overlap pf e in
      let new = normalize_overlap pf i in
      if-holds (IsClean patterns) (is_empty e) (cut i ki) (
        if-holds (IsClean patterns) (is_empty i) (cut e ke) (
          if-holds (IsClean patterns) (contains old new) (cut e ke) (
            if-holds (IsClean patterns) (contains new old) (cut i ki)
              (cut _ (merge_segments-IsClean n _ e old h segments ke)))))

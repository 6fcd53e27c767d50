-- ===== src/Memory/Story/Evidence.antt =====
-- What a merged story keeps of its captures.
use fndr.Prelude.{
  append_assoc, append-nil, ℕ, ◌≤◌, ◌≡◌, refl, sym, ◌∙◌, ap, ◌⊎◌, inl, inr, true, ◌||◌, List, [],
  ◌∷◌, ◌++◌, arith, leb, length, take, length-take, if-cases, if-holds,
}
use fndr.Text.{Text, is_empty, contains, trim}
use fndr.Platform.{Platform}
use fndr.Memory.Anchor.{normalize_overlap}
use fndr.Memory.Score.{trim_chars}
use fndr.Memory.Story.{bullet, story_segments, merge_segments, merge_story_text}

append_empty : (e i : Text) → is_empty e ≡ true → e ++ i ≡ i
unfolding is_empty
append_empty [] i h = refl
append_empty (c ∷ e) i h = absurd (cc)

abbrev Extends : Text → Text → Type 0
Extends s t = (rest : Text) × (t ≡ s ++ rest)

module _ {Url : Type 0} (pf : Platform Url) where
  merge_segments-Extends :
      (max_chars : ℕ) (segments : List Text) (merged merged_normalized : Text)
      → Extends merged (merge_segments pf max_chars segments merged merged_normalized)
  unfolding merge_segments
  merge_segments-Extends n [] m mn = ([], sym (append-nil m))
  merge_segments-Extends n (w ∷ ws) m mn =
      let (r, e) =
        merge_segments-Extends n ws (m ++ (bullet ++ w)) (mn ++ (b' ' ∷ normalize_overlap pf w)) in
      if-holds (Extends m)
        (is_empty (normalize_overlap pf w) || contains mn (normalize_overlap pf w))
        (merge_segments-Extends n ws m mn)
        (if-holds (Extends m) (leb n (length (m ++ (bullet ++ w)))) (bullet ++ w, refl)
          ((bullet ++ w) ++ r, e ∙ append_assoc m (bullet ++ w) r))

  -- At most `n` characters, from what was there, or from an incoming text that covers it.
  abbrev pub Keeps : Text → Text → ℕ → Text → Type 0
  Keeps existing incoming n result =
      (length result ≤ n)
      × (((rest : Text) × (result ≡ take n (trim existing ++ rest)))
          ⊎ ((result ≡ take n (trim incoming))
              × (contains (normalize_overlap pf (trim incoming))
                    (normalize_overlap pf (trim existing))
                  ≡ true)))

  -- A merged story is at most `max_chars` long, and it is the start of the text that was there with
  -- something added behind it, or the start of the incoming text, whose normal form then holds all
  -- of the normal form of what was there.
  pub merge_story_text-Keeps :
      (existing incoming : Text) (max_chars : ℕ)
      → Keeps existing incoming max_chars (merge_story_text pf existing incoming max_chars)
  unfolding merge_story_text trim_chars is_empty
  merge_story_text-Keeps existing incoming n =
      let e = trim existing in
      let i = trim incoming in
      let old = normalize_overlap pf e in
      let new = normalize_overlap pf i in
      let short : (t : Text) → length (take n t) ≤ n = λ t. omega (arith, length-take n t) in
      let P = Keeps existing incoming n in
      let same : P (take n e) = (short e, inl ([], ap (take n) (sym (append-nil e)))) in
      let (r, grown) = merge_segments-Extends n (story_segments i) e old in
      if-cases P (is_empty e) (λ h. (short i, inl (i, ap (take n) (sym (append_empty e i h)))))
        (λ _. if-holds P (is_empty i) same (
          if-holds P (contains old new) same (
            if-cases P (contains new old) (λ h. (short i, inr (refl, h)))
              (λ _. (short _, inl (r, ap (take n) grown))))))

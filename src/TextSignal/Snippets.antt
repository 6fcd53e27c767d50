-- ===== src/TextSignal/Snippets.antt =====
-- crates/fndr-textsignal/src/cleanup.rs: how long a fallback snippet is, and when it is empty.
use fndr.Prelude.{
  ◌≤◌, ◌≡◌, ◌⊎◌, refl, sym, Bool, true, not, ◌&&◌, ◌||◌, List, [], ◌∷◌, ◌++◌, arith, if◌then◌else◌,
  leb, length, take, length-append, length-take, leb→le, subst, All, if-holds, if-cases, inl, inr,
  &&_iff,
}
use fndr.Text.{Text, codes, is_empty, is_not_empty, one_of, trim, lines, join}
use fndr.Platform.{Platform, Float32}
use fndr.TextSignal.App.{AppIdentity}
use fndr.TextSignal.Lines.{
  normalize_inline, truncate_snippet, looks_like_file_inventory, looks_like_json_inventory,
  snippet_dedup_key,
}
use fndr.TextSignal.Noise.{is_useful_snippet_line}
use fndr.TextSignal.Snippet.{append_details, collect_details, concise_fallback_snippet}

-- A snippet is at most 220 characters.
truncate_bound : (s : Text) → length (truncate_snippet s 220) ≤ 220
unfolding truncate_snippet
truncate_bound s =
    if-cases (λ (t : Text). length t ≤ 220) (leb (length s) 220) (λ h. leb→le (length s) 220 h)
      (λ h.
        subst (λ n. n ≤ 220) (sym (length-append (take 217 s) (codes "...")))
          (omega (arith, length-take 217 s)))

truncate_filled : (s : Text) → is_not_empty s ≡ true → is_not_empty (truncate_snippet s 220) ≡ true
unfolding truncate_snippet
truncate_filled [] h = absurd (cc)
truncate_filled (c ∷ s) h =
    if-holds (λ t. is_not_empty t ≡ true) (leb (length (c ∷ s)) 220) refl refl

filled_of_test : (s : Text) → not (is_empty s) ≡ true → is_not_empty s ≡ true
unfolding is_empty
filled_of_test [] h = absurd (cc)
filled_of_test (c ∷ s) h = refl

abbrev Filled : Text → Type 0
Filled s = is_not_empty s ≡ true

join-Filled : (sep w : Text) (ws : List Text) → Filled w → Filled (join sep (w ∷ ws))
unfolding join
join-Filled sep [] ws h = absurd (cc)
join-Filled sep (c ∷ w) [] h = refl
join-Filled sep (c ∷ w) (v ∷ ws) h = refl

All-snoc : (ws : List Text) (w : Text) → All Filled ws → Filled w → All Filled (ws ++ (w ∷ []))
All-snoc [] w h k = (k, tt)
All-snoc (v ∷ ws) w h k = (h.0, All-snoc ws w h.1 k)

module _ {Url F : Type 0} (pf : Platform Url) (fl : Float32 F) where
  append_details-Filled :
      (s : Text) (ds : List Text) → Filled s → Filled (append_details pf fl s ds)
  append_details-Filled [] ds h = absurd (cc)
  append_details-Filled (c ∷ s) [] h = refl
  append_details-Filled (c ∷ s) (d ∷ []) h = refl
  append_details-Filled (c ∷ s) (d ∷ e ∷ ds) h = refl

  -- The details are not empty.
  collect_details-Filled :
      (app : AppIdentity) (ls details seen : List Text)
      → All Filled details
      → All Filled (collect_details pf fl app ls details seen)
  unfolding collect_details
  collect_details-Filled app [] details seen h = h
  collect_details-Filled app (l ∷ ls) details seen h =
      let same = collect_details-Filled app ls details seen h in
      let P = All Filled in
      if-cases P (not (is_useful_snippet_line pf fl app l)) (λ a. same)
        (λ a.
          if-cases P (is_empty normalized) (λ b. same)
            (λ b.
              if-cases P
                (looks_like_file_inventory normalized || looks_like_json_inventory pf normalized)
                (λ c. same)
                (λ c.
                  let more =
                    if-holds P is_new
                      (All-snoc details normalized h (filled_of_test normalized (rw b refl))) h in
                  if-cases P (leb 2 (length details1)) (λ d. more)
                    (λ d. collect_details-Filled app ls details1 seen1 more))))
    where
      normalized : Text
      normalized = normalize_inline l

      is_new : Bool
      is_new = not (one_of (snippet_dedup_key pf normalized) seen)

      details1 : List Text
      details1 = if is_new then details ++ (normalized ∷ []) else details

      seen1 : List Text
      seen1 = if is_new then snippet_dedup_key pf normalized ∷ seen else seen

  -- At most 220 characters, or the application's name; empty only without a name.
  abbrev pub SnippetShape : AppIdentity → Text → Type 0
  SnippetShape app s =
      ((length s ≤ 220) ⊎ (s ≡ codes "Using " ++ trim app.name))
      × ((is_not_empty s ≡ true) ⊎ (is_empty (trim app.name) ≡ true))

  truncated : (app : AppIdentity) (s : Text) → Filled s → SnippetShape app (truncate_snippet s 220)
  truncated app s h = (inl (truncate_bound s), inl (truncate_filled s h))

  -- A fallback snippet has at most 220 characters unless it is "Using " and the application's
  -- trimmed name, and it is empty only if that name is blank.
  pub concise_fallback_snippet-SnippetShape :
      (app : AppIdentity) (window_title text : Text)
      → SnippetShape app (concise_fallback_snippet pf fl app window_title text)
  unfolding concise_fallback_snippet
  concise_fallback_snippet-SnippetShape app window_title text =
      if-cases (SnippetShape app) title_is_useful
        (λ h. truncated app _ (
          append_details-Filled title details
            (filled_of_test title ((&&_iff (not (is_empty title)) _).0 h).0)))
        (λ h. without details (collect_details-Filled app (lines text) [] seen tt))
    where
      title : Text
      title = normalize_inline (trim window_title)

      title_is_useful : Bool
      title_is_useful = not (is_empty title) && is_useful_snippet_line pf fl app title

      seen : List Text
      seen = if title_is_useful then snippet_dedup_key pf title ∷ [] else []

      details : List Text
      details = collect_details pf fl app (lines text) [] seen

      without :
          (ds : List Text)
          → All Filled ds
          → SnippetShape app (elim ds as (λ _. Text) [
            | d ∷ more ↦ truncate_snippet (join (codes " | ") (d ∷ more)) 220
            | [] ↦
                if not (is_empty title)
                then truncate_snippet title 220
                else if not (is_empty (trim app.name))
                then codes "Using " ++ trim app.name
                else []
          ])
      without (d ∷ more) k = truncated app _ (join-Filled (codes " | ") d more k.0)
      without [] k =
          if-cases (SnippetShape app) (not (is_empty title))
            (λ e. truncated app title (filled_of_test title e))
            (λ e.
              if-cases (SnippetShape app) (not (is_empty (trim app.name)))
                (λ f. (inr refl, inl refl)) (λ f. (inl (omega arith), inr (ground (arith, f)))))

-- ===== src/TextSignal/Kept.antt =====
-- The loops of cleanup.rs that keep a line when it is accepted and its key is new: what they have in
-- common.
use fndr.Prelude.{
  ◌≡◌, refl, ◌∙◌, ap, true, false, List, [], ◌∷◌, ◌++◌, Option, none, some, if◌then◌else◌, All,
  Bool-cases, inl, inr, append_assoc,
}
use fndr.Text.{Text, newline, is_empty, is_not_empty, one_of, join, split_whitespace, trim, codes}
use fndr.Text.Words.{IsLine, split_whitespace-IsWord, split_whitespace-join, trim-join, join-InLine}
use fndr.TextSignal.Lines.{normalize_inline}
use fndr.TextSignal.Clean.{push_line}

-- `push_line` for each of the lines.
abbrev pub push_lines : Text → List Text → Text
push_lines out [] = out
push_lines out (w ∷ ws) = push_lines (push_line out w) ws

push_line-filled : (out w : Text) → is_not_empty out ≡ true → push_line out w ≡ out ++ (newline ∷ w)
unfolding is_empty
push_line-filled [] w h = absurd (cc)
push_line-filled (c ∷ out) w h = refl

append-filled : (a b : Text) → is_not_empty a ≡ true → is_not_empty (a ++ b) ≡ true
append-filled [] b h = absurd (cc)
append-filled (c ∷ a) b h = refl

join-first :
    (out w : Text) (ws : List Text)
    → join (newline ∷ []) ((out ++ (newline ∷ w)) ∷ ws) ≡ join (newline ∷ []) (out ∷ w ∷ ws)
unfolding join
join-first out w [] = refl
join-first out w (v ∷ ws) = append_assoc out (newline ∷ w) _

push_lines-filled :
    (out : Text) (ws : List Text)
    → is_not_empty out ≡ true
    → push_lines out ws ≡ join (newline ∷ []) (out ∷ ws)
push_lines-filled out [] h = unfold join in refl
push_lines-filled out (w ∷ ws) h =
    ap (λ t. push_lines t ws) (push_line-filled out w h)
    ∙ push_lines-filled (out ++ (newline ∷ w)) ws (append-filled out (newline ∷ w) h)
    ∙ join-first out w ws

pub push_lines-join : (ws : List Text) → All IsLine ws → push_lines [] ws ≡ join (newline ∷ []) ws
push_lines-join [] h = unfold join in refl
push_lines-join (w ∷ ws) h = unfold is_empty in push_lines-filled w ws h.0.0

-- No key stands in `seen` or twice.
abbrev pub FreshKeys : (Text → Text) → List Text → List Text → Type 0
FreshKeys key seen [] = Unit
FreshKeys key seen (w ∷ ws) = (one_of (key w) seen ≡ false) × FreshKeys key (key w ∷ seen) ws

module _ (accept : Text → Option Text) (key : Text → Text) where
  -- The list without the line, and with it.
  abbrev pub admit_line : Option Text → List Text → List Text → (Text → List Text) → List Text
  admit_line none seen same next = same
  admit_line (some w) seen same next = if one_of (key w) seen then same else w ∷ next w

  -- The lines that are kept.
  abbrev pub kept : List Text → List Text → List Text
  kept [] seen = []
  kept (l ∷ ls) seen = admit_line (accept l) seen (kept ls seen) (λ w. kept ls (key w ∷ seen))

  pub admit_line-holds :
      (P : List Text → Type 0) (o : Option Text) (seen same : List Text) (next : Text → List Text)
      → P same
      → ((w : Text) → o ≡ some w → one_of (key w) seen ≡ false → P (w ∷ next w))
      → P (admit_line o seen same next)
  admit_line-holds P none seen same next p f = p
  admit_line-holds P (some w) seen same next p f = elim (Bool-cases (one_of (key w) seen)) [
    | inl e ↦ rw e p
    | inr e ↦ rw e (f w refl e)
  ]

  pub kept-FreshKeys : (ls seen : List Text) → FreshKeys key seen (kept ls seen)
  kept-FreshKeys [] seen = tt
  kept-FreshKeys (l ∷ ls) seen =
      admit_line-holds (FreshKeys key seen) (accept l) seen (kept ls seen)
        (λ w. kept ls (key w ∷ seen)) (kept-FreshKeys ls seen)
        (λ w e h. (h, kept-FreshKeys ls (key w ∷ seen)))

  pub kept-All :
      (P : Text → Type 0)
      → ((l w : Text) → accept l ≡ some w → P w)
      → (ls seen : List Text) → All P (kept ls seen)
  kept-All P f [] seen = tt
  kept-All P f (l ∷ ls) seen =
      admit_line-holds (All P) (accept l) seen (kept ls seen) (λ w. kept ls (key w ∷ seen))
        (kept-All P f ls seen) (λ w e h. (f l w e, kept-All P f ls (key w ∷ seen)))

  -- What has been kept is kept again.
  pub kept-kept :
      ((l w : Text) → accept l ≡ some w → accept w ≡ some w)
      → (ls seen : List Text) → kept (kept ls seen) seen ≡ kept ls seen
  kept-kept f [] seen = refl
  kept-kept f (l ∷ ls) seen =
      admit_line-holds (λ ws. kept ws seen ≡ ws) (accept l) seen (kept ls seen)
        (λ w. kept ls (key w ∷ seen)) (kept-kept f ls seen)
        (λ w e h. rw (f l w e, h) (ap (λ ws. w ∷ ws) (kept-kept f ls (key w ∷ seen))))

-- A normalized text is a normal form.
pub normalize_inline_idem :
    (s : Text) → normalize_inline (trim (normalize_inline s)) ≡ normalize_inline s
unfolding normalize_inline
normalize_inline_idem s =
    ap (λ t. join (codes " ") (split_whitespace t))
      (trim-join (split_whitespace s) (split_whitespace-IsWord s))
    ∙ ap (join (codes " ")) (split_whitespace-join (split_whitespace s) (split_whitespace-IsWord s))

pub normalize_inline-IsLine :
    (s : Text) → is_not_empty (normalize_inline s) ≡ true → IsLine (normalize_inline s)
unfolding normalize_inline
normalize_inline-IsLine s h = (h, join-InLine (split_whitespace s) (split_whitespace-IsWord s))

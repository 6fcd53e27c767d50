-- ===== src/Text/Words.antt =====
-- Words joined by single blanks, and lines joined by newlines, are found again.
use fndr.Prelude.{
  ℕ, ◌≡◌, refl, ◌∙◌, ap, Bool, true, false, List, [], ◌∷◌, ◌++◌, arith, ◌==◌, All, All-keep,
  All-append, if◌then◌else◌, ◌&&◌,
}
use fndr.Text.Defs.{
  Text, codes, newline, carriage_return, is_empty, is_not_empty, starts_with, split_on,
  split_whitespace, is_whitespace, trim, trim_start_matches, trim_end_matches, lines, join,
}
use fndr.Text.Split.{All-split_on_sep, keep-holds}

-- A word: characters, and none of them blank.
abbrev pub IsWord : Text → Type 0
IsWord w = (is_not_empty w ≡ true) × All (λ c. is_whitespace c ≡ false) w

zip_words :
    (ws : List Text)
    → All (λ w. is_not_empty w ≡ true) ws
    → All (All (λ c. is_whitespace c ≡ false)) ws
    → All IsWord ws
zip_words [] h k = tt
zip_words (w ∷ ws) h k = ((h.0, k.0), zip_words ws h.1 k.1)

pub split_whitespace-IsWord : (s : Text) → All IsWord (split_whitespace s)
unfolding split_whitespace
split_whitespace-IsWord s = zip_words _ (keep-holds is_not_empty (split_on is_whitespace s)) (
    All-keep _ is_not_empty (split_on is_whitespace s)
      (All-split_on_sep (λ c. is_whitespace c ≡ false) is_whitespace s (λ c e. e)))

if-and-false : {A : Type 0} (q : Bool) (x y : A) → (if q && false then x else y) ≡ y
if-and-false true x y = refl
if-and-false false x y = refl

module _ (p : ℕ → Bool) where
  split_on-word : (w : Text) → All (λ c. p c ≡ false) w → split_on p w ≡ w ∷ []
  unfolding split_on
  split_on-word [] h = refl
  split_on-word (c ∷ w) h = rw (h.0, split_on-word w h.1)

  split_on-append :
      (w : Text) (c : ℕ) (s : Text)
      → All (λ d. p d ≡ false) w
      → p c ≡ true
      → split_on p (w ++ c ∷ s) ≡ w ∷ split_on p s
  unfolding split_on
  split_on-append [] c s h e = rw e
  split_on-append (d ∷ w) c s h e = rw (h.0, split_on-append w c s h.1 e)

  trim_end-word : (w : Text) → All (λ c. p c ≡ false) w → trim_end_matches p w ≡ w
  unfolding trim_end_matches
  trim_end-word [] h = refl
  trim_end-word (c ∷ w) h = rw (h.0, trim_end-word w h.1)

  trim_end-append :
      (a b : Text)
      → is_not_empty b ≡ true
      → trim_end_matches p b ≡ b
      → trim_end_matches p (a ++ b) ≡ a ++ b
  unfolding trim_end_matches is_empty
  trim_end-append [] b n e = e
  trim_end-append (c ∷ a) [] n e = absurd (cc)
  trim_end-append (c ∷ []) (d ∷ b) n e = rw e (if-and-false (p c) [] (c ∷ d ∷ b))
  trim_end-append (c ∷ x ∷ a) (d ∷ b) n e =
      rw (trim_end-append (x ∷ a) (d ∷ b) n e) (if-and-false (p c) [] (c ∷ x ∷ (a ++ d ∷ b)))

abbrev one_blank : Text
one_blank = codes " "

pub split_whitespace-join :
    (ws : List Text) → All IsWord ws → split_whitespace (join one_blank ws) ≡ ws
unfolding split_whitespace join
split_whitespace-join [] h = unfold split_on in refl
split_whitespace-join (w ∷ []) h = rw (split_on-word is_whitespace w h.0.1, h.0.0)
split_whitespace-join (w ∷ v ∷ ws) h =
    rw
      (
        split_on-append is_whitespace w b' ' (join one_blank (v ∷ ws)) h.0.1
            (unfold is_whitespace in refl),
        h.0.0,
      )
      (ap (λ t. w ∷ t) (split_whitespace-join (v ∷ ws) h.1))

-- Joined words keep no blank at either end.
trim_start-join :
    (ws : List Text)
    → All IsWord ws
    → trim_start_matches is_whitespace (join one_blank ws) ≡ join one_blank ws
unfolding join trim_start_matches
trim_start-join [] h = refl
trim_start-join ([] ∷ []) h = refl
trim_start-join ((c ∷ w) ∷ []) h = rw h.0.1.0
trim_start-join ([] ∷ v ∷ ws) h = absurd (cc (h.0.0))
trim_start-join ((c ∷ w) ∷ v ∷ ws) h = rw h.0.1.0

is_not_empty-append : (a b : Text) → is_not_empty b ≡ true → is_not_empty (a ++ b) ≡ true
is_not_empty-append [] b h = h
is_not_empty-append (c ∷ a) b h = refl

join-is_not_empty :
    (w : Text) (ws : List Text)
    → All IsWord (w ∷ ws)
    → is_not_empty (join one_blank (w ∷ ws)) ≡ true
unfolding join
join-is_not_empty w [] h = h.0.0
join-is_not_empty [] (v ∷ ws) h = absurd (cc (h.0.0))
join-is_not_empty (c ∷ w) (v ∷ ws) h = refl

trim_end-join :
    (ws : List Text)
    → All IsWord ws
    → trim_end_matches is_whitespace (join one_blank ws) ≡ join one_blank ws
unfolding join
trim_end-join [] h = unfold trim_end_matches in refl
trim_end-join (w ∷ []) h = trim_end-word is_whitespace w h.0.1
trim_end-join (w ∷ v ∷ ws) h =
    trim_end-append is_whitespace w (one_blank ++ join one_blank (v ∷ ws)) refl (
      trim_end-append is_whitespace one_blank (join one_blank (v ∷ ws)) (join-is_not_empty v ws h.1)
        (trim_end-join (v ∷ ws) h.1))

pub trim-join : (ws : List Text) → All IsWord ws → trim (join one_blank ws) ≡ join one_blank ws
unfolding trim
trim-join ws h = ap (trim_end_matches is_whitespace) (trim_start-join ws h) ∙ trim_end-join ws h

-- A line: characters that end no line, at least one.
abbrev InLine : ℕ → Type 0
InLine c = ((c == newline) ≡ false) × ((c == carriage_return) ≡ false)

abbrev pub IsLine : Text → Type 0
IsLine w = (is_not_empty w ≡ true) × All InLine w

lines-line : (w : Text) → IsLine w → lines w ≡ w ∷ []
unfolding lines starts_with
lines-line [] h = absurd (cc (h.0))
lines-line (c ∷ []) h = rw (h.1.0.0, h.1.0.1)
lines-line (c ∷ d ∷ w) h = rw (h.1.0.0, h.1.0.1, lines-line (d ∷ w) (refl, h.1.1))

lines-append : (w s : Text) → All InLine w → lines (w ++ newline ∷ s) ≡ w ∷ lines s
unfolding lines starts_with
lines-append [] s h = refl
lines-append (c ∷ w) s h = rw (h.0.0, h.0.1, lines-append w s h.1)

pub lines-join : (ws : List Text) → All IsLine ws → lines (join (newline ∷ []) ws) ≡ ws
unfolding join
lines-join [] h = unfold lines in refl
lines-join (w ∷ []) h = lines-line w h.0
lines-join (w ∷ v ∷ ws) h =
    lines-append w (join (newline ∷ []) (v ∷ ws)) h.0.1 ∙ ap (λ t. w ∷ t) (lines-join (v ∷ ws) h.1)

InLine-whitespace : (c : ℕ) → is_whitespace c ≡ false → InLine c
unfolding is_whitespace
InLine-whitespace c h = ground arith

All-InLine : (w : Text) → All (λ c. is_whitespace c ≡ false) w → All InLine w
All-InLine [] h = tt
All-InLine (c ∷ w) h = (InLine-whitespace c h.0, All-InLine w h.1)

pub join-InLine : (ws : List Text) → All IsWord ws → All InLine (join one_blank ws)
unfolding join
join-InLine [] h = tt
join-InLine (w ∷ []) h = All-InLine w h.0.1
join-InLine (w ∷ v ∷ ws) h =
    All-append InLine w (b' ' ∷ join one_blank (v ∷ ws)) (All-InLine w h.0.1)
      ((refl, refl), join-InLine (v ∷ ws) h.1)

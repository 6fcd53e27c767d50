-- ===== src/Text/Lines.antt =====
-- Lines, joined texts and letter case, as the searches see them.
use fndr.Prelude.{
  ℕ, ◌≡◌, refl, sym, ◌∙◌, ap, true, false, ◌||◌, List, [], ◌∷◌, ◌++◌, map, arith, ◌==◌, any,
}
use mathlib.Core.List.{map-append}
use fndr.Text.Defs.{
  Text, newline, carriage_return, starts_with, contains, is_not_empty, lower_char,
  to_ascii_lowercase, lines, join, push_head,
}
use fndr.Text.Search.{Lacks, contains_at, contains-nil}

-- A pattern that can only be found inside one line.
pub record IsLinePattern (p : Text) : Type 0 where
  pub filled : is_not_empty p ≡ true
  pub no_newline : Lacks newline p
  pub no_return : Lacks carriage_return p

-- `join` with newlines, searched for a pattern of one line.
pub contains-join :
    (ls : List Text) (p : Text)
    → IsLinePattern p
    → contains (join (newline ∷ []) ls) p ≡ any (λ l. contains l p) ls
unfolding join
contains-join [] p h = contains-nil p h.filled
contains-join (l ∷ []) p h = ground arith
contains-join (l ∷ k ∷ ls) p h =
    contains_at l (join (newline ∷ []) (k ∷ ls)) p newline h.no_newline
    ∙ ap (λ t. contains l p || t) (contains-join (k ∷ ls) p h)

-- The first line, as far as a pattern of one line can see.
head_line : List Text → Text
head_line [] = []
head_line (l ∷ ls) = l

head_line-push_head : (c : ℕ) (ls : List Text) → head_line (push_head c ls) ≡ c ∷ head_line ls
unfolding head_line
head_line-push_head c [] = refl
head_line-push_head c (l ∷ ls) = refl

Lacks-head : (c d : ℕ) (p s : Text) → Lacks c (d ∷ p) → starts_with (c ∷ s) (d ∷ p) ≡ false
unfolding starts_with
Lacks-head c d p s h = ground arith

head_line-lines :
    (s p : Text)
    → Lacks newline p
    → Lacks carriage_return p
    → starts_with (head_line (lines s)) p ≡ starts_with s p
unfolding starts_with lines head_line
head_line-lines s [] h k = ground arith
head_line-lines [] (d ∷ p) h k = refl
head_line-lines (c ∷ s) (d ∷ p) h k =
    ground (arith, head_line-lines s p h.1 k.1, head_line-push_head c (lines s))

any-push_head :
    (c : ℕ) (ls : List Text) (p : Text)
    → is_not_empty p ≡ true
    → any (λ l. contains l p) (push_head c ls)
      ≡ (starts_with (c ∷ head_line ls) p || any (λ l. contains l p) ls)
unfolding contains head_line starts_with
any-push_head c [] [] h = absurd (cc)
any-push_head c [] (d ∷ p) h = ground arith
any-push_head c (l ∷ ls) p h = ground arith

-- A pattern of one line is in a text exactly if it is in one of the lines.
pub contains-lines :
    (s p : Text) → IsLinePattern p → any (λ l. contains l p) (lines s) ≡ contains s p
unfolding lines contains starts_with
contains-lines [] p h = sym (contains-nil p h.filled)
contains-lines (c ∷ s) [] h = absurd (cc (h.filled))
contains-lines (c ∷ s) (d ∷ p) h = ground (
  arith,
  contains-lines s (d ∷ p) h,
  any-push_head c (lines s) (d ∷ p) refl,
  head_line-lines s p h.no_newline.1 h.no_return.1,
)

lower_char-newline : (c : ℕ) → (lower_char c == newline) ≡ (c == newline)
unfolding lower_char
lower_char-newline c = ground arith

lower_char-return : (c : ℕ) → (lower_char c == carriage_return) ≡ (c == carriage_return)
unfolding lower_char
lower_char-return c = ground arith

map-push_head :
    (c : ℕ) (ls : List Text)
    → map (map lower_char) (push_head c ls) ≡ push_head (lower_char c) (map (map lower_char) ls)
map-push_head c [] = refl
map-push_head c (l ∷ ls) = refl

starts_with-newline :
    (s : Text) → starts_with (map lower_char s) (newline ∷ []) ≡ starts_with s (newline ∷ [])
unfolding starts_with
starts_with-newline [] = refl
starts_with-newline (c ∷ s) = ground (arith, lower_char-newline c)

-- Lower case keeps the lines.
pub lines-to_ascii_lowercase :
    (s : Text) → lines (to_ascii_lowercase s) ≡ map to_ascii_lowercase (lines s)
unfolding lines to_ascii_lowercase
lines-to_ascii_lowercase [] = refl
lines-to_ascii_lowercase (c ∷ s) = ground (
  arith,
  lines-to_ascii_lowercase s,
  lower_char-newline c,
  lower_char-return c,
  map-push_head c (lines s),
  starts_with-newline s,
)

pub to_ascii_lowercase-join :
    (ls : List Text)
    → to_ascii_lowercase (join (newline ∷ []) ls) ≡ join (newline ∷ []) (map to_ascii_lowercase ls)
unfolding to_ascii_lowercase join
to_ascii_lowercase-join [] = refl
to_ascii_lowercase-join (l ∷ []) = refl
to_ascii_lowercase-join (l ∷ k ∷ ls) =
    map-append lower_char l _
    ∙ ap (λ t. map lower_char l ++ newline ∷ t) (to_ascii_lowercase-join (k ∷ ls))

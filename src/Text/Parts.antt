-- ===== src/Text/Parts.antt =====
-- Parts of a text: what is found in a part is found in the whole.
use fndr.Prelude.{
  append_assoc, append-nil, ℕ, ◌≡◌, refl, sym, ◌∙◌, ap, Bool, true, ◌&&◌, List, [], ◌∷◌, ◌++◌, map,
  take, drop, All, Bool-cases, inl, inr, take-append-drop,
}
use mathlib.Core.List.{map-append}
use fndr.Text.Defs.{
  Text, is_empty, contains, to_ascii_lowercase, lower_char, trim, trim_start_matches,
  trim_end_matches, is_whitespace, split_on, push_head,
}
use fndr.Text.Search.{contains-append, contains_sound}

abbrev pub PartOf : Text → Text → Type 0
PartOf s a = (x : Text) × (y : Text) × (s ≡ x ++ (a ++ y))

pub part_refl : (s : Text) → PartOf s s
part_refl s = ([], [], sym (append-nil s))

pub part_trans : (s a b : Text) → PartOf s a → PartOf a b → PartOf s b
part_trans s a b (x, y, e) (u, v, f) = (
  x ++ u,
  v ++ y,
  e
      ∙ ap (λ t. x ++ (t ++ y)) f
      ∙ ap (λ t. x ++ t) (append_assoc u (b ++ v) y ∙ ap (λ t. u ++ t) (append_assoc b v y))
      ∙ sym (append_assoc x u (b ++ (v ++ y))),
)

pub part_cons : (c : ℕ) (s a : Text) → PartOf s a → PartOf (c ∷ s) a
part_cons c s a (x, y, e) = (c ∷ x, y, ap (λ t. c ∷ t) e)

pub part_take : (n : ℕ) (s : Text) → PartOf s (take n s)
part_take n s = ([], drop n s, sym (take-append-drop n s))

part_trim_start : (p : ℕ → Bool) (s : Text) → PartOf s (trim_start_matches p s)
unfolding trim_start_matches
part_trim_start p [] = ([], [], refl)
part_trim_start p (c ∷ s) = elim (Bool-cases (p c)) [
  | inl e ↦ rw e (part_cons c s _ (part_trim_start p s))
  | inr e ↦ rw e (part_refl (c ∷ s))
]

-- A prefix, with the rest.
abbrev Prefix : Text → Text → Type 0
Prefix s a = (y : Text) × (s ≡ a ++ y)

prefix_trim_end : (p : ℕ → Bool) (s : Text) → Prefix s (trim_end_matches p s)
unfolding trim_end_matches
prefix_trim_end p [] = ([], refl)
prefix_trim_end p (c ∷ s) =
    let (y, e) = prefix_trim_end p s in
    elim (Bool-cases (p c && is_empty (trim_end_matches p s))) [
      | inl h ↦ rw h (c ∷ s, refl)
      | inr h ↦ rw h (y, ap (λ t. c ∷ t) e)
    ]

pub part_trim : (s : Text) → PartOf s (trim s)
unfolding trim
part_trim s =
    let (y, e) = prefix_trim_end is_whitespace (trim_start_matches is_whitespace s) in
    part_trans s _ _ (part_trim_start is_whitespace s) ([], y, e)

All-part_cons : (c : ℕ) (s : Text) (ws : List Text) → All (PartOf s) ws → All (PartOf (c ∷ s)) ws
All-part_cons c s [] h = tt
All-part_cons c s (w ∷ ws) h = (part_cons c s w h.0, All-part_cons c s ws h.1)

-- The first piece of a split is a prefix, and each piece is a part.
abbrev HeadPrefix : Text → List Text → Type 0
HeadPrefix s [] = Unit
HeadPrefix s (w ∷ ws) = Prefix s w

All-push_head :
    (c : ℕ) (s : Text) (ws : List Text)
    → HeadPrefix s ws
    → All (PartOf s) ws
    → HeadPrefix (c ∷ s) (push_head c ws) × All (PartOf (c ∷ s)) (push_head c ws)
All-push_head c s [] h k = ((s, refl), (([], s, refl), tt))
All-push_head c s (w ∷ ws) (y, e) k =
    ((y, ap (λ t. c ∷ t) e), (([], y, ap (λ t. c ∷ t) e), All-part_cons c s ws k.1))

split_on-both :
    (p : ℕ → Bool) (s : Text) → HeadPrefix s (split_on p s) × All (PartOf s) (split_on p s)
unfolding split_on
split_on-both p [] = (([], refl), (([], [], refl), tt))
split_on-both p (c ∷ s) = elim (Bool-cases (p c)) [
  | inl e ↦ rw e ((c ∷ s, refl), (([], c ∷ s, refl), All-part_cons c s _ (split_on-both p s).1))
  | inr e ↦ rw e (All-push_head c s _ (split_on-both p s).0 (split_on-both p s).1)
]

pub parts_split_on : (p : ℕ → Bool) (s : Text) → All (PartOf s) (split_on p s)
parts_split_on p s = (split_on-both p s).1

-- The search ignores what is around the part.
pub contains-part :
    (s a p : Text)
    → PartOf s a
    → contains (to_ascii_lowercase a) p ≡ true
    → contains (to_ascii_lowercase s) p ≡ true
unfolding to_ascii_lowercase
contains-part s a p (x, y, e) h =
    let (u, v, f) = contains_sound (map lower_char a) p h in
    let (l, r, q) =
      part_trans (map lower_char s) (map lower_char a) p
        (
          map lower_char x,
          map lower_char y,
          ap (map lower_char) e
              ∙ map-append lower_char x (a ++ y)
              ∙ ap (λ t. map lower_char x ++ t) (map-append lower_char a y),
        )
        (u, v, f) in
    rw q (contains-append l p r)

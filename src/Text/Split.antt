-- ===== src/Text/Split.antt =====
-- What the pieces of a split text hold.
use fndr.Prelude.{
  ℕ, ◌≡◌, ◌≢◌, Bool, true, false, List, [], ◌∷◌, Option, none, some, arith, ◌==◌, All, keep,
  Bool-cases, inl, inr, map_option, unwrap_or,
}
use fndr.Text.Defs.{Text, split_on, split_once, first, push_head}

module _ (Q : ℕ → Type 0) where
  All-push_head : (c : ℕ) (ws : List Text) → Q c → All (All Q) ws → All (All Q) (push_head c ws)
  All-push_head c [] q h = ((q, tt), tt)
  All-push_head c (w ∷ ws) q h = ((q, h.0), h.1)

  -- Pieces hold characters of the text.
  pub All-split_on : (p : ℕ → Bool) (s : Text) → All Q s → All (All Q) (split_on p s)
  unfolding split_on
  All-split_on p [] h = (tt, tt)
  All-split_on p (c ∷ s) h = elim (Bool-cases (p c)) [
    | inl e ↦ rw e (tt, All-split_on p s h.1)
    | inr e ↦ rw e (All-push_head c (split_on p s) h.0 (All-split_on p s h.1))
  ]

  -- … and none that separates them.
  pub All-split_on_sep :
      (p : ℕ → Bool) (s : Text) → ((c : ℕ) → p c ≡ false → Q c) → All (All Q) (split_on p s)
  unfolding split_on
  All-split_on_sep p [] f = (tt, tt)
  All-split_on_sep p (c ∷ s) f = elim (Bool-cases (p c)) [
    | inl e ↦ rw e (tt, All-split_on_sep p s f)
    | inr e ↦ rw e (All-push_head c (split_on p s) (f c e) (All-split_on_sep p s f))
  ]

  pub All-first : (ws : List Text) → All (All Q) ws → All Q (unwrap_or [] (first ws))
  All-first [] h = tt
  All-first (w ∷ ws) h = h.0

  abbrev pub AllBoth : Option (Text × Text) → Type 0
  AllBoth none = Unit
  AllBoth (some (a, b)) = All Q a × All Q b

  both_step :
      (d : ℕ) (o : Option (Text × Text))
      → Q d
      → AllBoth o
      → AllBoth (map_option (λ (a, b). (d ∷ a, b)) o)
  both_step d none q h = tt
  both_step d (some (a, b)) q h = ((q, h.0), h.1)

  pub All-split_once : (c : ℕ) (s : Text) → All Q s → AllBoth (split_once c s)
  unfolding split_once
  All-split_once c [] h = tt
  All-split_once c (d ∷ s) h = elim (Bool-cases (d == c)) [
    | inl e ↦ rw e (tt, h.1)
    | inr e ↦ rw e (both_step d (split_once c s) h.0 (All-split_once c s h.1))
  ]

-- The part before the separator does not hold it, and without a separator the text does not.
abbrev pub Cut : ℕ → Text → Option (Text × Text) → Type 0
Cut c s none = All (λ d. d ≢ c) s
Cut c s (some (a, b)) = All (λ d. d ≢ c) a

Cut-step :
    (c d : ℕ) (s : Text) (o : Option (Text × Text))
    → d ≢ c
    → Cut c s o
    → Cut c (d ∷ s) (map_option (λ (a, b). (d ∷ a, b)) o)
Cut-step c d s none n h = (n, h)
Cut-step c d s (some (a, b)) n h = (n, h)

pub split_once-Cut : (c : ℕ) (s : Text) → Cut c s (split_once c s)
unfolding split_once
split_once-Cut c [] = tt
split_once-Cut c (d ∷ s) = elim (Bool-cases (d == c)) [
  | inl e ↦ rw e tt
  | inr e ↦ rw e (Cut-step c d s (split_once c s) (ground arith) (split_once-Cut c s))
]

pub keep-holds : {A : Type 0} (p : A → Bool) (xs : List A) → All (λ x. p x ≡ true) (keep p xs)
keep-holds p [] = tt
keep-holds p (x ∷ xs) = elim (Bool-cases (p x)) [
  | inl e ↦ rw e (e, keep-holds p xs)
  | inr e ↦ rw e (keep-holds p xs)
]

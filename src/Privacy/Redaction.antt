-- ===== src/Privacy/Redaction.antt =====
-- What `redact_secret_lines` guarantees.
use fndr.Prelude.{
  ℕ, suc, ◌+◌, ◌<◌, ◌≡◌, refl, sym, ◌∙◌, ap, ◌↔◌, Bool, true, false, ◌||◌, List, [], ◌∷◌, map,
  arith, if◌then◌else◌, any, keep, All, length, Bool-cases, inl, inr,
}
use fndr.Text.{Text, newline, contains, lines, join, to_ascii_lowercase}
use fndr.Text.Lines.{
  IsLinePattern, contains-join, contains-lines, lines-to_ascii_lowercase, to_ascii_lowercase-join,
}
use fndr.Privacy.SafetyGate.{
  contains_secret_pattern, redaction_marker, redact_lines, redact_secret_lines_matching,
}

-- Some line holds a secret pattern.
abbrev pub secret_line : List Text → List Text → Bool
secret_line patterns = any (λ l. contains_secret_pattern l patterns)

any-false {ℓ} :
    {A : Type ℓ} (p : A → Bool) (xs : List A) → ((a : A) → p a ≡ false) → any p xs ≡ false
any-false p [] h = refl
any-false p (x ∷ xs) h = rw (h x) (any-false p xs h)

any-or {ℓ} :
    {A : Type ℓ} (p q : A → Bool) (xs : List A) → any (λ x. p x || q x) xs ≡ (any p xs || any q xs)
any-or p q [] = refl
any-or p q (x ∷ xs) = ground (arith, any-or p q xs)

any-map {ℓ κ} :
    {A : Type ℓ} {B : Type κ} (p : B → Bool) (f : A → B) (xs : List A)
    → any p (map f xs) ≡ any (λ x. p (f x)) xs
any-map p f [] = refl
any-map p f (x ∷ xs) = ap (λ t. p (f x) || t) (any-map p f xs)

-- A text made of lines holds a pattern exactly if one of its lines does: for joined lines …
secret-join :
    (ls patterns : List Text)
    → All IsLinePattern patterns
    → contains_secret_pattern (join (newline ∷ []) ls) patterns ≡ secret_line patterns ls
unfolding contains_secret_pattern
secret-join ls [] h = sym (any-false _ ls (λ l. refl))
secret-join ls (p ∷ ps) h =
    ap (λ t. contains t p || any (λ q. contains (to_ascii_lowercase (join (newline ∷ []) ls)) q) ps)
      (to_ascii_lowercase-join ls)
    ∙ ap (λ t. t || any (λ q. contains (to_ascii_lowercase (join (newline ∷ []) ls)) q) ps)
        (contains-join (map to_ascii_lowercase ls) p h.0
          ∙ any-map (λ l. contains l p) to_ascii_lowercase ls)
    ∙ ap (λ t. any (λ l. contains (to_ascii_lowercase l) p) ls || t) (secret-join ls ps h.1)
    ∙ sym (any-or (λ l. contains (to_ascii_lowercase l) p) _ ls)

-- … and for the lines of a text.
pub secret-lines :
    (text : Text) (patterns : List Text)
    → All IsLinePattern patterns
    → contains_secret_pattern text patterns ≡ secret_line patterns (lines text)
unfolding contains_secret_pattern
secret-lines text [] h = sym (any-false _ (lines text) (λ l. refl))
secret-lines text (p ∷ ps) h =
    ap (λ t. t || any (λ q. contains (to_ascii_lowercase text) q) ps)
      (sym (contains-lines (to_ascii_lowercase text) p h.0)
        ∙ ap (any (λ l. contains l p)) (lines-to_ascii_lowercase text)
        ∙ any-map (λ l. contains l p) to_ascii_lowercase (lines text))
    ∙ ap (λ t. any (λ l. contains (to_ascii_lowercase l) p) (lines text) || t)
        (secret-lines text ps h.1)
    ∙ sym (any-or (λ l. contains (to_ascii_lowercase l) p) _ (lines text))

-- One line, by itself.
abbrev pub redacted_line : List Text → Text → Text
redacted_line patterns l = if contains_secret_pattern l patterns then redaction_marker else l

abbrev pub secrets : List Text → List Text → List Text
secrets patterns = keep (λ l. contains_secret_pattern l patterns)

redact_lines-eq-map :
    (patterns ls : List Text) (n : ℕ)
    → redact_lines patterns ls n
      ≡ (map (redacted_line patterns) ls, n + length (secrets patterns ls))
unfolding redact_lines
redact_lines-eq-map patterns [] n = ground arith
redact_lines-eq-map patterns (l ∷ ls) n = elim (Bool-cases (contains_secret_pattern l patterns)) [
  | inl e ↦ rw (e, redact_lines-eq-map patterns ls (suc n)) (ground arith)
  | inr e ↦ rw (e, redact_lines-eq-map patterns ls n) refl
]

secret_line-map :
    (patterns ls : List Text)
    → contains_secret_pattern redaction_marker patterns ≡ false
    → secret_line patterns (map (redacted_line patterns) ls) ≡ false
secret_line-map patterns [] h = refl
secret_line-map patterns (l ∷ ls) h = elim (Bool-cases (contains_secret_pattern l patterns)) [
  | inl e ↦ rw (e, h) (secret_line-map patterns ls h)
  | inr e ↦ rw (e, e) (secret_line-map patterns ls h)
]

-- Redaction replaces each line that holds a secret pattern by the marker, keeps every other line in
-- its place, and counts the lines that it replaced.
pub redact_secret_lines_matching-eq-map :
    (text : Text) (patterns : List Text)
    → redact_secret_lines_matching text patterns ≡ (
      join (newline ∷ []) (map (redacted_line patterns) (lines text)),
      length (secrets patterns (lines text)),
    )
unfolding redact_secret_lines_matching
redact_secret_lines_matching-eq-map text patterns =
    rw (redact_lines-eq-map patterns (lines text) 0) (ground arith)

-- If no pattern spans lines and the marker holds none, a redacted text holds no secret pattern.
pub contains_secret_pattern-redact_secret_lines :
    (text : Text) (patterns : List Text)
    → All IsLinePattern patterns
    → contains_secret_pattern redaction_marker patterns ≡ false
    → contains_secret_pattern (redact_secret_lines_matching text patterns).0 patterns ≡ false
contains_secret_pattern-redact_secret_lines text patterns h m =
    rw (redact_secret_lines_matching-eq-map text patterns, secret-join _ patterns h)
      (secret_line-map patterns (lines text) m)

length-secrets :
    (patterns ls : List Text)
    → (0 < length (secrets patterns ls)) ↔ (secret_line patterns ls ≡ true)
length-secrets patterns [] = (λ h. absurd (omega arith), λ h. absurd (cc))
length-secrets patterns (l ∷ ls) = ground (arith, length-secrets patterns ls)

-- If no pattern spans lines, redaction replaces a line exactly when the whole text tests positive:
-- a decision to redact always removes something, and nothing is removed without one.
pub redaction_count_iff :
    (text : Text) (patterns : List Text)
    → All IsLinePattern patterns
    → (0 < (redact_secret_lines_matching text patterns).1)
      ↔ (contains_secret_pattern text patterns ≡ true)
redaction_count_iff text patterns h =
    rw (redact_secret_lines_matching-eq-map text patterns, secret-lines text patterns h)
      (length-secrets patterns (lines text))

-- ===== src/Memory/Symmetry.antt =====
-- crates/fndr-memory/src/continuity.rs: which of two captures is the incoming one does not matter.
use fndr.Prelude.{
  ℕ, ◌+◌, ◌≡◌, refl, sym, ◌∙◌, ap, Bool, true, false, not, ◌||◌, List, [], ◌∷◌, Option, none, some,
  if◌then◌else◌, arith, length, keep, Bool-ext, subst, if-cases,
}
use fndr.Text.{Text, text_eq, one_of}
use fndr.Text.Search.{text_eq_refl, eq_of_text_eq}
use fndr.Platform.{Platform, Float32}
use fndr.Memory.Anchor.{ContinuityRecord, domain, words, matching_effective_url, continuity_anchor}
use fndr.Memory.Score.{
  ContinuityScore, trim_chars, distinct, is_empty_list, both_equal, time_distance, tokenize,
  token_overlap, lexical_score, score_candidate, allows_cross_app_merge, should_merge,
}

text_eq-sym : (s t : Text) → text_eq s t ≡ text_eq t s
text_eq-sym s t = Bool-ext _ _ (flip s t) (flip t s)
  where
    flip : (a b : Text) → text_eq a b ≡ true → text_eq b a ≡ true
    flip a b h = rw (eq_of_text_eq a b h) (text_eq_refl b)

both_equal-sym : (a b : Option Text) → both_equal a b ≡ both_equal b a
both_equal-sym none none = refl
both_equal-sym none (some t) = refl
both_equal-sym (some s) none = refl
both_equal-sym (some s) (some t) = text_eq-sym s t

-- No token is listed twice.
abbrev Fresh : List Text → Type 0
Fresh [] = Unit
Fresh (t ∷ ts) = (one_of t ts ≡ false) × Fresh ts

distinct-one_of : (t : Text) (ts : List Text) → one_of t (distinct ts) ≡ one_of t ts
unfolding distinct
distinct-one_of t [] = refl
distinct-one_of t (u ∷ us) =
    if-cases (λ ws. one_of t ws ≡ one_of t (u ∷ us)) (one_of u us)
      (λ e. ground (arith, distinct-one_of t us, present u t us e))
      (λ e. ap (λ b. text_eq t u || b) (distinct-one_of t us))
  where
    present :
        (u t : Text) (us : List Text) → one_of u us ≡ true → text_eq t u ≡ true → one_of t us ≡ true
    present u t us e h = subst (λ w. one_of w us ≡ true) (sym (eq_of_text_eq t u h)) e

distinct-Fresh : (ts : List Text) → Fresh (distinct ts)
unfolding distinct
distinct-Fresh [] = tt
distinct-Fresh (t ∷ ts) =
    if-cases Fresh (one_of t ts) (λ e. distinct-Fresh ts)
      (λ e. (distinct-one_of t ts ∙ e, distinct-Fresh ts))

abbrev how_many : (Text → Bool) → List Text → ℕ
how_many p ts = length (keep p ts)

how_many-eq :
    (t : Text) (ts : List Text)
    → Fresh ts
    → how_many (λ r. text_eq r t) ts ≡ (if one_of t ts then 1 else 0)
how_many-eq t [] h = refl
how_many-eq t (u ∷ ts) h = ground (
  arith,
  how_many-eq t ts h.1,
  text_eq-sym t u,
  λ (e : text_eq u t ≡ true). subst (λ w. one_of w ts ≡ false) (eq_of_text_eq u t e) h.0,
)

how_many-or :
    (t : Text) (ls ts : List Text)
    → one_of t ls ≡ false
    → how_many (λ r. text_eq r t || one_of r ls) ts
      ≡ how_many (λ r. text_eq r t) ts + how_many (λ r. one_of r ls) ts
how_many-or t ls [] h = omega arith
how_many-or t ls (u ∷ ts) h = ground (
  arith,
  how_many-or t ls ts h,
  λ (e : text_eq u t ≡ true). subst (λ w. one_of w ls ≡ false) (sym (eq_of_text_eq u t e)) h,
)

how_many-none : (ts : List Text) → how_many (λ r. false) ts ≡ 0
how_many-none [] = refl
how_many-none (t ∷ ts) = how_many-none ts

-- What two sets share is counted alike from either side.
shared-sym :
    (ls rs : List Text)
    → Fresh ls
    → Fresh rs
    → how_many (λ t. one_of t rs) ls ≡ how_many (λ t. one_of t ls) rs
shared-sym [] rs h k = sym (how_many-none rs)
shared-sym (t ∷ ls) rs h k =
    ground (arith, shared-sym ls rs h.1 k, how_many-or t ls rs h.0, how_many-eq t rs k)

how_many-not :
    (p : Text → Bool) (ts : List Text) → length ts ≡ how_many p ts + how_many (λ t. not (p t)) ts
how_many-not p [] = omega arith
how_many-not p (t ∷ ts) = ground (arith, how_many-not p ts)

is_empty_list-or-sym :
    (ls rs : List Text)
    → (is_empty_list ls || is_empty_list rs) ≡ (is_empty_list rs || is_empty_list ls)
is_empty_list-or-sym ls rs = ground (arith)

-- So is what they have together.
union-sym :
    (ls rs : List Text)
    → Fresh ls
    → Fresh rs
    → length ls + how_many (λ t. not (one_of t ls)) rs
      ≡ length rs + how_many (λ t. not (one_of t rs)) ls
union-sym ls rs h k = omega (
  arith,
  shared-sym ls rs h k,
  how_many-not (λ t. one_of t rs) ls,
  how_many-not (λ t. one_of t ls) rs,
)

time_distance-sym : (a b : ContinuityRecord) → time_distance a b ≡ time_distance b a
time_distance-sym a b = omega arith

module _ {Url F : Type 0} (pf : Platform Url) (fl : Float32 F) where
  token_overlap-sym : (s t : Text) → token_overlap pf fl s t ≡ token_overlap pf fl t s
  unfolding token_overlap tokenize
  token_overlap-sym s t =
      let ls = distinct (words pf s) in
      let rs = distinct (words pf t) in
      let h = distinct-Fresh (words pf s) in
      let k = distinct-Fresh (words pf t) in
      rw (is_empty_list-or-sym ls rs) (rw (shared-sym ls rs h k) (rw (union-sym ls rs h k) refl))

  lexical_score-sym : (a b : ContinuityRecord) → lexical_score pf fl a b ≡ lexical_score pf fl b a
  unfolding lexical_score
  lexical_score-sym a b =
      rw
        (
          lexical_score,
          token_overlap-sym a.snippet b.snippet,
          token_overlap-sym a.window_title b.window_title,
          token_overlap-sym (trim_chars a.text 1000) (trim_chars b.text 1000),
          token_overlap-sym a.lexical_shadow b.lexical_shadow,
        )
        refl

  matching_effective_url-sym :
      (a b : Option Text) → matching_effective_url pf a b ≡ matching_effective_url pf b a
  unfolding matching_effective_url
  matching_effective_url-sym none none = refl
  matching_effective_url-sym none (some t) = refl
  matching_effective_url-sym (some s) none = refl
  matching_effective_url-sym (some s) (some t) = text_eq-sym _ _

  score_candidate-sym :
      (a b : ContinuityRecord) (v : F) → score_candidate pf fl a b v ≡ score_candidate pf fl b a v
  unfolding score_candidate
  score_candidate-sym a b v = rw (lexical_score-sym a b) (
      rw (both_equal-sym (continuity_anchor pf a) (continuity_anchor pf b))
        (rw (both_equal-sym (domain a.url) (domain b.url)) refl))

  allows_cross_app_merge-sym :
      (a b : ContinuityRecord) (s : ContinuityScore F)
      → allows_cross_app_merge pf fl a b s ≡ allows_cross_app_merge pf fl b a s
  unfolding allows_cross_app_merge
  allows_cross_app_merge-sym a b s = rw (time_distance-sym a b) (
      rw (matching_effective_url-sym a.url b.url)
        (rw (both_equal-sym (domain a.url) (domain b.url)) refl))

  should_merge-sym :
      (incoming other : ContinuityRecord) (vector_similarity : F)
      → should_merge pf fl incoming other vector_similarity
        ≡ should_merge pf fl other incoming vector_similarity
  unfolding should_merge
  should_merge-sym a b v = rw (score_candidate-sym a b v) (
      rw (allows_cross_app_merge-sym a b (score_candidate pf fl b a v))
        (rw (text_eq-sym a.app_name b.app_name) (ground arith)))

  scored :
      (a b : ContinuityRecord) (v : F) (s : ContinuityScore F)
      → should_merge pf fl a b v ≡ some s
      → s ≡ score_candidate pf fl a b v
  unfolding should_merge
  scored a b v s h = ground arith

  -- If two captures are found to belong to one story, then they are also found to with the other one
  -- as the incoming one; the score is the same, and that of the pair in either order.
  pub should_merge-swap :
      (incoming other : ContinuityRecord) (vector_similarity : F) (s : ContinuityScore F)
      → should_merge pf fl incoming other vector_similarity ≡ some s
      → (should_merge pf fl other incoming vector_similarity ≡ some s)
        × (s ≡ score_candidate pf fl incoming other vector_similarity)
        × (s ≡ score_candidate pf fl other incoming vector_similarity)
  should_merge-swap a b v s h =
      let back = should_merge-sym b a v ∙ h in (back, scored a b v s h, scored b a v s back)

-- ===== src/Text/Search.antt =====
-- What the searches of `str` decide.
use fndr.Prelude.{
  ℕ, ◌≡◌, ◌≢◌, refl, ap, ◌↔◌, inl, inr, true, false, ◌||◌, [], ◌∷◌, ◌++◌, arith, ◌==◌, ==_iff,
  ==_refl, &&_iff, ||_elim, All,
}
use fndr.Text.Defs.{Text, text_eq, starts_with, contains, ends_with, is_not_empty}

pub text_eq_refl : (s : Text) → text_eq s s ≡ true
unfolding text_eq
text_eq_refl [] = refl
text_eq_refl (c ∷ s) = rw (==_refl c) (text_eq_refl s)

pub eq_of_text_eq : (s t : Text) → text_eq s t ≡ true → s ≡ t
unfolding text_eq
eq_of_text_eq [] [] h = refl
eq_of_text_eq [] (d ∷ t) h = absurd (cc)
eq_of_text_eq (c ∷ s) [] h = absurd (cc)
eq_of_text_eq (c ∷ s) (d ∷ t) h = ground (arith, eq_of_text_eq s t)

pub text_eq_iff : (s t : Text) → (text_eq s t ≡ true) ↔ (s ≡ t)
text_eq_iff s t = (eq_of_text_eq s t, λ e. rw e (text_eq_refl t))

pub starts_with-append : (p r : Text) → starts_with (p ++ r) p ≡ true
unfolding starts_with
starts_with-append [] r = refl
starts_with-append (c ∷ p) r = rw (==_refl c) (starts_with-append p r)

pub starts_with_sound : (s p : Text) → starts_with s p ≡ true → (r : Text) × (s ≡ p ++ r)
unfolding starts_with
starts_with_sound s [] h = (s, refl)
starts_with_sound [] (c ∷ p) h = absurd (cc)
starts_with_sound (d ∷ s) (c ∷ p) h =
    let (e, q) = (&&_iff (d == c) (starts_with s p)).0 h in
    let (r, f) = starts_with_sound s p q in (r, cc ((==_iff d c).0 e))

pub ends_with-append : (a p : Text) → ends_with (a ++ p) p ≡ true
unfolding ends_with
ends_with-append [] [] = text_eq_refl []
ends_with-append [] (c ∷ p) = rw (text_eq_refl (c ∷ p))
ends_with-append (c ∷ a) p = ground (arith, ends_with-append a p)

pub ends_with_sound : (s p : Text) → ends_with s p ≡ true → (a : Text) × (s ≡ a ++ p)
unfolding ends_with
ends_with_sound [] p h = ([], eq_of_text_eq [] p h)
ends_with_sound (c ∷ s) p h = elim (||_elim (text_eq (c ∷ s) p) (ends_with s p) h) [
  | inl e ↦ ([], eq_of_text_eq (c ∷ s) p e)
  | inr e ↦ let (a, q) = ends_with_sound s p e in (c ∷ a, ap (λ t. c ∷ t) q)
]

pub contains-append : (a p b : Text) → contains (a ++ (p ++ b)) p ≡ true
unfolding contains
contains-append [] [] [] = unfold starts_with in refl
contains-append [] [] (d ∷ b) = unfold starts_with in refl
contains-append [] (c ∷ p) b = rw (starts_with-append (c ∷ p) b)
contains-append (c ∷ a) p b = ground (arith, contains-append a p b)

pub contains_sound :
    (s p : Text) → contains s p ≡ true → (a : Text) × (b : Text) × (s ≡ a ++ (p ++ b))
unfolding contains
contains_sound [] p h = let (r, e) = starts_with_sound [] p h in ([], r, e)
contains_sound (c ∷ s) p h = elim (||_elim (starts_with (c ∷ s) p) (contains s p) h) [
  | inl e ↦ let (r, q) = starts_with_sound (c ∷ s) p e in ([], r, q)
  | inr e ↦ let (a, b, q) = contains_sound s p e in (c ∷ a, b, ap (λ t. c ∷ t) q)
]

abbrev pub Lacks : ℕ → Text → Type 0
Lacks c = All (λ d. d ≢ c)

-- A text with no `c` is not found across a `c`.
pub starts_with_at :
    (a b p : Text) (c : ℕ) → Lacks c p → starts_with (a ++ c ∷ b) p ≡ starts_with a p
unfolding starts_with
starts_with_at [] b [] c h = refl
starts_with_at (x ∷ a) b [] c h = refl
starts_with_at [] b (d ∷ p) c h = ground arith
starts_with_at (x ∷ a) b (d ∷ p) c h = ground (arith, starts_with_at a b p c h.1)

pub contains_at :
    (a b p : Text) (c : ℕ) → Lacks c p → contains (a ++ c ∷ b) p ≡ (contains a p || contains b p)
unfolding contains
contains_at [] b p c h = ap (λ t. t || contains b p) (starts_with_at [] b p c h)
contains_at (x ∷ a) b p c h = ground (arith, starts_with_at (x ∷ a) b p c h, contains_at a b p c h)

pub contains-nil : (p : Text) → is_not_empty p ≡ true → contains [] p ≡ false
unfolding contains starts_with
contains-nil [] h = absurd (cc)
contains-nil (c ∷ p) h = refl

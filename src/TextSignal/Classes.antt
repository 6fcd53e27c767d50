-- ===== src/TextSignal/Classes.antt =====
-- crates/fndr-textsignal/src/app.rs: which bundle identifiers and which names decide a class.
use fndr.Prelude.{
  ◌≡◌, refl, ◌∙◌, ap, Bool, true, false, not, ◌&&◌, List, [], ◌∷◌, ◌++◌, map, Option, none, some,
  arith, if◌then◌else◌, all, if-cases, subst, All, Has, any-Has, Has-any, &&_iff, inl, inr,
}
use mathlib.Core.List.{map-append}
use fndr.Text.{
  Text, codes, is_empty, is_not_empty, text_eq, starts_with, trim, trim_start_matches,
  trim_end_matches, is_whitespace, split_on, to_ascii_lowercase, lower_char,
}
use fndr.Text.Search.{eq_of_text_eq, text_eq_refl}
use fndr.Platform.{Platform}
use fndr.TextSignal.App.{
  AppClass, browser, code, mail, other, same_class, bundle_exact, bundle_prefix, find_class,
  class_from_bundle_id, name_tokens, slot_matched, class_from_name,
}

-- Each listed identifier decides the class it is listed with.
exact_entries : All (λ (id, class). class_from_bundle_id id ≡ some class) bundle_exact
unfolding class_from_bundle_id trim trim_start_matches trim_end_matches is_whitespace is_empty
    to_ascii_lowercase lower_char text_eq starts_with
exact_entries = (
  refl,
  (
    refl,
    (
      refl,
      (
        refl,
        (
          refl,
          (
            refl,
            (
              refl,
              (
                refl,
                (
                  refl,
                  (
                    refl,
                    (
                      refl,
                      (
                        refl,
                        (refl, (refl, (refl, (refl, (refl, (refl, (refl, (refl, (refl, tt))))))))),
                      ),
                    ),
                  ),
                ),
              ),
            ),
          ),
        ),
      ),
    ),
  ),
)

abbrev NotBlank : Text → Type 0
NotBlank = All (λ c. is_whitespace c ≡ false)

-- The family of a prefix.
trim_end-prefix :
    (p s : Text)
    → is_not_empty p ≡ true
    → NotBlank p
    → trim_end_matches is_whitespace (p ++ s) ≡ p ++ trim_end_matches is_whitespace s
unfolding trim_end_matches is_empty
trim_end-prefix [] s h k = absurd (cc)
trim_end-prefix (c ∷ []) s h k = rw k.0 refl
trim_end-prefix (c ∷ d ∷ p) s h k = rw (k.0, trim_end-prefix (d ∷ p) s refl k.1) refl

trim_start-prefix :
    (p s : Text)
    → is_not_empty p ≡ true
    → NotBlank p
    → trim_start_matches is_whitespace (p ++ s) ≡ p ++ s
unfolding trim_start_matches
trim_start-prefix [] s h k = absurd (cc)
trim_start-prefix (c ∷ p) s h k = rw k.0 refl

lowered_prefix :
    (p s : Text)
    → is_not_empty p ≡ true
    → NotBlank p
    → to_ascii_lowercase (trim (p ++ s))
      ≡ map lower_char p ++ map lower_char (trim_end_matches is_whitespace s)
unfolding trim to_ascii_lowercase
lowered_prefix p s h k =
    ap (λ t. map lower_char (trim_end_matches is_whitespace t)) (trim_start-prefix p s h k)
    ∙ ap (map lower_char) (trim_end-prefix p s h k)
    ∙ map-append lower_char p _

-- What the tables say of a lowered identifier.
abbrev table_class : Text → Option AppClass
table_class bundle =
    if is_empty bundle
    then none
    else elim (find_class (λ key. text_eq key bundle) bundle_exact) as (λ _. Option AppClass) [
      | some class ↦ some class
      | none ↦ find_class (λ prefix. starts_with bundle prefix) bundle_prefix
    ]

not_blank : (p : Text) → all (λ c. not (is_whitespace c)) p ≡ true → NotBlank p
not_blank [] h = tt
not_blank (c ∷ p) h =
    let (e, k) = (&&_iff (not (is_whitespace c)) _).0 h in (ground arith, not_blank p k)

family :
    (p : Text) (class : AppClass)
    → is_not_empty p ≡ true
    → all (λ c. not (is_whitespace c)) p ≡ true
    → ((x : Text) → table_class (map lower_char p ++ x) ≡ some class)
    → (s : Text) → class_from_bundle_id (p ++ s) ≡ some class
unfolding class_from_bundle_id
family p class h k f s =
    ap table_class (lowered_prefix p s h (not_blank p k))
    ∙ f (map lower_char (trim_end_matches is_whitespace s))

-- Each identifier of the table decides its class, and so does each prefix of the table, whatever
-- follows it: no entry hides another.
pub bundle_entries :
    All (λ (id, class). class_from_bundle_id id ≡ some class) bundle_exact
    × All
        (λ (prefix, class). (rest : Text) → class_from_bundle_id (prefix ++ rest) ≡ some class)
        bundle_prefix
unfolding lower_char is_whitespace is_empty text_eq starts_with
bundle_entries = (
  exact_entries,
  (
    family (codes "com.google.chrome") browser refl refl (λ x. refl),
    (
      family (codes "com.brave.browser") browser refl refl (λ x. refl),
      (
        family (codes "com.microsoft.edgemac") browser refl refl (λ x. refl),
        (
          family (codes "com.operasoftware.opera") browser refl refl (λ x. refl),
          (
            family (codes "com.jetbrains.") code refl refl (λ x. refl),
            (family (codes "com.sublimetext.") code refl refl (λ x. refl), tt),
          ),
        ),
      ),
    ),
  ),
)

-- A token of the name that is listed with a class.
abbrev pub Names : List Text → AppClass → Type 0
Names tokens class = (token : Text) × Has token tokens × Has (token, class) name_tokens

same_class_eq : (a b : AppClass) → same_class a b ≡ true → a ≡ b
unfolding same_class
same_class_eq browser browser h = refl
same_class_eq code code h = refl
same_class_eq mail mail h = refl
same_class_eq other other h = refl
same_class_eq browser code h = absurd (cc)
same_class_eq browser mail h = absurd (cc)
same_class_eq browser other h = absurd (cc)
same_class_eq code browser h = absurd (cc)
same_class_eq code mail h = absurd (cc)
same_class_eq code other h = absurd (cc)
same_class_eq mail browser h = absurd (cc)
same_class_eq mail code h = absurd (cc)
same_class_eq mail other h = absurd (cc)
same_class_eq other browser h = absurd (cc)
same_class_eq other code h = absurd (cc)
same_class_eq other mail h = absurd (cc)

same_class_refl : (a : AppClass) → same_class a a ≡ true
unfolding same_class
same_class_refl browser = refl
same_class_refl code = refl
same_class_refl mail = refl
same_class_refl other = refl

slot_Names :
    (tokens : List Text) (class : AppClass) → slot_matched tokens class ≡ true → Names tokens class
slot_Names tokens class h =
    let (token, m, p) = any-Has _ tokens h in
    let (e, q) = (&&_iff (not (is_empty token)) _).0 p in
    let ((candidate, kind), n, r) =
      any-Has (λ (candidate, kind). text_eq candidate token && same_class kind class) name_tokens
        q in
    let (a, b) = (&&_iff (text_eq candidate token) (same_class kind class)).0 r in
    (
      token,
      m,
      subst (λ x. Has x name_tokens)
          (ap (λ t. (t, kind)) (eq_of_text_eq candidate token a)
            ∙ ap (λ k. (token, k)) (same_class_eq kind class b))
          n,
    )

listed_filled : all (λ ((t, c) : Text × AppClass). not (is_empty t)) name_tokens ≡ true
unfolding is_empty
listed_filled = refl

all-Has :
    {A : Type 0} (p : A → Bool) (a : A) (xs : List A) → all p xs ≡ true → Has a xs → p a ≡ true
all-Has p a [] h m = absurd m
all-Has p a (x ∷ xs) h (inl e) = rw e at ((&&_iff (p x) _).0 h).0
all-Has p a (x ∷ xs) h (inr m) = all-Has p a xs ((&&_iff (p x) _).0 h).1 m

Names-slot :
    (tokens : List Text) (class : AppClass) → Names tokens class → slot_matched tokens class ≡ true
Names-slot tokens class (token, m, n) = Has-any _ token tokens m (
    (&&_iff (not (is_empty token)) _).1 (
      all-Has (λ (t, c). not (is_empty t)) (token, class) name_tokens listed_filled n,
      Has-any (λ (candidate, kind). text_eq candidate token && same_class kind class) (token, class)
          name_tokens n
          ((&&_iff (text_eq token token) _).1 (text_eq_refl token, same_class_refl class)),
    ))

-- The class that the listed tokens of a name give, the first of the precedence.
abbrev pub NameClass : List Text → AppClass → Type 0
NameClass tokens browser = Names tokens browser
NameClass tokens code = Names tokens code × (¬ Names tokens browser)
NameClass tokens mail = Names tokens mail × (¬ Names tokens code) × (¬ Names tokens browser)
NameClass tokens other = (¬ Names tokens mail) × (¬ Names tokens code) × (¬ Names tokens browser)

no_Names :
    (tokens : List Text) (class : AppClass)
    → slot_matched tokens class ≡ false
    → ¬ Names tokens class
no_Names tokens class e n = absurd (cc (e, Names-slot tokens class n))

-- A name decides its class by the whole tokens it is made of: a browser if one of them is listed
-- as a browser's, else code if one is listed as code, else mail if one is, and otherwise no class.
pub class_from_name-NameClass :
    {Url : Type 0} (pf : Platform Url) (app_name : Text)
    → NameClass
        (split_on (λ c. not (pf.is_alphanumeric c)) (pf.to_lowercase app_name))
        (class_from_name pf app_name)
unfolding class_from_name
class_from_name-NameClass pf app_name =
    if-cases (NameClass tokens) (slot_matched tokens browser) (slot_Names tokens browser) (λ b.
      if-cases (NameClass tokens) (slot_matched tokens code)
        (λ c. (slot_Names tokens code c, no_Names tokens browser b))
        (λ c.
          if-cases (NameClass tokens) (slot_matched tokens mail)
            (λ m. (slot_Names tokens mail m, no_Names tokens code c, no_Names tokens browser b))
            (λ m. (no_Names tokens mail m, no_Names tokens code c, no_Names tokens browser b))))
  where
    tokens : List Text
    tokens = split_on (λ c. not (pf.is_alphanumeric c)) (pf.to_lowercase app_name)

-- ===== src/Privacy/Defaults.antt =====
-- The default policy is the built-in one.
use fndr.Prelude.{
  ◌<◌, ◌≡◌, refl, ap, Bool, true, false, not, ◌&&◌, ◌||◌, List, [], ◌∷◌, Option, none, some, arith,
  ltb, ◌==◌, all, All, filter_map, &&_iff,
}
use fndr.Text.{
  Text, codes, is_empty, text_eq, contains, trim, trim_start_matches, split_on, to_ascii_lowercase,
  first, lower_char, starts_with, is_whitespace, trim_end_matches,
}
use fndr.Text.Search.{eq_of_text_eq}
use fndr.Platform.{Platform, LowersAscii}
use fndr.Privacy.Blocklist.{Blocklist, normalize_domain}
use fndr.Privacy.SafetyGate.{
  SafetyContext, built_in, normalize_word, policy_new, policy_default, evaluate,
  evaluate_with_policy, financial_domains,
}

-- A domain that `normalize_domain` has nothing to do for.
abbrev cut_domain : Text → List Text
cut_domain = split_on (λ c. c == b'/' || c == b':')

abbrev undotted : Text → Text
undotted d = trim_start_matches (λ c. c == b'.') (trim d)

record IsPlain (d : Text) : Type 0 where
  trimmed : undotted d ≡ d
  lower : to_ascii_lowercase d ≡ d
  ascii : All (λ c. c < 128) d
  no_scheme : contains d (codes "://") ≡ false
  whole : first (cut_domain d) ≡ some d
  filled : is_empty d ≡ false

normalize_domain-plain :
    {Url : Type 0} (pf : Platform Url)
    → LowersAscii pf
    → (d : Text) → IsPlain d
    → normalize_domain pf d ≡ some d
unfolding normalize_domain
normalize_domain-plain pf laws d p =
    rw (p.trimmed, laws d p.ascii, p.lower, p.no_scheme, p.whole, p.filled)

filter_map-plain :
    {Url : Type 0} (pf : Platform Url)
    → LowersAscii pf
    → (ds : List Text) → All IsPlain ds
    → filter_map (normalize_domain pf) ds ≡ ds
filter_map-plain pf laws [] h = refl
filter_map-plain pf laws (d ∷ ds) h =
    rw (normalize_domain-plain pf laws d h.0, filter_map)
      (ap (λ t. d ∷ t) (filter_map-plain pf laws ds h.1))

-- Checks an entry by evaluation.
whole_test : Text → Option Text → Bool
whole_test d none = false
whole_test d (some e) = text_eq e d

plain_test : Text → Bool
unfolding whole_test
plain_test d =
    (text_eq (undotted d) d && text_eq (to_ascii_lowercase d) d)
    && (all (λ c. ltb c 128) d && not (contains d (codes "://")))
    && (whole_test d (first (cut_domain d)) && not (is_empty d))

all_ascii : (d : Text) → all (λ c. ltb c 128) d ≡ true → All (λ c. c < 128) d
all_ascii [] h = tt
all_ascii (c ∷ d) h = ground (arith, all_ascii d)

whole_sound : (d : Text) (o : Option Text) → whole_test d o ≡ true → o ≡ some d
unfolding whole_test
whole_sound d none h = absurd (cc)
whole_sound d (some e) h = ap some (eq_of_text_eq e d h)

IsPlain-sound : (d : Text) → plain_test d ≡ true → IsPlain d
unfolding plain_test
IsPlain-sound d h =
    let a1 : text_eq (undotted d) d ≡ true = ground arith in
    let a2 : text_eq (to_ascii_lowercase d) d ≡ true = ground arith in
    let b1 : all (λ c. ltb c 128) d ≡ true = ground arith in
    let c1 : whole_test d (first (cut_domain d)) ≡ true = ground arith in
    record {
      trimmed = eq_of_text_eq _ _ a1;
      lower = eq_of_text_eq _ _ a2;
      ascii = all_ascii d b1;
      no_scheme = ground arith;
      whole = whole_sound d _ c1;
      filled = ground arith;
    }

all-IsPlain : (ds : List Text) → all plain_test ds ≡ true → All IsPlain ds
all-IsPlain [] h = tt
all-IsPlain (d ∷ ds) h =
    let (a, b) = (&&_iff (plain_test d) (all plain_test ds)).0 h in
    (IsPlain-sound d a, all-IsPlain ds b)

built_in_domains : all plain_test financial_domains ≡ true
unfolding plain_test text_eq trim_start_matches trim trim_end_matches is_whitespace is_empty
    to_ascii_lowercase lower_char contains starts_with split_on
built_in_domains = refl

-- Normalising the built-in lists changes nothing, so the default policy is the built-in one; of
-- the platform it is assumed that it lowers ASCII texts as `to_ascii_lowercase` does.
policy_default-built_in :
    {Url : Type 0} (pf : Platform Url) → LowersAscii pf → policy_default pf ≡ built_in
unfolding policy_default policy_new normalize_word
policy_default-built_in pf laws = λ i. record built_in {
  financial_domains =
      filter_map-plain pf laws financial_domains (all-IsPlain financial_domains built_in_domains) i;
}

-- `evaluate_with_policy` at the default policy decides every context as `evaluate` does.
pub evaluate_with_policy-default :
    {Url : Type 0} (pf : Platform Url)
    → LowersAscii pf
    → (context : SafetyContext) (list : Blocklist)
    → evaluate_with_policy pf context list (policy_default pf) ≡ evaluate pf context list
unfolding evaluate evaluate_with_policy
evaluate_with_policy-default pf laws context list = rw (policy_default-built_in pf laws)

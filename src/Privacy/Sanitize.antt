-- ===== src/Privacy/Sanitize.antt =====
-- What may be stored of a URL.
use fndr.Prelude.{
  ◌≡◌, refl, ◌∙◌, ap, Bool, true, false, [], ◌∷◌, Option, none, some, ◌>>=◌, arith, if◌then◌else◌,
}
use fndr.Text.{Text, codes, one_of, trim}
use fndr.Platform.{Platform, RemovalsAreLocal}
use fndr.Privacy.Blocklist.{SanitizedUrl, sanitize_url_for_storage}

>>=-eq-some {ℓ κ} :
    {A : Type ℓ} {B : Type κ} (m : Option A) (f : A → Option B) {b : B}
    → (m >>= f) ≡ some b
    → (a : A) × (m ≡ some a) × (f a ≡ some b)
>>=-eq-some none f h = absurd (cc)
>>=-eq-some (some a) f h = (a, refl, h)

kept_text :
    (t : Text) (k : SanitizedUrl)
    → ◌≡◌ {A = Option SanitizedUrl} (some (record { text = t })) (some k)
    → k.text ≡ t
kept_text t k h = ground arith

guard_holds : (b : Bool) (m : Option Text) {x : Text} → (if b then m else none) ≡ some x → b ≡ true
guard_holds true m h = refl
guard_holds false m h = absurd (cc)

abbrev stripped : {Url : Type 0} → Platform Url → Url → Url
stripped pf u = pf.set_fragment (pf.set_query u none) none

abbrev is_web : Text → Bool
is_web s = one_of s (codes "http" ∷ codes "https" ∷ [])

stripped_lem :
    {Url : Type 0} (pf : Platform Url)
    → RemovalsAreLocal pf
    → (parsed u v : Url) → pf.set_username parsed [] ≡ some u
    → pf.set_password u none ≡ some v
    → is_web (pf.scheme parsed) ≡ true
    → let w = stripped pf v in
      (is_web (pf.scheme w) ≡ true)
      × (pf.username w ≡ [])
      × (pf.password w ≡ none)
      × (pf.query w ≡ none)
      × (pf.fragment w ≡ none)
stripped_lem pf laws parsed u v e f h =
    let q = pf.set_query v none in
    let scheme : pf.scheme (stripped pf v) ≡ pf.scheme parsed =
      laws.scheme-set_fragment q
      ∙ laws.scheme-set_query v
      ∙ laws.scheme-set_password u v f
      ∙ laws.scheme-set_username parsed u e in
    (
      ap is_web scheme ∙ h,
      laws.username-set_fragment q
          ∙ laws.username-set_query v
          ∙ laws.username-set_password u v f
          ∙ laws.username-set_username parsed u e,
      laws.password-set_fragment q ∙ laws.password-set_query v ∙ laws.password-set_password u v f,
      laws.query-set_fragment q ∙ laws.query-set_query v,
      laws.fragment-set_fragment q,
    )

-- What is stored is the text of a URL with an HTTP scheme and with no credentials, query or
-- fragment, whatever URL was observed; it is assumed that a setter of the
-- `url` crate that takes a part away leaves that part empty and the parts named here alone.
pub sanitize_url_safe :
    {Url : Type 0} (pf : Platform Url)
    → RemovalsAreLocal pf
    → (url : Text) (kept : SanitizedUrl) → sanitize_url_for_storage pf url ≡ some kept
    → (u : Url) × (kept.text ≡ pf.into_string u)
      × (one_of (pf.scheme u) (codes "http" ∷ codes "https" ∷ []) ≡ true)
      × (pf.username u ≡ [])
      × (pf.password u ≡ none)
      × (pf.query u ≡ none)
      × (pf.fragment u ≡ none)
unfolding sanitize_url_for_storage
sanitize_url_safe pf laws url kept h =
    let web = codes "http" ∷ codes "https" ∷ [] in
    let (parsed, e1, h1) = >>=-eq-some (pf.parse (trim url)) _ h in
    let (host, e2, h2) =
      >>=-eq-some (if one_of (pf.scheme parsed) web then pf.host_str parsed else none) _ h1 in
    let (u1, e3, h3) = >>=-eq-some (pf.set_username parsed []) _ h2 in
    let (u2, e4, h4) = >>=-eq-some (pf.set_password u1 none) _ h3 in
    let listed : one_of (pf.scheme parsed) web ≡ true = guard_holds _ (pf.host_str parsed) e2 in
    let text = kept_text (pf.into_string (stripped pf u2)) kept h4 in
    let (p, q, r, s, t) = stripped_lem pf laws parsed u1 u2 e3 e4 listed in
    (stripped pf u2, text, p, q, r, s, t)

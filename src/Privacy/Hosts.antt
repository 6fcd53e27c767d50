-- ===== src/Privacy/Hosts.antt =====
-- Which hosts the blocklist and the domain lists match.
use fndr.Prelude.{
  ℕ, suc, ◌+◌, ◌-◌, ◌<◌, ◌≡◌, refl, sym, ◌∙◌, ap, subst, ◌↔◌, ◌⊎◌, inl, inr, Bool, true, false,
  ◌&&◌, List, [], ◌∷◌, ◌++◌, append_assoc, some, arith, ltb, ◌==◌, any, any-Has, Has-any, length,
  length-append, get_elem?, ||_elim, ==_iff,
}
use native.Mathlib.Nat.{add-zero}
use fndr.Text.{Text, text_eq, ends_with, encode_char, bytes, str_len}
use fndr.Text.Search.{text_eq_iff, text_eq_refl, ends_with-append, ends_with_sound}
use fndr.Platform.{Platform}
use fndr.Privacy.Blocklist.{Blocklist, is_byte, host_matches_suffix, host_from_url, blocks_url}

bytes-append : (a b : Text) → bytes (a ++ b) ≡ bytes a ++ bytes b
unfolding bytes
bytes-append [] b = refl
bytes-append (c ∷ a) b = rw (bytes-append a b, append_assoc)

get_elem?-append : (xs ys : List ℕ) (i : ℕ) → get_elem? (xs ++ ys) (length xs + i) ≡ get_elem? ys i
get_elem?-append [] ys i = ap (get_elem? ys) (omega arith)
get_elem?-append (x ∷ xs) ys i =
    let e : suc (length xs) + i ≡ suc (length xs + i) = omega arith in
    rw e (get_elem?-append xs ys i)

ends_in_dot : Text → Bool
ends_in_dot [] = false
ends_in_dot (c ∷ []) = c == b'.'
ends_in_dot (c ∷ d ∷ a) = ends_in_dot (d ∷ a)

bytes-cons : (c : ℕ) (s : Text) → bytes (c ∷ s) ≡ encode_char c ++ bytes s
unfolding bytes
bytes-cons c s = refl

encode_char_pos : (c : ℕ) → 0 < length (encode_char c)
unfolding encode_char
encode_char_pos c = ground arith

bytes_pos : (c : ℕ) (s : Text) → 0 < length (bytes (c ∷ s))
bytes_pos c s =
    omega (
      arith,
      ap length (bytes-cons c s),
      length-append (encode_char c) (bytes s),
      encode_char_pos c,
    )

-- In UTF-8 no other character ends in the byte of a dot.
encode_char_last :
    (c : ℕ) (bs : List ℕ)
    → is_byte (get_elem? (encode_char c ++ bs) (length (encode_char c) - 1)) b'.' ≡ (c == b'.')
unfolding encode_char is_byte
encode_char_last c bs = ground arith

-- So the byte before a suffix is a dot exactly if the character before it is.
last_byte :
    (c : ℕ) (a : Text) (bs : List ℕ)
    → is_byte (get_elem? (bytes (c ∷ a) ++ bs) (length (bytes (c ∷ a)) - 1)) b'.'
      ≡ ends_in_dot (c ∷ a)
unfolding ends_in_dot
last_byte c [] bs =
    rw (bytes-cons c [], append_assoc)
      (rw (length-append (encode_char c) (bytes []))
        (unfold bytes in rw (add-zero) (encode_char_last c bs)))
last_byte c (d ∷ a) bs =
    let e : length (bytes (c ∷ d ∷ a)) - 1 ≡ length (encode_char c) + (length (bytes (d ∷ a)) - 1) =
      omega (
        arith,
        ap length (bytes-cons c (d ∷ a)),
        length-append (encode_char c) (bytes (d ∷ a)),
        bytes_pos d a,
      ) in
    rw (e, bytes-cons c (d ∷ a), append_assoc, get_elem?-append) (last_byte d a bs)

ends_in_dot_sound : (a : Text) → ends_in_dot a ≡ true → (sub : Text) × (a ≡ sub ++ b'.' ∷ [])
unfolding ends_in_dot
ends_in_dot_sound [] h = absurd (cc)
ends_in_dot_sound (c ∷ []) h = ([], ap (λ t. t ∷ []) ((==_iff c b'.').0 h))
ends_in_dot_sound (c ∷ d ∷ a) h =
    let (sub, e) = ends_in_dot_sound (d ∷ a) h in (c ∷ sub, ap (λ t. c ∷ t) e)

ends_in_dot-append : (sub : Text) → ends_in_dot (sub ++ b'.' ∷ []) ≡ true
unfolding ends_in_dot
ends_in_dot-append [] = refl
ends_in_dot-append (c ∷ []) = refl
ends_in_dot-append (c ∷ d ∷ a) = ends_in_dot-append (d ∷ a)

str_len-bytes : (s : Text) → str_len s ≡ length (bytes s)
unfolding str_len
str_len-bytes s = refl

str_len-append : (a b : Text) → str_len (a ++ b) ≡ str_len a + str_len b
unfolding str_len
str_len-append a b = ap length (bytes-append a b) ∙ length-append (bytes a) (bytes b)

-- The test on a host that ends in the suffix.
boundary :
    (a suffix : Text)
    → (ltb (str_len suffix) (str_len (a ++ suffix))
        && is_byte
            (get_elem? (bytes (a ++ suffix)) (str_len (a ++ suffix) - str_len suffix - 1))
            b'.')
      ≡ ends_in_dot a
boundary [] suffix = unfold str_len ends_in_dot in ground arith
boundary (c ∷ a) suffix =
    let n = str_len-append (c ∷ a) suffix in
    let size = str_len-bytes (c ∷ a) in
    let pos = bytes_pos c a in
    let t : ltb (str_len suffix) (str_len ((c ∷ a) ++ suffix)) ≡ true = ground arith in
    let i : str_len ((c ∷ a) ++ suffix) - str_len suffix - 1 ≡ length (bytes (c ∷ a)) - 1 =
      omega arith in
    rw (t, i, bytes-append (c ∷ a) suffix) (last_byte c a (bytes suffix))

-- The test on the byte before the suffix.
abbrev dot_before : Text → Text → Bool
dot_before host suffix =
    ltb (str_len suffix) (str_len host)
    && is_byte (get_elem? (bytes host) (str_len host - str_len suffix - 1)) b'.'

to :
    (host suffix : Text)
    → host_matches_suffix host suffix ≡ true
    → (host ≡ suffix) ⊎ ((sub : Text) × (host ≡ sub ++ b'.' ∷ suffix))
unfolding host_matches_suffix
to host suffix h = elim (||_elim (text_eq host suffix) _ h) [
  | inl e ↦ inl ((text_eq_iff host suffix).0 e)
  | inr e ↦
      let q : ends_with host suffix ≡ true = ground arith in
      let d : dot_before host suffix ≡ true = ground arith in
      let (a, split) = ends_with_sound host suffix q in
      let dot = subst (λ t. dot_before t suffix ≡ true) split d in
      let (sub, f) = ends_in_dot_sound a (sym (boundary a suffix) ∙ dot) in
      inr (sub, split ∙ ap (λ t. t ++ suffix) f ∙ append_assoc sub (b'.' ∷ []) suffix)
]

from :
    (host suffix : Text)
    → (host ≡ suffix) ⊎ ((sub : Text) × (host ≡ sub ++ b'.' ∷ suffix))
    → host_matches_suffix host suffix ≡ true
unfolding host_matches_suffix
from host suffix (inl e) = rw (e, text_eq_refl suffix)
from host suffix (inr (sub, e)) =
    let dot = sub ++ b'.' ∷ [] in
    let split : host ≡ dot ++ suffix = e ∙ sym (append_assoc sub (b'.' ∷ []) suffix) in
    let q : ends_with host suffix ≡ true = rw split (ends_with-append dot suffix) in
    let d : dot_before host suffix ≡ true =
      rw split (boundary dot suffix ∙ ends_in_dot-append sub) in
    ground arith

-- A host matches a suffix exactly if it is the suffix, or if some text and a dot stand before it:
-- `bank.com` covers `online.bank.com`, and never `burbank.com`.
pub host_matches_suffix_iff :
    (host suffix : Text)
    → (host_matches_suffix host suffix ≡ true)
      ↔ ((host ≡ suffix) ⊎ ((sub : Text) × (host ≡ sub ++ b'.' ∷ suffix)))
host_matches_suffix_iff host suffix = (to host suffix, from host suffix)

-- Matching is transitive: what a domain covers, its parents cover too.
pub host_matches_suffix_trans :
    (host domain parent : Text)
    → host_matches_suffix host domain ≡ true
    → host_matches_suffix domain parent ≡ true
    → host_matches_suffix host parent ≡ true
host_matches_suffix_trans host domain parent h k =
    from host parent (extend (to host domain h) (to domain parent k))
  where
    extend :
        (host ≡ domain) ⊎ ((a : Text) × (host ≡ a ++ b'.' ∷ domain))
        → (domain ≡ parent) ⊎ ((b : Text) × (domain ≡ b ++ b'.' ∷ parent))
        → (host ≡ parent) ⊎ ((c : Text) × (host ≡ c ++ b'.' ∷ parent))
    extend (inl e) (inl f) = inl (e ∙ f)
    extend (inl e) (inr (b, f)) = inr (b, e ∙ f)
    extend (inr (a, e)) (inl f) = inr (a, e ∙ ap (λ t. a ++ b'.' ∷ t) f)
    extend (inr (a, e)) (inr (b, f)) = inr (
      a ++ b'.' ∷ b,
      e ∙ ap (λ t. a ++ b'.' ∷ t) f ∙ sym (append_assoc a (b'.' ∷ b) (b'.' ∷ parent)),
    )

-- A listed domain blocks every URL on its host and on the subdomains of it: if a URL is blocked,
-- so is each URL whose host lies under that URL's host.
pub blocks_url-subdomain :
    {Url : Type 0} (pf : Platform Url) (list : Blocklist) (url below host sub : Text)
    → host_from_url pf url ≡ some host
    → host_from_url pf below ≡ some (sub ++ b'.' ∷ host)
    → blocks_url pf list url ≡ true
    → blocks_url pf list below ≡ true
unfolding blocks_url
blocks_url-subdomain pf list url below host sub e f h =
    let listed : any (λ d. host_matches_suffix host d) list.domains ≡ true =
      rw (e, blocks_url) at h in
    let (d, m, q) = any-Has (λ d. host_matches_suffix host d) list.domains listed in
    let under = from (sub ++ b'.' ∷ host) host (inr (sub, refl)) in
    rw (f, blocks_url)
      (Has-any (λ d. host_matches_suffix (sub ++ b'.' ∷ host) d) d list.domains m
        (host_matches_suffix_trans (sub ++ b'.' ∷ host) host d under q))

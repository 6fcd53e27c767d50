-- ===== src/Capture/Admission/Surface.antt =====
-- What the admission policy reads off a URL, and what it never restricts.
use fndr.Prelude.{
  ℕ, ◌≡◌, ◌≢◌, refl, true, List, [], ◌∷◌, Option, none, some, arith, All, if◌then◌else◌, ◌==◌, keep,
  Bool-cases, inl, inr, unwrap_or, map_option, ◌⊎◌,
}
use fndr.Text.{
  Text, codes, is_empty, is_not_empty, split_on, split_str, split_once, lower_char,
  to_ascii_lowercase, first, second,
}
use fndr.Text.Split.{
  All-split_on, All-split_on_sep, All-first, All-split_once, Cut, split_once-Cut, AllBoth,
}
use fndr.Capture.Admission.{
  normal, url_only, skip_frame, CaptureSurfacePolicy, path_and_query, from_url, is_browser_app,
  classify_capture_surface_policy,
}

abbrev NoHash : ℕ → Type 0
NoHash c = c ≢ b'#'

with_slash :
    (o : Option (Text × Text))
    → AllBoth NoHash o
    → All NoHash (unwrap_or (codes "/") (map_option (λ (host, rest). b'/' ∷ rest) o))
with_slash none h = (ground arith, tt)
with_slash (some (host, rest)) h = (ground arith, h.1)

path_and_query-NoHash : (url : Text) → All NoHash (path_and_query url)
unfolding path_and_query
path_and_query-NoHash url =
    let lower_url = to_ascii_lowercase url in
    let after_scheme = unwrap_or lower_url (second (split_str (codes "://") lower_url)) in
    let parts = split_on (λ c. c == b'#') after_scheme in
    let clean : All (All NoHash) parts =
      All-split_on_sep NoHash (λ c. c == b'#') after_scheme (λ c e. ground arith) in
    let h = All-first NoHash parts clean in
    with_slash (split_once b'/' (unwrap_or [] (first parts)))
      (All-split_once NoHash b'/' (unwrap_or [] (first parts)) h)

-- A character that a path segment may hold.
abbrev pub InSegment : ℕ → Type 0
InSegment c = (c ≢ b'/') × (c ≢ b'?') × (c ≢ b'#')

abbrev InPath : ℕ → Type 0
InPath c = (c ≢ b'?') × (c ≢ b'#')

both_hold : (w : Text) → All (λ c. c ≢ b'?') w → All NoHash w → All InPath w
both_hold [] h k = tt
both_hold (c ∷ w) h k = ((h.0, k.0), both_hold w h.1 k.1)

raw_path :
    (both : Text) (cut : Option (Text × Text))
    → All NoHash both
    → AllBoth NoHash cut
    → Cut b'?' both cut
    → All InPath (unwrap_or (both, []) cut).0
raw_path both none h k c = both_hold both c h
raw_path both (some (a, b)) h k c = both_hold a c k.0

slash_if_empty :
    (raw : Text) → All InPath raw → All InPath (if is_empty raw then codes "/" else raw)
slash_if_empty [] h = unfold is_empty in ground arith
slash_if_empty (c ∷ raw) h = unfold is_empty in h

segment_chars : (w : Text) → All (λ c. c ≢ b'/') w → All InPath w → All InSegment w
segment_chars [] h k = tt
segment_chars (c ∷ w) h k = ((h.0, k.0.0, k.0.1), segment_chars w h.1 k.1)

kept_segments :
    (ws : List Text)
    → All (All (λ c. c ≢ b'/')) ws
    → All (All InPath) ws
    → All (λ w. (is_not_empty w ≡ true) × All InSegment w) (keep is_not_empty ws)
kept_segments [] h k = tt
kept_segments (w ∷ ws) h k = elim (Bool-cases (is_not_empty w)) [
  | inl e ↦ rw e ((e, segment_chars w h.0 k.0), kept_segments ws h.1 k.1)
  | inr e ↦ rw e (kept_segments ws h.1 k.1)
]

-- Every path segment of a surface is a non-empty text without separators: neither the query nor
-- the fragment of a URL can pose as a segment.
pub path_segments_clean :
    (url : Text) → All (λ w. (is_not_empty w ≡ true) × All InSegment w) (from_url url).path_segments
unfolding from_url
path_segments_clean url =
    let both = path_and_query url in
    let cut = split_once b'?' both in
    let raw = (unwrap_or (both, []) cut).0 in
    let h = path_and_query-NoHash url in
    let p =
      slash_if_empty raw
        (raw_path both cut h (All-split_once NoHash b'?' both h) (split_once-Cut b'?' both)) in
    let path = if is_empty raw then codes "/" else raw in
    let parts = split_on (λ c. c == b'/') path in
    let inner = All-split_on InPath (λ c. c == b'/') path p in
    let outer : All (All (λ c. c ≢ b'/')) parts =
      All-split_on_sep (λ c. c ≢ b'/') (λ c. c == b'/') path (λ c e. ground arith) in
    kept_segments parts outer inner

-- Only a browser with a known URL is ever restricted.
pub restricted_is_browser :
    (app title : Text) (url : Option Text)
    → classify_capture_surface_policy app title url ≢ normal
    → (is_browser_app app ≡ true) × ((u : Text) × (url ≡ some u))
unfolding classify_capture_surface_policy
restricted_is_browser app title url h = ground arith

lower_char_idem : (c : ℕ) → lower_char (lower_char c) ≡ lower_char c
unfolding lower_char
lower_char_idem c = ground arith

to_ascii_lowercase_idem :
    (s : Text) → to_ascii_lowercase (to_ascii_lowercase s) ≡ to_ascii_lowercase s
unfolding to_ascii_lowercase
to_ascii_lowercase_idem [] = refl
to_ascii_lowercase_idem (c ∷ s) = cc (lower_char_idem c, to_ascii_lowercase_idem s)

-- The letter case of the application's name and of the title makes no difference.
pub classify-to_ascii_lowercase :
    (app title : Text) (url : Option Text)
    → classify_capture_surface_policy (to_ascii_lowercase app) (to_ascii_lowercase title) url
      ≡ classify_capture_surface_policy app title url
unfolding classify_capture_surface_policy is_browser_app
classify-to_ascii_lowercase app title none = rw (to_ascii_lowercase_idem app)
classify-to_ascii_lowercase app title (some u) =
    rw (to_ascii_lowercase_idem app, to_ascii_lowercase_idem title)

pub policy-cases : (x : CaptureSurfacePolicy) → (x ≡ skip_frame) ⊎ ((x ≡ url_only) ⊎ (x ≡ normal))
policy-cases skip_frame = inl refl
policy-cases url_only = inr (inl refl)
policy-cases normal = inr (inr refl)

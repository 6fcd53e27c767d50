-- ===== src/Memory/Anchor.antt =====
-- crates/fndr-memory/src/continuity.rs: the texts that a capture is recognised by.
use fndr.Prelude.{
  ℕ, Bool, false, not, ◌&&◌, ◌||◌, List, [], ◌∷◌, ◌++◌, map, Option, none, some, ◌>>=◌,
  if◌then◌else◌, ltb, leb, ◌==◌, take, keep, map_option, unwrap_or,
}
use fndr.Text.{
  Text, codes, is_empty, is_not_empty, text_eq, one_of, trim, trim_end_matches, split_on,
  split_once, split_once_str, split_whitespace, strip_prefix, join, str_len, to_ascii_lowercase,
  first, last,
}
use fndr.Platform.{Platform}

pub record ContinuityRecord : Type 0 where
  pub app_name : Text
  pub url : Option Text
  pub window_title : Text
  pub text : Text
  pub snippet : Text
  pub lexical_shadow : Text
  pub captured_at_ms : ℕ

abbrev pub is_char : ℕ → ℕ → Bool
is_char c d = d == c

unfoldable pub domain : Option Text → Option Text
domain none = none
domain (some whole) = do
  let url = trim whole
  let after_scheme = unwrap_or url (map_option (λ (a, b). b) (split_once_str (codes "://") url))
  authority ← first (split_on (λ c. c == b'/' || (c == b'?' || c == b'#')) after_scheme)
  behind_user ← last (split_on (is_char b'@') (trim authority))
  named ← first (split_on (is_char b':') behind_user)
  let host = trim named
  if is_empty host then none else some (to_ascii_lowercase host)

unfoldable pub first_path_segments : Text → ℕ → Text
first_path_segments url count =
    let after_scheme =
      unwrap_or url (map_option (λ (a, b). b) (split_once_str (codes "://") url)) in
    let path = unwrap_or [] (map_option (λ (a, b). b) (split_once b'/' after_scheme)) in
    let clean = unwrap_or path (first (split_on (λ c. c == b'?' || c == b'#') path)) in
    let segments = keep (λ w. is_not_empty (trim w)) (split_on (is_char b'/') clean) in
    join (codes "/") (take count (map (λ w. to_ascii_lowercase (trim w)) segments))

unfoldable pub is_generic_stop_word : Text → Bool
is_generic_stop_word token = one_of token (
    codes "the"
    ∷ codes "and"
    ∷ codes "for"
    ∷ codes "with"
    ∷ codes "this"
    ∷ codes "that"
    ∷ codes "from"
    ∷ codes "your"
    ∷ codes "you"
    ∷ codes "are"
    ∷ codes "was"
    ∷ codes "were"
    ∷ codes "have"
    ∷ codes "has"
    ∷ codes "into"
    ∷ codes "about"
    ∷ codes "after"
    ∷ codes "before"
    ∷ codes "then"
    ∷ codes "just"
    ∷ codes "there"
    ∷ codes "here"
    ∷ codes "user"
    ∷ codes "app"
    ∷ codes "window"
    ∷ codes "tab"
    ∷ codes "page"
    ∷ codes "open"
    ∷ codes "opened"
    ∷ codes "search"
    ∷ codes "searched"
    ∷ codes "www"
    ∷ codes "http"
    ∷ codes "https"
    ∷ codes "com"
    ∷ [])

unfoldable pub effective_url_of : Text → Text
effective_url_of url =
    let bare : Text = elim (strip_prefix (codes "https://") url) [
      | some rest ↦ rest
      | none ↦ unwrap_or url (strip_prefix (codes "http://") url)
    ] in
    trim_end_matches (is_char b'/')
      (unwrap_or bare (first (split_on (λ c. c == b'?' || c == b'#') bare)))

module _ {Url : Type 0} (pf : Platform Url) where
  -- The words of `split(|c| !c.is_alphanumeric())` that count.
  unfoldable pub words : Text → List Text
  words text =
      keep (λ token. ltb 2 (str_len token) && not (is_generic_stop_word token))
        (split_on (λ c. not (pf.is_alphanumeric c)) (pf.to_lowercase text))

  unfoldable pub normalize_anchor_text : Text → Text
  normalize_anchor_text text = join (codes "_") (take 8 (words text))

  unfoldable pub normalize_app_key : Text → Text
  normalize_app_key app_name =
      let marked = map (λ c. if pf.is_alphanumeric c then c else b'_') (pf.to_lowercase app_name) in
      let normalized = join (codes "_") (keep is_not_empty (split_on (is_char b'_') marked)) in
      if is_empty normalized then codes "unknown" else normalized

  unfoldable pub normalize_overlap : Text → Text
  normalize_overlap text = join (codes " ") (split_whitespace (pf.to_lowercase text))

  unfoldable pub effective_url : Text → Text
  effective_url url = effective_url_of (pf.to_lowercase (trim url))

  unfoldable pub matching_effective_url : Option Text → Option Text → Bool
  matching_effective_url none right = false
  matching_effective_url (some left) none = false
  matching_effective_url (some left) (some right) =
      text_eq (effective_url left) (effective_url right)

  -- What identifies a capture that has no usable URL.
  unfoldable pub app_anchor : ContinuityRecord → Option Text
  app_anchor r =
      let app = normalize_app_key r.app_name in
      let title = normalize_anchor_text r.window_title in
      let snippet = normalize_anchor_text r.snippet in
      if leb 8 (str_len title)
      then some (codes "app:" ++ (app ++ (codes ":title:" ++ title)))
      else if leb 10 (str_len snippet)
      then some (codes "app:" ++ (app ++ (codes ":snippet:" ++ snippet)))
      else none

  abbrev pub url_anchor : Text → Text → Text
  url_anchor host path =
      if is_empty path then codes "url:" ++ host else codes "url:" ++ (host ++ (codes ":" ++ path))

  unfoldable pub continuity_anchor : ContinuityRecord → Option Text
  continuity_anchor r = elim r.url [
    | none ↦ app_anchor r
    | some url ↦ elim (domain (some url)) [
      | none ↦ app_anchor r
      | some host ↦ some (url_anchor host (first_path_segments url 3))
    ]
  ]

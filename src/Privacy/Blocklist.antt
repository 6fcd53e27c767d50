-- ===== src/Privacy/Blocklist.antt =====
-- crates/fndr-privacy/src/blocklist.rs: exclusions that the owner configures, and the URL that may
-- be kept.
use fndr.Prelude.{
  ℕ, ◌-◌, ◌%◌, ◌^◌, Bool, true, false, ◌&&◌, ◌||◌, List, [], ◌∷◌, map, Option, none, some, ◌>>=◌,
  map_option, if◌then◌else◌, ltb, ◌==◌, length, get_elem?, windows, any, keep, filter_map,
}
use fndr.Text.{
  Text, codes, is_empty, is_not_empty, text_eq, one_of, contains, ends_with, trim,
  trim_start_matches, split_on, split_whitespace, join, bytes, str_len, first,
}
use fndr.Platform.{Platform}

-- `host.as_bytes()[i] == b`; the callers keep `i` in range.
unfoldable pub is_byte : Option ℕ → ℕ → Bool
is_byte none b = false
is_byte (some c) b = c == b

-- True when `host` equals `suffix` or is a subdomain of it, on label boundaries.
unfoldable pub host_matches_suffix : Text → Text → Bool
host_matches_suffix host suffix =
    text_eq host suffix
    || (ltb (str_len suffix) (str_len host)
        && ends_with host suffix
        && is_byte (get_elem? (bytes host) (str_len host - str_len suffix - 1)) b'.')

-- `SanitizedUrl`, the URL that may be stored.
pub record SanitizedUrl : Type 0 where
  pub text : Text

pub record Blocklist : Type 0 where
  pub apps : List Text
  pub domains : List Text

unfoldable pub tokens : Text → List Text
unfolding split_on
tokens = split_on (λ c. c == b' ')

unfoldable pub texts_eq : List Text → List Text → Bool
unfolding text_eq
texts_eq [] [] = true
texts_eq [] (t ∷ ts) = false
texts_eq (s ∷ ss) [] = false
texts_eq (s ∷ ss) (t ∷ ts) = text_eq s t && texts_eq ss ts

-- One entry of `blocks_app`: the whole name, or a run of whole tokens.
unfoldable pub entry_blocks : Text → List Text → Text → Bool
unfolding text_eq texts_eq tokens
entry_blocks name name_tokens entry =
    text_eq entry name
    || any (λ window. texts_eq window (tokens entry)) (windows (length (tokens entry)) name_tokens)

unfoldable pub app_count : Blocklist → ℕ
app_count list = length list.apps % 2 ^ 32

unfoldable pub domain_count : Blocklist → ℕ
domain_count list = length list.domains % 2 ^ 32

module _ {Url : Type 0} (pf : Platform Url) where
  unfoldable pub normalize_app : Text → Text
  unfolding join split_whitespace
  normalize_app entry = pf.to_lowercase (join (codes " ") (split_whitespace entry))

  unfoldable pub normalize_domain : Text → Option Text
  unfolding is_empty trim trim_start_matches contains split_on
  normalize_domain entry = do
    let trimmed = pf.to_lowercase (trim_start_matches (λ c. c == b'.') (trim entry))
    host ←
        (if contains trimmed (codes "://")
          then (pf.parse trimmed >>= pf.host_str)
          else first (split_on (λ c. c == b'/' || c == b':') trimmed))
    if is_empty host then none else some host

  unfoldable pub host_from_url : Text → Option Text
  unfolding normalize_domain trim
  host_from_url url =
      elim (pf.parse (trim url) >>= λ u. map_option pf.to_lowercase (pf.host_str u)) [
        | some host ↦ some host
        | none ↦ normalize_domain url
      ]

  unfoldable pub url_matches_domain_suffix : Text → Text → Bool
  unfolding host_from_url host_matches_suffix
  url_matches_domain_suffix url domain = elim (normalize_domain domain) [
    | none ↦ false
    | some d ↦ elim (host_from_url url) [ none ↦ false | some host ↦ host_matches_suffix host d ]
  ]

  unfoldable pub sanitize_url_for_storage : Text → Option SanitizedUrl
  unfolding trim
  sanitize_url_for_storage url = do
    parsed ← pf.parse (trim url)
    host ←
        (if one_of (pf.scheme parsed) (codes "http" ∷ codes "https" ∷ [])
          then pf.host_str parsed
          else none)
    anonymous ← pf.set_username parsed []
    open_url ← pf.set_password anonymous none
    some (record { text = pf.into_string (pf.set_fragment (pf.set_query open_url none) none) })

  -- `Blocklist::new`.
  unfoldable pub new : List Text → List Text → Blocklist
  unfolding normalize_app normalize_domain
  new app_entries domain_entries = record {
    apps = keep is_not_empty (map normalize_app app_entries);
    domains = filter_map normalize_domain domain_entries;
  }

  unfoldable pub blocks_app : Blocklist → Text → Bool
  unfolding normalize_app is_empty entry_blocks
  blocks_app list app_name =
      let name = normalize_app app_name in
      if is_empty name then false else any (entry_blocks name (tokens name)) list.apps

  unfoldable pub blocks_url : Blocklist → Text → Bool
  unfolding host_from_url host_matches_suffix
  blocks_url list url = elim (host_from_url url) [
    | none ↦ false
    | some host ↦ any (λ suffix. host_matches_suffix host suffix) list.domains
  ]

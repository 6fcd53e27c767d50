-- ===== src/Capture/Admission.antt =====
-- crates/fndr-capture/src/admission.rs: how a browser surface is treated, from its metadata alone.
pub mod Surface
use fndr.Prelude.{
  ℕ, ◌≡◌, Bool, true, false, not, ◌&&◌, ◌||◌, List, [], ◌∷◌, ◌++◌, map, Option, none, some,
  if◌then◌else◌, leb, ◌==◌, length, any, keep, filter_map, map_option, unwrap_or,
}
use fndr.Text.{
  Text, codes, is_empty, is_not_empty, text_eq, one_of, contains, starts_with, ends_with, trim,
  split_on, split_str, split_once, to_ascii_lowercase, first, second,
}

pub data CaptureSurfacePolicy : Type 0 where
  normal url_only skip_frame : CaptureSurfacePolicy

-- `needles.iter().any(|needle| text.contains(needle))`.
unfoldable pub contains_any : List Text → Text → Bool
unfolding contains
contains_any needles text = any (λ needle. contains text needle) needles

unfoldable pub is_browser_app : Text → Bool
is_browser_app app_name =
    contains_any
      (codes "chrome"
        ∷ codes "safari"
        ∷ codes "firefox"
        ∷ codes "arc"
        ∷ codes "edge"
        ∷ codes "brave"
        ∷ codes "opera"
        ∷ [])
      (to_ascii_lowercase app_name)

unfoldable pub is_generic_browser_chrome_title : Text → Bool
unfolding contains_any
is_generic_browser_chrome_title =
    contains_any
      (codes "new tab" ∷ codes "start page" ∷ codes "speed dial" ∷ codes "blank page" ∷ [])

pub record UrlSurface : Type 0 where
  pub domain : Text
  pub path : Text
  pub path_segments : List Text
  pub query_keys : List Text

unfoldable pub extract_domain : Text → Text
unfolding split_str split_on trim to_ascii_lowercase
extract_domain url =
    let without_scheme = unwrap_or url (second (split_str (codes "://") url)) in
    to_ascii_lowercase (trim (unwrap_or [] (first (split_on (λ c. c == b'/') without_scheme))))

-- The text that the path and the query are cut from.
unfoldable pub path_and_query : Text → Text
path_and_query url =
    let lower_url = to_ascii_lowercase url in
    let after_scheme = unwrap_or lower_url (second (split_str (codes "://") lower_url)) in
    let without_fragment = unwrap_or [] (first (split_on (λ c. c == b'#') after_scheme)) in
    unwrap_or (codes "/")
      (map_option (λ (host, rest). b'/' ∷ rest) (split_once b'/' without_fragment))

unfoldable pub from_url : Text → UrlSurface
from_url url =
    let both = path_and_query url in
    let (path_raw, query_raw) = unwrap_or (both, []) (split_once b'?' both) in
    let path = if is_empty path_raw then codes "/" else path_raw in
    record {
      domain = extract_domain url;
      path = path;
      path_segments = keep is_not_empty (split_on (λ c. c == b'/') path);
      query_keys =
          filter_map (λ entry. map_option (λ (key, value). key) (split_once b'=' entry))
            (split_on (λ c. c == b'&') query_raw);
    }

unfoldable pub contains_path_segment : UrlSurface → List Text → Bool
unfolding text_eq
contains_path_segment surface candidates =
    any (λ segment. one_of segment candidates) surface.path_segments

unfoldable pub contains_search_query_key : UrlSurface → Bool
unfolding text_eq
contains_search_query_key surface =
    any
      (λ key. one_of key (
        codes "q"
        ∷ codes "query"
        ∷ codes "search"
        ∷ codes "search_query"
        ∷ codes "text"
        ∷ codes "term"
        ∷ []))
      surface.query_keys

unfoldable pub is_navigation_surface : UrlSurface → Bool
unfolding contains_search_query_key contains_path_segment contains
is_navigation_surface surface =
    (contains_search_query_key surface
      && (contains_path_segment surface (codes "search" ∷ codes "results" ∷ [])
          || contains surface.path (codes "/search")
          || contains surface.path (codes "/results")))
    || contains_path_segment surface (
        codes "feed"
        ∷ codes "explore"
        ∷ codes "discover"
        ∷ codes "home"
        ∷ codes "trending"
        ∷ codes "hashtag"
        ∷ [])

unfoldable pub is_listing_surface : UrlSurface → Text → Bool
unfolding contains starts_with text_eq ends_with contains_path_segment
is_listing_surface surface title =
    let primary = unwrap_or [] (first surface.path_segments) in
    contains title (codes "search results")
    || contains title (codes "videos -")
    || starts_with primary (codes "@")
    || one_of primary (
        codes "u"
        ∷ codes "user"
        ∷ codes "users"
        ∷ codes "profile"
        ∷ codes "profiles"
        ∷ codes "channel"
        ∷ codes "channels"
        ∷ codes "topic"
        ∷ codes "topics"
        ∷ codes "tag"
        ∷ codes "tags"
        ∷ [])
    || (ends_with surface.domain (codes "youtube.com") && text_eq primary (codes "c"))
    || (contains_path_segment surface (
          codes "videos"
          ∷ codes "posts"
          ∷ codes "reels"
          ∷ codes "playlist"
          ∷ codes "playlists"
          ∷ codes "top"
          ∷ codes "best"
          ∷ codes "latest"
          ∷ [])
        && leb (length surface.path_segments) 3)

unfoldable pub classify_capture_surface_policy : Text → Text → Option Text → CaptureSurfacePolicy
classify_capture_surface_policy app_name window_title url =
    if not (is_browser_app app_name) then normal else elim url [
      | none ↦ normal
      | some u ↦
          let title = to_ascii_lowercase window_title in
          if is_generic_browser_chrome_title title
          then skip_frame
          else if is_navigation_surface (from_url u)
          then skip_frame
          else if is_listing_surface (from_url u) title
          then url_only
          else normal
    ]

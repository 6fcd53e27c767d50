-- ===== src/TextSignal/Snippet.antt =====
-- crates/fndr-textsignal/src/cleanup.rs: the short text shown when no model has written one.
use fndr.Prelude.{ℕ, not, ◌&&◌, ◌||◌, List, [], ◌∷◌, ◌++◌, if◌then◌else◌, leb, length}
use fndr.Text.{Text, codes, is_empty, one_of, trim, lines, join}
use fndr.Platform.{Platform, Float32}
use fndr.TextSignal.App.{AppIdentity}
use fndr.TextSignal.Lines.{
  normalize_inline, truncate_snippet, looks_like_file_inventory, looks_like_json_inventory,
  snippet_dedup_key,
}
use fndr.TextSignal.Noise.{is_useful_snippet_line}

abbrev pub max_fallback_snippet_chars : ℕ
max_fallback_snippet_chars = 220

module _ {Url F : Type 0} (pf : Platform Url) (fl : Float32 F) where
  -- The loop that collects at most two useful lines that differ.
  unfoldable pub collect_details : AppIdentity → List Text → List Text → List Text → List Text
  collect_details app [] details seen = details
  collect_details app (line ∷ rest) details seen =
      let normalized = normalize_inline line in
      let key = snippet_dedup_key pf normalized in
      let is_new = not (one_of key seen) in
      let details1 = if is_new then details ++ (normalized ∷ []) else details in
      let seen1 = if is_new then key ∷ seen else seen in
      let skipped = collect_details app rest details seen in
      let pushed = collect_details app rest details1 seen1 in
      if not (is_useful_snippet_line pf fl app line)
      then skipped
      else if is_empty normalized
      then skipped
      else if looks_like_file_inventory normalized || looks_like_json_inventory pf normalized
      then skipped
      else if leb 2 (length details1)
      then details1
      else pushed

  -- `": "` and the first detail, `" | "` and the second.
  abbrev pub append_details : Text → List Text → Text
  append_details snippet [] = snippet
  append_details snippet (first_detail ∷ []) = snippet ++ (codes ": " ++ first_detail)
  append_details snippet (first_detail ∷ second_detail ∷ rest) =
      snippet ++ (codes ": " ++ (first_detail ++ (codes " | " ++ second_detail)))

  unfoldable pub concise_fallback_snippet : AppIdentity → Text → Text → Text
  concise_fallback_snippet app window_title text =
      let normalized_title = normalize_inline (trim window_title) in
      let title_is_useful =
        not (is_empty normalized_title) && is_useful_snippet_line pf fl app normalized_title in
      let seen = if title_is_useful then snippet_dedup_key pf normalized_title ∷ [] else [] in
      let details = collect_details app (lines text) [] seen in
      if title_is_useful
      then truncate_snippet (append_details normalized_title details) max_fallback_snippet_chars
      else elim details [
        | detail ∷ more ↦
            truncate_snippet (join (codes " | ") (detail ∷ more)) max_fallback_snippet_chars
        | [] ↦
            if not (is_empty normalized_title)
            then truncate_snippet normalized_title max_fallback_snippet_chars
            else if not (is_empty (trim app.name))
            then codes "Using " ++ trim app.name
            else []
      ]

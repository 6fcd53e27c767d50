-- ===== src/Store/Reading.antt =====
-- crates/fndr-store/src/store.rs: reading back what is stored, and the full-text expression of a
-- query. SQLite's full-text index itself is a parameter of those who search.
use fndr.Prelude.{
  ℕ, Bool, ◌&&◌, ◌||◌, List, [], ◌∷◌, ◌++◌, map, Option, none, some, ltb, leb, ◌==◌, keep, order_by,
  map_option, min, take,
}
use fndr.Text.{Text, codes, text_eq, is_not_empty, split_whitespace, join}
use fndr.Platform.{Platform}
use fndr.Privacy.Blocklist.{SanitizedUrl}
use fndr.Store.{Store, NewRecord, ChunkRow, find_record}
use fndr.Store.Deletion.{text_le}

pub record ChunkEvidence : Type 0 where
  pub chunk_id : Text
  pub ord : ℕ
  pub text : Text

pub record RecordEvidence : Type 0 where
  pub record_id : Text
  pub session_id : Text
  pub source : Text
  pub app_name : Text
  pub bundle_id : Option Text
  pub url : Option Text
  pub window_title : Text
  pub captured_at_ms : ℕ
  pub chunks : List ChunkEvidence

pub record ChunkSearchHit : Type 0 where
  pub chunk_id : Text
  pub record_id : Text
  pub source : Text
  pub captured_at_ms : ℕ
  pub snippet : Text

unfoldable pub chunk_evidence : Store → Text → List ChunkEvidence
chunk_evidence s record_id =
    map (λ (c : ChunkRow). record { chunk_id = c.id; ord = c.ord; text = c.text })
      (order_by (λ (c d : ChunkRow). leb c.ord d.ord)
        (keep (λ (c : ChunkRow). text_eq c.record_id record_id) s.chunks))

abbrev pub evidence_of : Store → Text → NewRecord → RecordEvidence
evidence_of s record_id r = record {
  record_id = record_id;
  session_id = r.session_id;
  source = r.source;
  app_name = r.app_name;
  bundle_id = r.bundle_id;
  url = map_option (λ (u : SanitizedUrl). u.text) r.url;
  window_title = r.window_title;
  captured_at_ms = r.captured_at_ms;
  chunks = chunk_evidence s record_id;
}

unfoldable pub record_evidence : Store → Text → Option RecordEvidence
unfolding find_record
record_evidence s record_id = map_option (evidence_of s record_id) (find_record record_id s.records)

-- `ORDER BY captured_at_ms DESC, id DESC`.
abbrev pub latest_first : NewRecord → NewRecord → Bool
latest_first a b =
    ltb b.captured_at_ms a.captured_at_ms
    || (a.captured_at_ms == b.captured_at_ms && text_le b.id a.id)

unfoldable pub latest_record_id : Store → Option Text
latest_record_id s = elim (order_by latest_first s.records) [ [] ↦ none | r ∷ rs ↦ some r.id ]

module _ {Url : Type 0} (pf : Platform Url) where
  abbrev pub is_term_char : ℕ → Bool
  is_term_char c = pf.is_alphanumeric c || (c == b'_' || c == b'-')

  unfoldable pub fts_terms : Text → List Text
  fts_terms query = keep is_not_empty (map (keep is_term_char) (split_whitespace query))

  abbrev pub quoted_term : Text → Text
  quoted_term term = b'"' ∷ (term ++ (b'"' ∷ []))

  unfoldable pub fts_query : Text → Option Text
  unfolding fts_terms
  fts_query query = elim (fts_terms query) [
    | [] ↦ none
    | t ∷ ts ↦ some (join (codes " AND ") (map quoted_term (t ∷ ts)))
  ]

  abbrev pub search_limit_cap : ℕ
  search_limit_cap = 50

  -- `search_chunks`, from what the index answers for an expression, with its limit.
  unfoldable pub search_chunks :
      (Store → Text → List ChunkSearchHit) → Store → Text → ℕ → List ChunkSearchHit
  search_chunks match_fts s query limit = elim (fts_query query) [
    | none ↦ []
    | some expression ↦ take (min limit search_limit_cap) (match_fts s expression)
  ]

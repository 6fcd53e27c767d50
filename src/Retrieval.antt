-- ===== src/Retrieval.antt =====
-- crates/fndr-retrieval/src/merged_search.rs and lib.rs: the keyword route and the vector route, and
-- how their hits are merged. The full-text index, the embedder and Lance are parameters.
pub mod Search
pub mod Merged
use fndr.Prelude.{
  ℕ, Bool, true, false, ◌||◌, List, [], ◌∷◌, ◌++◌, map, Option, none, some, Result, ok, err,
  if◌then◌else◌, leb, ◌==◌, length, take, ◌>>=◌, unwrap_or,
}
use fndr.Text.{Text, codes, text_eq, one_of, is_empty, trim}
use fndr.Platform.{Platform}
use fndr.Store.{Store}
use fndr.Store.Reading.{
  ChunkSearchHit, ChunkEvidence, RecordEvidence, record_evidence, search_chunks,
}

pub data Route : Type 0 where
  keyword vector : Route

pub record TaggedHit : Type 0 where
  pub record_id : Text
  pub chunk_id : Text
  pub source : Text
  pub captured_at_ms : ℕ
  pub snippet : Text
  pub route : Route

pub record VectorHit (D : Type 0) : Type 0 where
  pub record_id : Text
  pub chunk_id : Text
  pub source : Text
  pub captured_at_ms : ℕ
  pub distance : D

pub data VectorSearchError (E : Type 0) : Type 0 where
  embed : E → VectorSearchError E
  wrong_dimension : ℕ → ℕ → VectorSearchError E
  lance : E → VectorSearchError E
  invalid_row : VectorSearchError E

-- The embedder, and the rows that Lance finds for a vector, its last failures included.
pub record VectorIndex (V D E : Type 0) : Type 0 where
  pub dim : ℕ
  pub vector_len : V → ℕ
  pub embed_query : Text → Result V E
  pub nearest : V → ℕ → Result (List (VectorHit D)) (VectorSearchError E)

-- `HashSet::insert` on the ids seen.
abbrev pub insert_seen : Text → List Text → List Text
insert_seen id seen = if one_of id seen then seen else id ∷ seen

abbrev pub tag_keyword : ChunkSearchHit → TaggedHit
tag_keyword h = record {
  record_id = h.record_id;
  chunk_id = h.chunk_id;
  source = h.source;
  captured_at_ms = h.captured_at_ms;
  snippet = h.snippet;
  route = keyword;
}

abbrev pub insert_all : List TaggedHit → List Text → List Text
insert_all [] seen = seen
insert_all (h ∷ hs) seen = insert_all hs (insert_seen h.chunk_id seen)

-- The hits of the keyword route, and what has been seen then.
unfoldable pub keyword_hits :
    {Url : Type 0}
    → Platform Url
    → (Store → Text → List ChunkSearchHit)
    → Store
    → Text
    → ℕ
    → List Text
    → List TaggedHit × List Text
keyword_hits pf match_fts s query limit seen =
    let hits = map tag_keyword (search_chunks pf match_fts s query limit) in
    (hits, insert_all hits seen)

-- `filter(|hit| seen.insert(hit.chunk_id.clone()))`.
unfoldable pub filter_new : {D : Type 0} → List (VectorHit D) → List Text → List (VectorHit D)
filter_new [] seen = []
filter_new (h ∷ hs) seen =
    let rest = filter_new hs (insert_seen h.chunk_id seen) in
    if one_of h.chunk_id seen then rest else h ∷ rest

abbrev pub snippet_chars : ℕ
snippet_chars = 200

abbrev pub find_chunk : Text → List ChunkEvidence → Option ChunkEvidence
find_chunk id [] = none
find_chunk id (c ∷ cs) =
    let rest = find_chunk id cs in if text_eq c.chunk_id id then some c else rest

-- The excerpt, with U+2026 behind it if it is cut.
abbrev pub excerpt : Text → Text
excerpt text =
    if leb (length text) snippet_chars then text else take snippet_chars text ++ (8230 ∷ [])

unfoldable pub vector_hit_snippet : {D : Type 0} → Store → VectorHit D → Option Text
unfolding record_evidence
vector_hit_snippet s hit = do
  evidence ← record_evidence s hit.record_id
  chunk ← find_chunk hit.chunk_id evidence.chunks
  some (excerpt chunk.text)

abbrev pub tag_vector : {D : Type 0} → Store → VectorHit D → TaggedHit
tag_vector s hit = record {
  record_id = hit.record_id;
  chunk_id = hit.chunk_id;
  source = hit.source;
  captured_at_ms = hit.captured_at_ms;
  snippet = unwrap_or [] (vector_hit_snippet s hit);
  route = vector;
}

unfoldable pub tag_vector_hits_with_snippets :
    {D : Type 0} → Store → List (VectorHit D) → List TaggedHit
tag_vector_hits_with_snippets s hits = map (tag_vector s) hits

module _ {V D E : Type 0} (ix : VectorIndex V D E) where
  -- `VectorRetriever::search`.
  unfoldable pub vector_search : Text → ℕ → Result (List (VectorHit D)) (VectorSearchError E)
  vector_search query limit =
      if is_empty (trim query) || limit == 0 then ok [] else elim (ix.embed_query query) [
        | err e ↦ err (embed e)
        | ok v ↦
            if ix.vector_len v == ix.dim
            then ix.nearest v limit
            else err (wrong_dimension (ix.vector_len v) ix.dim)
      ]

  unfoldable pub vector_hits :
      Text → ℕ → List Text → Result (List (VectorHit D)) (VectorSearchError E)
  unfolding vector_search
  vector_hits query limit seen = elim (vector_search query limit) [
    | err e ↦ err e
    | ok hits ↦ ok (filter_new hits seen)
  ]
